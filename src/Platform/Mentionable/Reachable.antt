-- ===== src/Platform/Mentionable/Reachable.antt =====
-- Whom a comment can mention.
use chatterloop_developer_se.Common.{
  ℕ, suc, zero, ◌+◌, ◌≤◌, Bool, true, false, not, List, [], ◌∷◌, ◌++◌, Text, text_eq, contains,
  without, contains-without, ◌==◌, if◌then◌else◌, is_empty, length, take, keep, length-take_le,
  Fetched, found, missing, found-injective, broken, Rows, exhausted, cut_short, row, unreadable,
  ◌≡◌, refl, arith, Bool-cases, inl, inr, query_cases, rows_of, Distinct, text_eq_iff, append-nil,
  append_assoc, length-append, sym, ◌∙◌,
}
use chatterloop_developer_se.Platform.Mentionable.{
  MentionedEntity, ids_of, max_mentions_per_comment, passed_over, with_first, read_mentions,
  read_blocks, blocked_entity_ids, keep_unblocked, resolve_mentions, reachable_of,
  mention_candidates, rows_for,
}

-- Everyone who stands in a block, on either side.
abbrev pub sides : List (Text × Text) → List Text
sides [] = []
sides ((blocker, target) ∷ blocks) = blocker ∷ target ∷ sides blocks

-- An entity that is not the author, and not already seen.
abbrev Fresh : Text → List Text → Text → Type 0
Fresh author seen e = (is_empty e ≡ false) × (text_eq e author ≡ false) × (contains e seen ≡ false)

abbrev AllFresh : Text → List Text → List MentionedEntity → Type 0
AllFresh author seen ms =
    Distinct (ids_of ms) × ((e : Text) → contains e (ids_of ms) ≡ true → Fresh author seen e)

AllFresh-cons :
    (author : Text) (seen : List Text) (m : MentionedEntity) (ms : List MentionedEntity)
    → passed_over author seen m.entity_id ≡ false
    → AllFresh author (m.entity_id ∷ seen) ms
    → AllFresh author seen (m ∷ ms)
unfolding contains
AllFresh-cons author seen m ms p (d, h) = (
  (
    elim (Bool-cases (contains m.entity_id (ids_of ms))) [
      | inl again ↦ ground (arith, h m.entity_id again, text_eq_iff m.entity_id m.entity_id)
      | inr once ↦ once
    ],
    d,
  ),
  λ e held. elim (Bool-cases (text_eq m.entity_id e)) [
    | inl same ↦ rw (← (text_eq_iff m.entity_id e).0 same) (ground arith)
    | inr other ↦ ground (arith, h e (ground arith))
  ],
)

with_first-found :
    (m : MentionedEntity) (q : Fetched (List MentionedEntity)) (ms : List MentionedEntity)
    → with_first m q ≡ found ms
    → (rest : List MentionedEntity) × (q ≡ found rest) × (m ∷ rest ≡ ms)
with_first-found m (found rest) ms e = (rest, refl, found-injective e)
with_first-found m missing ms e = cc
with_first-found m broken ms e = cc

read_mentions-AllFresh :
    (author : Text) (seen : List Text) (rows : Rows (Text × Text)) (ms : List MentionedEntity)
    → read_mentions author seen rows ≡ found ms
    → AllFresh author seen ms
unfolding read_mentions contains
read_mentions-AllFresh author seen exhausted [] e = (tt, λ x h. cc)
read_mentions-AllFresh author seen exhausted (m ∷ ms) e = cc
read_mentions-AllFresh author seen cut_short ms e = cc
read_mentions-AllFresh author seen (unreadable rows) ms e = cc
read_mentions-AllFresh author seen (row (i, handle) rows) ms e =
    elim (Bool-cases (passed_over author seen i)) [
      | inl skip ↦ read_mentions-AllFresh author seen rows ms (rw skip at e)
      | inr fresh ↦
          let m : MentionedEntity = record { entity_id = i; handle = handle } in
          let (rest, held, same) =
            with_first-found m (read_mentions author (i ∷ seen) rows) ms (rw fresh at e) in
          rw (← same) (
            AllFresh-cons author seen m rest fresh
              (read_mentions-AllFresh author (i ∷ seen) rows rest held))
    ]

-- Whether the block set spares an entity.
abbrev pub spared : List Text → MentionedEntity → Bool
spared blocked m = not (contains m.entity_id blocked)

keep_unblocked-take :
    (blocked : List Text) (kept ms : List MentionedEntity) (room : ℕ)
    → length kept + suc room ≡ 20
    → keep_unblocked blocked kept ms ≡ kept ++ take (suc room) (keep (spared blocked) ms)
unfolding keep_unblocked
keep_unblocked-take blocked kept [] room h = sym (append-nil kept)
keep_unblocked-take blocked kept (m ∷ ms) room h =
    elim (Bool-cases (contains m.entity_id blocked)) [
      | inl skip ↦ rw skip (keep_unblocked-take blocked kept ms room h)
      | inr free ↦
          rw free (taken (λ r h. keep_unblocked-take blocked (kept ++ m ∷ []) ms r h) room h)
    ]
  where
    next : List MentionedEntity
    next = kept ++ m ∷ []

    taken :
        ((r : ℕ)
          → length next + suc r ≡ 20
          → keep_unblocked blocked next ms ≡ next ++ take (suc r) (keep (spared blocked) ms))
        → (r : ℕ) → length kept + suc r ≡ 20
        → (if length next == max_mentions_per_comment then next else keep_unblocked blocked next ms)
          ≡ kept ++ m ∷ take r (keep (spared blocked) ms)
    taken more zero h = ground (arith, length-append kept (m ∷ []))
    taken more (suc r) h =
        let below : (length next == max_mentions_per_comment) ≡ false =
          ground (arith, length-append kept (m ∷ [])) in
        rw below (
          more r (omega (arith, length-append kept (m ∷ [])))
          ∙ append_assoc kept (m ∷ []) (take (suc r) (keep (spared blocked) ms)))

take-ids :
    (n : ℕ) (ms : List MentionedEntity) (e : Text)
    → contains e (ids_of (take n ms)) ≡ true
    → contains e (ids_of ms) ≡ true
unfolding contains
take-ids zero ms e h = cc
take-ids (suc n) [] e h = h
take-ids (suc n) (m ∷ ms) e h = ground (arith, take-ids n ms e)

keep-ids :
    (blocked : List Text) (ms : List MentionedEntity) (e : Text)
    → contains e (ids_of (keep (spared blocked) ms)) ≡ true
    → (contains e (ids_of ms) ≡ true) × (contains e blocked ≡ false)
unfolding contains
keep-ids blocked [] e h = cc
keep-ids blocked (m ∷ ms) e h = ground (arith, keep-ids blocked ms e, text_eq_iff m.entity_id e)

take-Distinct :
    (n : ℕ) (ms : List MentionedEntity) → Distinct (ids_of ms) → Distinct (ids_of (take n ms))
take-Distinct zero ms d = tt
take-Distinct (suc n) [] d = tt
take-Distinct (suc n) (m ∷ ms) (fresh, d) = (
  elim (Bool-cases (contains m.entity_id (ids_of (take n ms)))) [
    | inl again ↦ cc (take-ids n ms m.entity_id again, fresh)
    | inr once ↦ once
  ],
  take-Distinct n ms d,
)

keep-Distinct :
    (blocked : List Text) (ms : List MentionedEntity)
    → Distinct (ids_of ms)
    → Distinct (ids_of (keep (spared blocked) ms))
keep-Distinct blocked [] d = tt
keep-Distinct blocked (m ∷ ms) (fresh, d) = elim (Bool-cases (contains m.entity_id blocked)) [
  | inl skip ↦ rw skip (keep-Distinct blocked ms d)
  | inr free ↦ rw free (
    elim (Bool-cases (contains m.entity_id (ids_of (keep (spared blocked) ms)))) [
      | inl again ↦ cc ((keep-ids blocked ms m.entity_id again).0, fresh)
      | inr once ↦ once
    ],
    keep-Distinct blocked ms d,
  )
]

read_blocks-sides : (pairs : List (Text × Text)) → read_blocks (rows_of pairs) ≡ found (sides pairs)
unfolding read_blocks
read_blocks-sides [] = refl
read_blocks-sides ((b, t) ∷ pairs) = rw (read_blocks, read_blocks-sides pairs)

-- The block set of an author, where the query for blocks answers a list of pairs.
pub blocked_entity_ids-sides :
    (blocks : Text → Fetched (Rows (Text × Text))) (author : Text) (pairs : List (Text × Text))
    → blocks author ≡ found (rows_of pairs)
    → blocked_entity_ids blocks author ≡ found (without author (sides pairs))
unfolding blocked_entity_ids
blocked_entity_ids-sides blocks author pairs b = rw (blocked_entity_ids, b, read_blocks-sides pairs)

rows_for-AllFresh :
    (entities : List Text → Fetched (Rows (Text × Text))) (author : Text) (candidates : List Text)
    (ms : List MentionedEntity)
    → rows_for entities author candidates ≡ found ms
    → AllFresh author [] ms
unfolding contains
rows_for-AllFresh entities author [] [] e = (tt, λ x h. cc)
rows_for-AllFresh entities author [] (m ∷ ms) e = cc
rows_for-AllFresh entities author (c ∷ candidates) ms e =
    elim (query_cases (entities (c ∷ candidates))) [
      | inl (rows, held) ↦ read_mentions-AllFresh author [] rows ms (rw (rows_for, held) at e)
      | inr (inl none') ↦ cc (rw (rows_for, none') at e)
      | inr (inr failed) ↦ cc (rw (rows_for, failed) at e)
    ]

resolved_of :
    (blocked : List Text) (ms kept : List MentionedEntity)
    → reachable_of (found blocked) (found ms) ≡ found kept
    → kept ≡ take 20 (keep (spared blocked) ms)
resolved_of blocked [] kept e = sym (found-injective e)
resolved_of blocked (m ∷ ms) kept e =
    sym (found-injective e) ∙ keep_unblocked-take blocked [] (m ∷ ms) 19 refl

-- The answer to a resolution of mentions that succeeds.
abbrev pub Reachable : Text → List (Text × Text) → List MentionedEntity → Type 0
Reachable author pairs kept =
    Distinct (ids_of kept)
    × (length kept ≤ 20)
    × ((e : Text)
        → contains e (ids_of kept) ≡ true
        → (is_empty e ≡ false) × (text_eq e author ≡ false) × (contains e (sides pairs) ≡ false))

-- A comment that is resolved mentions at most twenty entities, each once, none of them the author or
-- blank, and none that stands in a block with the author, whichever side blocked the other.
pub resolve_mentions-Reachable :
    (lower : Text → Text) (entities : List Text → Fetched (Rows (Text × Text)))
    (blocks : Text → Fetched (Rows (Text × Text))) (text author : Text) (pairs : List (Text × Text))
    (kept : List MentionedEntity)
    → blocks author ≡ found (rows_of pairs)
    → resolve_mentions lower entities blocks text author ≡ found kept
    → Reachable author pairs kept
unfolding resolve_mentions blocked_entity_ids
resolve_mentions-Reachable lower entities blocks text author pairs kept b e =
    elim (query_cases (rows_for entities author (mention_candidates lower text))) [
      | inl (ms, named) ↦ answered ms (rows_for-AllFresh entities author _ ms named) (
          resolved_of (without author (sides pairs)) ms kept
            (rw (blocked_entity_ids, b, read_blocks-sides pairs, named) at e))
      | inr (inl none') ↦ cc (rw none' at e)
      | inr (inr failed) ↦ cc (rw failed at e)
    ]
  where
    answered :
        (ms : List MentionedEntity)
        → AllFresh author [] ms
        → kept ≡ take 20 (keep (spared (without author (sides pairs))) ms)
        → Reachable author pairs kept
    answered ms (d, fresh) same =
        let blocked = without author (sides pairs) in
        let free = keep (spared blocked) ms in
        rw same (
          take-Distinct 20 free (keep-Distinct blocked ms d),
          length-take_le 20 free,
          λ x held.
              let (among, unblocked) = keep-ids blocked ms x (take-ids 20 free x held) in
              let (some_id, other, _) = fresh x among in
              (some_id, other, ground (arith, contains-without author (sides pairs) x)),
        )
