-- ===== src/Platform/Entities/Searching.antt =====
-- What a search shows.
use chatterloop_developer_se.Common.{
  if◌then◌else◌, ℕ, Bool, true, ◌&&◌, not, List, [], ◌∷◌, ◌++◌, Text, text_eq, contains,
  contains-append, without, Fetched, found, keep, Distinct, Distinct-concat, Rows, rows_of,
  trim_space, codes, ℤ, ◌≡◌, refl, arith, ◌∙◌, ap, Bool-cases, inl, inr, ltb, length, text_eq_iff,
  text_eq_refl, map, ◌||◌,
}
use chatterloop_developer_se.Platform.Mentionable.Reachable.{sides, blocked_entity_ids-sides}
use chatterloop_developer_se.Platform.Entities.{
  FoundEntity, search_entities, drop_blocked, kind_filter, filter_kinds, kinds_allowed, term_of,
  at_least_1, rows_read, visible_of, read_entities,
}

abbrev is_new : Text → List Text → Bool
is_new kind want = contains kind kinds_allowed && not (contains kind want)

-- A filter keeps kinds that exist, each once.
abbrev Kinds : List Text → Type 0
Kinds want = Distinct want × ((k : Text) → contains k want ≡ true → contains k kinds_allowed ≡ true)

Kinds-concat :
    (want : List Text) (kind : Text)
    → is_new kind want ≡ true
    → Kinds want
    → Kinds (want ++ kind ∷ [])
unfolding contains
Kinds-concat want kind new (d, h) = (
  Distinct-concat want kind d (ground arith),
  λ k held. elim (Bool-cases (text_eq kind k)) [
    | inl same ↦ rw (← (text_eq_iff kind k).0 same) (ground arith)
    | inr other ↦ h k (ground (arith, contains-append k want (kind ∷ [])))
  ],
)

filter_kinds-Kinds :
    (lower : Text → Text) (want kinds : List Text)
    → Kinds want
    → Kinds (filter_kinds lower want kinds)
unfolding filter_kinds
filter_kinds-Kinds lower want [] d = d
filter_kinds-Kinds lower want (x ∷ kinds) d =
    let kind = lower (trim_space x) in
    elim (Bool-cases (is_new kind want)) [
      | inl new ↦
          rw new (filter_kinds-Kinds lower (want ++ kind ∷ []) kinds (Kinds-concat want kind new d))
      | inr old ↦ rw old (filter_kinds-Kinds lower want kinds d)
    ]

-- The kinds that a caller names, as the filter spells them.
abbrev pub asked : (Text → Text) → List Text → List Text
asked lower kinds = map (λ k. lower (trim_space k)) kinds

filter_kinds-contains :
    (lower : Text → Text) (want kinds : List Text) (k : Text)
    → contains k (filter_kinds lower want kinds)
      ≡ (contains k want || (contains k kinds_allowed && contains k (asked lower kinds)))
unfolding filter_kinds contains
filter_kinds-contains lower want [] k = ground arith
filter_kinds-contains lower want (x ∷ kinds) k =
    let kind = lower (trim_space x) in
    elim (Bool-cases (text_eq kind k)) [
      | inl same ↦ rw ((text_eq_iff kind k).0 same) (elim (Bool-cases (is_new k want)) [
        | inl new ↦ rw new (
            ground (
              arith,
              filter_kinds-contains lower (want ++ k ∷ []) kinds k,
              contains-append k want (k ∷ []),
              text_eq_refl k,
            ))
        | inr old ↦
            rw old (ground (arith, filter_kinds-contains lower want kinds k, text_eq_refl k))
      ])
      | inr other ↦ elim (Bool-cases (is_new kind want)) [
        | inl new ↦ rw new (
            ground (
              arith,
              filter_kinds-contains lower (want ++ kind ∷ []) kinds k,
              contains-append k want (kind ∷ []),
            ))
        | inr old ↦ rw old (ground (arith, filter_kinds-contains lower want kinds k))
      ]
    ]

drop_blocked-keep :
    (es : List FoundEntity) (blocked : List Text)
    → drop_blocked blocked es ≡ keep (λ (e : FoundEntity). not (contains e.entity_id blocked)) es
unfolding drop_blocked
drop_blocked-keep [] blocked = refl
drop_blocked-keep (e ∷ es) blocked = ground (arith, drop_blocked-keep es blocked)

Kinds-nil : Kinds []
unfolding contains
Kinds-nil = (tt, λ k h. cc)

visible_of-keep :
    (blocked : List Text) (es : List FoundEntity)
    → visible_of (found blocked) (found es)
      ≡ found (keep (λ (e : FoundEntity). not (contains e.entity_id blocked)) es)
visible_of-keep blocked [] = refl
visible_of-keep blocked (e ∷ es) = ap found (drop_blocked-keep (e ∷ es) blocked)

read_entities-rows : (es : List FoundEntity) → read_entities (rows_of es) ≡ found es
unfolding read_entities
read_entities-rows [] = refl
read_entities-rows (e ∷ es) = rw (read_entities, read_entities-rows es)

-- Where the query and the blocks can be read, a search for a term of fewer than two bytes shows nothing,
-- and any other shows what the query finds, in its order, except whoever stands in a block with the
-- viewer, on either side. The query is asked for exactly the kinds that the caller names and that exist,
-- each once.
pub search_entities-keep :
    (lower : Text → Text) (find : Text → Text → ℕ → Text → List Text → Fetched (Rows FoundEntity))
    (blocks : Text → Fetched (Rows (Text × Text))) (query : Text) (kinds : List Text) (limit : ℤ)
    (viewer k : Text) (es : List FoundEntity) (pairs : List (Text × Text))
    → find
        (term_of lower query ++ codes "%")
        (b'%' ∷ (term_of lower query ++ codes "%"))
        (at_least_1 limit)
        viewer
        (kind_filter lower kinds)
      ≡ found (rows_of es)
    → blocks viewer ≡ found (rows_of pairs)
    → (search_entities lower find blocks query kinds limit viewer
        ≡ found (
            if ltb (length (term_of lower query)) 2
            then []
            else keep
                (λ (e : FoundEntity). not (contains e.entity_id (without viewer (sides pairs))))
                es))
      × Distinct (kind_filter lower kinds)
      × (contains k (kind_filter lower kinds)
          ≡ (contains k kinds_allowed && contains k (asked lower kinds)))
unfolding search_entities kind_filter contains
search_entities-keep lower find blocks query kinds limit viewer k es pairs answered blocked = (
  elim (Bool-cases (ltb (length (term_of lower query)) 2)) [
    | inl short ↦ rw (search_entities, short)
    | inr long ↦
        rw (search_entities, long, answered, rows_read, read_entities-rows es)
          (ap (λ b. visible_of b (found es)) (blocked_entity_ids-sides blocks viewer pairs blocked)
            ∙ visible_of-keep (without viewer (sides pairs)) es)
  ],
  (filter_kinds-Kinds lower [] kinds Kinds-nil).0,
  filter_kinds-contains lower [] kinds k ∙ ground arith,
)
