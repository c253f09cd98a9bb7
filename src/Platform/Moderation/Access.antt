-- ===== src/Platform/Moderation/Access.antt =====
-- The authorisation filter: what it lets through, when it fails, and what it asks.
use chatterloop_developer_se.Common.{
  Bool, true, false, Option, none, some, List, [], ◌∷◌, ◌++◌, Text, text_eq, contains,
  if◌then◌else◌, ◌≡◌, refl, lookup, insert, is_some, keep, arith, Distinct, Distinct-concat,
  contains-append, append_assoc, append-nil, text_eq_iff, Option-cases, inl, inr, Bool-cases, sym,
  ◌∙◌, ap,
}
use mathlib.Core.Option
use chatterloop_developer_se.Platform.Moderation.{
  Permitted, permitted_from, permitted_messages, append_if, stop,
}

module _ (conversations : List (Text × Text)) (is_member : Text → Option Bool) where
  -- The rule with no memory: every message asks for its own conversation, and any failure of a
  -- question fails the whole read.
  abbrev pub permitted_one_by_one : List Text → Option (List Text)
  permitted_one_by_one [] = some []
  permitted_one_by_one (id ∷ ids) = elim (lookup id conversations) [
    | none ↦ permitted_one_by_one ids
    | some conversation ↦ elim (is_member conversation) [
      | none ↦ none
      | some permitted ↦
          Option.map (λ rest. if permitted then id ∷ rest else rest) (permitted_one_by_one ids)
    ]
  ]

  map_id : (o : Option (List Text)) → Option.map (λ r. [] ++ r) o ≡ o
  map_id none = refl
  map_id (some r) = refl

  asked_insert :
      (decided : List (Text × Bool)) (asked : List Text) (c : Text) (b : Bool)
      → ((k : Text) → contains k asked ≡ is_some (lookup k decided))
      → (k : Text) → contains k (asked ++ c ∷ []) ≡ is_some (lookup k (insert c b decided))
  unfolding contains lookup
  asked_insert decided asked c b h k = ground (arith, contains-append k asked (c ∷ []), h k)

  -- The memory repeats what was answered.
  abbrev Remembers : List (Text × Bool) → Type 0
  Remembers decided = (c : Text) (b : Bool) → lookup c decided ≡ some b → is_member c ≡ some b

  remember :
      (decided : List (Text × Bool)) (c : Text) (b : Bool)
      → is_member c ≡ some b
      → Remembers decided
      → Remembers (insert c b decided)
  unfolding lookup
  remember decided c b e r k v h = elim (Bool-cases (text_eq c k)) [
    | inl same ↦ cc ((text_eq_iff c k).0 same, e, rw same at h)
    | inr other ↦ r k v (rw other at h)
  ]

  -- The rounds of the loop, by what is known of the message.
  module _ (decided : List (Text × Bool)) (allowed asked : List Text) (id : Text)
      (ids : List Text) where
    abbrev From : List (Text × Bool) → List Text → List Text → List Text → Permitted
    From = permitted_from conversations is_member

    from_unknown :
        lookup id conversations ≡ none
        → From decided allowed asked (id ∷ ids) ≡ From decided allowed asked ids
    unfolding permitted_from
    from_unknown e = rw (permitted_from, e)

    from_seen :
        (c : Text) (b : Bool)
        → lookup id conversations ≡ some c
        → lookup c decided ≡ some b
        → From decided allowed asked (id ∷ ids) ≡ From decided (append_if b allowed id) asked ids
    unfolding permitted_from
    from_seen c b e s = rw (permitted_from, e, s)

    from_failed :
        (c : Text)
        → lookup id conversations ≡ some c
        → lookup c decided ≡ none
        → is_member c ≡ none
        → From decided allowed asked (id ∷ ids) ≡ stop (asked ++ c ∷ [])
    unfolding permitted_from
    from_failed c e s m = rw (permitted_from, e, s, m)

    from_answered :
        (c : Text) (b : Bool)
        → lookup id conversations ≡ some c
        → lookup c decided ≡ none
        → is_member c ≡ some b
        → From decided allowed asked (id ∷ ids)
          ≡ From (insert c b decided) (append_if b allowed id) (asked ++ c ∷ []) ids
    unfolding permitted_from
    from_answered c b e s m = rw (permitted_from, e, s, m)

  append_if-map :
      (permitted : Bool) (allowed : List Text) (id : Text) (rest : Option (List Text))
      → Option.map (λ r. append_if permitted allowed id ++ r) rest
        ≡ Option.map (λ r. allowed ++ r) (Option.map (λ r. if permitted then id ∷ r else r) rest)
  append_if-map permitted allowed id none = refl
  append_if-map true allowed id (some r) = ap some (append_assoc allowed (id ∷ []) r)
  append_if-map false allowed id (some r) = refl

  from_memory :
      (decided : List (Text × Bool)) (allowed asked ids : List Text)
      → Remembers decided
      → (permitted_from conversations is_member decided allowed asked ids).result
        ≡ Option.map (λ rest. allowed ++ rest) (permitted_one_by_one ids)
  from_memory decided allowed asked [] r =
      unfold permitted_from in ap some (sym (append-nil allowed))
  from_memory decided allowed asked (id ∷ ids) r = elim (Option-cases (lookup id conversations)) [
    | inl unknown ↦
        rw (from_unknown decided allowed asked id ids unknown, permitted_one_by_one, unknown)
          (from_memory decided allowed asked ids r)
    | inr (c, held) ↦ elim (Option-cases (lookup c decided)) [
      | inr (b, seen) ↦
          rw
            (
              from_seen decided allowed asked id ids c b held seen,
              permitted_one_by_one,
              held,
              r c b seen,
            )
            (from_memory decided (append_if b allowed id) asked ids r
              ∙ append_if-map b allowed id (permitted_one_by_one ids))
      | inl fresh ↦ elim (Option-cases (is_member c)) [
        | inl failed ↦ rw (
          from_failed decided allowed asked id ids c held fresh failed,
          permitted_one_by_one,
          held,
          failed,
        )
        | inr (b, answered) ↦
            rw
              (
                from_answered decided allowed asked id ids c b held fresh answered,
                permitted_one_by_one,
                held,
                answered,
              )
              (from_memory (insert c b decided) (append_if b allowed id) (asked ++ c ∷ []) ids
                  (remember decided c b answered r)
                ∙ append_if-map b allowed id (permitted_one_by_one ids))
      ]
    ]
  ]

  asked-Distinct :
      (decided : List (Text × Bool)) (allowed asked ids : List Text)
      → ((c : Text) → contains c asked ≡ is_some (lookup c decided))
      → Distinct asked
      → Distinct (permitted_from conversations is_member decided allowed asked ids).asked
  asked-Distinct decided allowed asked [] k d = unfold permitted_from in d
  asked-Distinct decided allowed asked (id ∷ ids) k d =
      elim (Option-cases (lookup id conversations)) [
        | inl unknown ↦
            rw (from_unknown decided allowed asked id ids unknown)
              (asked-Distinct decided allowed asked ids k d)
        | inr (c, held) ↦ elim (Option-cases (lookup c decided)) [
          | inr (b, seen) ↦
              rw (from_seen decided allowed asked id ids c b held seen)
                (asked-Distinct decided (append_if b allowed id) asked ids k d)
          | inl fresh ↦
              let d' : Distinct (asked ++ c ∷ []) = Distinct-concat asked c d (k c ∙ rw fresh) in
              elim (Option-cases (is_member c)) [
                | inl failed ↦ rw (from_failed decided allowed asked id ids c held fresh failed) d'
                | inr (b, answered) ↦
                    rw (from_answered decided allowed asked id ids c b held fresh answered) (
                      asked-Distinct (insert c b decided) (append_if b allowed id) (asked ++ c ∷ [])
                        ids (asked_insert decided asked c b k) d')
              ]
        ]
      ]

  -- Remembering the answers changes nothing: a message is let through exactly as if each asked for
  -- itself, in the order of the ids, and the read fails exactly if one of these questions fails.
  pub permitted_messages-one_by_one :
      (ids : List Text)
      → (permitted_messages conversations is_member ids).result ≡ permitted_one_by_one ids
  unfolding permitted_messages lookup
  permitted_messages-one_by_one ids =
      from_memory [] [] [] ids (λ c b e. cc) ∙ map_id (permitted_one_by_one ids)

  -- No conversation is asked about twice.
  pub permitted_messages-Distinct :
      (ids : List Text) → Distinct (permitted_messages conversations is_member ids).asked
  unfolding permitted_messages
  permitted_messages-Distinct ids =
      asked-Distinct [] [] [] ids (λ c. unfold lookup contains in refl) tt

  -- What is let through: messages with a known conversation that the caller is a member of.
  abbrev pub may_read : Text → Bool
  may_read id = elim (lookup id conversations) [
    | none ↦ false
    | some c ↦ elim (is_member c) [ some b ↦ b | none ↦ false ]
  ]

  one_by_one-keep :
      (ids : List Text) (allowed : List Text)
      → permitted_one_by_one ids ≡ some allowed
      → allowed ≡ keep may_read ids
  one_by_one-keep [] allowed e = ground arith
  one_by_one-keep (id ∷ ids) allowed e = elim (Option-cases (permitted_one_by_one ids)) [
    | inl failed ↦ ground arith
    | inr (rest, kept) ↦ ground (arith, one_by_one-keep ids rest kept)
  ]

  -- A read that succeeds returns exactly the ids whose conversation is known and has the caller as
  -- a member, in the order given.
  pub permitted_messages-keep :
      (ids allowed : List Text)
      → (permitted_messages conversations is_member ids).result ≡ some allowed
      → allowed ≡ keep may_read ids
  permitted_messages-keep ids allowed e =
      one_by_one-keep ids allowed (sym (permitted_messages-one_by_one ids) ∙ e)
