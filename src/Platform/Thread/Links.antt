-- ===== src/Platform/Thread/Links.antt =====
-- Following links within a budget, over a part of the messages and over all of them.
use native.Mathlib.Nat.{sub-zero, suc-sub-suc}
use chatterloop_developer_se.Common.{
  ℕ, zero, suc, ◌+◌, ◌-◌, ◌≤◌, Option, none, some, List, [], ◌∷◌, ◌++◌, Text, ◌≡◌, refl, lookup, ℤ,
  length, arith, ap, ◌∙◌, sym, Option-cases, inl, inr,
}
use chatterloop_developer_se.Platform.Bson.{Value, Fields}
use chatterloop_developer_se.Platform.Messages.{Message, decode_message}
use chatterloop_developer_se.Platform.Thread.{
  Segment, link_of, follow, stay, linked_ancestors, maybe_cons,
}

-- Every document of a part is a document of the whole.
abbrev pub Within : List (Text × Fields) → List (Text × Fields) → Type 0
Within part whole = (id : Text) (d : Fields) → lookup id part ≡ some d → lookup id whole ≡ some d

-- A segment and what is followed from where it stopped.
abbrev pub join : Segment → Segment → Segment
join s t = record { chain = s.chain ++ t.chain; next = t.next; used = s.used + t.used }

module _ (epoch_millis : Value → ℤ) (conversation_id : Text) where
  abbrev Links : List (Text × Fields) → Text → ℕ → Segment
  Links documents parent budget =
      linked_ancestors epoch_millis documents parent conversation_id budget

  pub links_found :
      (documents : List (Text × Fields)) (c : ℕ) (parent : Text) (budget : ℕ) (d : Fields)
      → lookup (c ∷ parent) documents ≡ some d
      → Links documents (c ∷ parent) (suc budget)
        ≡ follow
            (decode_message epoch_millis d conversation_id)
            (Links documents (link_of d) budget)
  unfolding linked_ancestors
  links_found documents c parent budget d e = rw (linked_ancestors, e)

  pub links_missing :
      (documents : List (Text × Fields)) (c : ℕ) (parent : Text) (budget : ℕ)
      → lookup (c ∷ parent) documents ≡ none
      → Links documents (c ∷ parent) budget ≡ stay (c ∷ parent)
  unfolding linked_ancestors
  links_missing documents c parent zero e = refl
  links_missing documents c parent (suc budget) e = rw (linked_ancestors, e)

  pub links_root :
      (documents : List (Text × Fields)) (budget : ℕ) → Links documents [] budget ≡ stay []
  unfolding linked_ancestors
  links_root documents zero = refl
  links_root documents (suc budget) = refl

  -- No more links are followed than the budget allows.
  pub used-le :
      (documents : List (Text × Fields)) (parent : Text) (budget : ℕ)
      → (Links documents parent budget).used ≤ budget
  unfolding linked_ancestors
  used-le documents parent zero = omega arith
  used-le documents [] (suc budget) = omega arith
  used-le documents (c ∷ parent) (suc budget) =
      elim (Option-cases (lookup (c ∷ parent) documents)) [
        | inl e ↦ rw (links_missing documents c parent (suc budget) e) (omega arith)
        | inr (d, e) ↦
            rw (links_found documents c parent budget d e)
              (omega (arith, used-le documents (link_of d) budget))
      ]

  maybe_cons-append :
      (m : Option Message) (xs ys : List Message) → maybe_cons m (xs ++ ys) ≡ maybe_cons m xs ++ ys
  maybe_cons-append none xs ys = refl
  maybe_cons-append (some m) xs ys = refl

  follow-join : (m : Option Message) (s t : Segment) → follow m (join s t) ≡ join (follow m s) t
  follow-join m s t = ground (arith, maybe_cons-append m s.chain t.chain)

  join-stay : (p : Text) (t : Segment) → join (stay p) t ≡ t
  join-stay p t = ground arith

  -- Following links over a part, and on over the whole from where that stopped, is following them
  -- over the whole.
  pub links-join :
      (part whole : List (Text × Fields)) (parent : Text) (budget : ℕ)
      → Within part whole
      → let s = Links part parent budget in
        Links whole parent budget ≡ join s (Links whole s.next (budget - s.used))
  links-join part whole parent zero w = unfold linked_ancestors in refl
  links-join part whole [] (suc budget) w =
      rw (links_root part (suc budget), links_root whole (suc budget), links_root whole _) refl
  links-join part whole (c ∷ parent) (suc budget) w =
      elim (Option-cases (lookup (c ∷ parent) part)) [
        | inl e ↦
            rw (links_missing part c parent (suc budget) e, sub-zero (suc budget))
              (sym (join-stay (c ∷ parent) _))
        | inr (d, e) ↦
            rw
              (
                links_found part c parent budget d e,
                links_found whole c parent budget d (w (c ∷ parent) d e),
              )
              (let m = decode_message epoch_millis d conversation_id in
                let s = Links part (link_of d) budget in
                ap (follow m) (links-join part whole (link_of d) budget w)
                ∙ follow-join m s (Links whole s.next (budget - s.used))
                ∙ ap (λ n. join (follow m s) (Links whole s.next n))
                    (sym (suc-sub-suc budget s.used)))
      ]

  pub length-chain-le :
      (documents : List (Text × Fields)) (parent : Text) (budget : ℕ)
      → length (Links documents parent budget).chain ≤ (Links documents parent budget).used
  length-chain-le documents parent zero = unfold linked_ancestors in omega arith
  length-chain-le documents [] (suc budget) = unfold linked_ancestors in omega arith
  length-chain-le documents (c ∷ parent) (suc budget) =
      elim (Option-cases (lookup (c ∷ parent) documents)) [
        | inl e ↦ rw (links_missing documents c parent (suc budget) e) (omega arith)
        | inr (d, e) ↦ rw (links_found documents c parent budget d e) (
            longer (decode_message epoch_millis d conversation_id)
              (Links documents (link_of d) budget) (length-chain-le documents (link_of d) budget))
      ]
    where
      longer :
          (m : Option Message) (s : Segment)
          → length s.chain ≤ s.used
          → length (follow m s).chain ≤ (follow m s).used
      longer none s h = omega arith
      longer (some m) s h = omega arith
