-- ===== src/Platform/Thread/Walk.antt =====
-- The walk up a thread is link-by-link following in the conversation, whatever each segment
-- returns.
use chatterloop_developer_se.Common.{
  ℕ, zero, suc, ◌-◌, ◌≤◌, ◌<◌, true, false, ◌||◌, some, List, [], ◌∷◌, ◌++◌, Text, if◌then◌else◌,
  ◌≡◌, refl, lookup, is_empty, ℤ, Fetched, found, ◌==◌, arith, ap, ◌∙◌, sym, Option-cases,
  Bool-cases, inl, inr, append_assoc, append-nil, length-reverse,
}
use chatterloop_developer_se.Platform.Bson.{Value, Fields}
use chatterloop_developer_se.Platform.Messages.{Message, decode_message}
use chatterloop_developer_se.Platform.Thread.{
  Segment, stay, linked_ancestors, Thread, thread, walk, Walked, thread_of, reply_thread,
  at_least_1, enrich,
}
use chatterloop_developer_se.Platform.Thread.Links.{
  Within, links-join, used-le, length-chain-le, links_missing, links_found, links_root, join,
}

-- What the aggregation of ancestorSegment promises of the messages of the conversation that are not
-- deleted, `whole`: it returns some of them, and the one it starts at if there is one.
pub record Segments (whole : List (Text × Fields)) : Type 0 where
  pub documents : Text → ℕ → List (Text × Fields)
  pub within : (start : Text) (budget : ℕ) → Within (documents start budget) whole
  pub starts :
      (start : Text) (budget : ℕ) (d : Fields)
      → 0 < budget
      → lookup start whole ≡ some d
      → lookup start (documents start budget) ≡ some d

module _ (epoch_millis : Value → ℤ) (conversation_id : Text) (whole : List (Text × Fields))
    (segments : Segments whole) where
  abbrev pub ask : Text → ℕ → Fetched (List (Text × Fields))
  ask start budget = found (segments.documents start budget)

  abbrev pub Lineage : Text → ℕ → Segment
  Lineage parent budget = linked_ancestors epoch_millis whole parent conversation_id budget

  -- Where a segment follows nothing from an id, the conversation has no message to follow.
  used_none :
      (c : ℕ) (parent : Text) (budget : ℕ)
      → 0 < budget
      → (linked_ancestors epoch_millis
          (segments.documents (c ∷ parent) budget)
          (c ∷ parent)
          conversation_id
          budget).used
        ≡ 0
      → Lineage (c ∷ parent) budget ≡ stay (c ∷ parent)
  used_none c parent zero h z = absurd (omega arith)
  used_none c parent (suc budget) h z = elim (Option-cases (lookup (c ∷ parent) whole)) [
    | inl e ↦ links_missing epoch_millis conversation_id whole c parent (suc budget) e
    | inr (d, e) ↦ absurd (
        omega (
          arith,
          sym z
              ∙ ap (λ (s : Segment). s.used)
                  (links_found epoch_millis conversation_id
                    (segments.documents (c ∷ parent) (suc budget)) c parent budget d
                    (segments.starts (c ∷ parent) (suc budget) d h e)),
        ))
  ]

  abbrev Walk : ℕ → Text → ℕ → List Message → Fetched Walked
  Walk = walk epoch_millis ask conversation_id

  walk_stops :
      (rounds : ℕ) (parent : Text) (budget : ℕ) (nearest : List Message)
      → (is_empty parent || budget == 0) ≡ true
      → Walk rounds parent budget nearest
        ≡ found (record { nearest_first = nearest; parent = parent })
  unfolding walk
  walk_stops zero parent budget nearest e = refl
  walk_stops (suc rounds) parent budget nearest e = rw e

  walk_goes :
      (rounds c : ℕ) (parent : Text) (budget : ℕ) (nearest : List Message)
      → 0 < budget
      → let s =
          linked_ancestors epoch_millis
            (segments.documents (c ∷ parent) budget)
            (c ∷ parent)
            conversation_id
            budget in
        Walk (suc rounds) (c ∷ parent) budget nearest ≡ (
          if s.used == 0
          then found (record { nearest_first = nearest; parent = c ∷ parent })
          else Walk rounds s.next (budget - s.used) (nearest ++ s.chain))
  unfolding walk
  walk_goes rounds c parent budget nearest h = rw (positive budget h)
    where
      positive : (n : ℕ) → 0 < n → (n == 0) ≡ false
      positive n h = ground arith

  lineage_zero : (parent : Text) → Lineage parent 0 ≡ stay parent
  unfolding linked_ancestors
  lineage_zero parent = refl

  abbrev Rests : Text → List Message → Fetched Walked
  Rests parent nearest = found (record { nearest_first = nearest; parent = parent })

  abbrev Reaches : List Message → Segment → Fetched Walked
  Reaches nearest s = found (record { nearest_first = nearest ++ s.chain; parent = s.next })

  stays :
      (parent : Text) (budget : ℕ) (nearest : List Message)
      → Lineage parent budget ≡ stay parent
      → Rests parent nearest ≡ Reaches nearest (Lineage parent budget)
  stays parent budget nearest e = rw (e, append-nil nearest)

  reaches-join :
      (nearest : List Message) (s rest all_of : Segment)
      → all_of ≡ join s rest
      → Reaches (nearest ++ s.chain) rest ≡ Reaches nearest all_of
  reaches-join nearest s rest all_of e = rw (e, append_assoc nearest s.chain rest.chain)

  walk-lineage :
      (rounds : ℕ) (parent : Text) (budget : ℕ) (nearest : List Message)
      → budget ≤ rounds
      → Walk rounds parent budget nearest ≡ Reaches nearest (Lineage parent budget)
  walk-lineage rounds [] budget nearest h =
      walk_stops rounds [] budget nearest refl
      ∙ stays [] budget nearest (links_root epoch_millis conversation_id whole budget)
  walk-lineage rounds (c ∷ parent) zero nearest h =
      walk_stops rounds (c ∷ parent) zero nearest refl
      ∙ stays (c ∷ parent) zero nearest (lineage_zero (c ∷ parent))
  walk-lineage zero (c ∷ parent) (suc budget) nearest h = absurd (omega arith)
  walk-lineage (suc rounds) (c ∷ parent) (suc budget) nearest h =
      let s =
        linked_ancestors epoch_millis (segments.documents (c ∷ parent) (suc budget)) (c ∷ parent)
          conversation_id (suc budget) in
      walk_goes rounds c parent (suc budget) nearest (omega arith)
      ∙ (elim (Bool-cases (s.used == 0)) [
        | inl none' ↦ rw none' (
            stays (c ∷ parent) (suc budget) nearest
              (used_none c parent (suc budget) (omega arith) (ground arith)))
        | inr more ↦ rw more (
            walk-lineage rounds s.next (suc budget - s.used) (nearest ++ s.chain) (ground arith)
            ∙ reaches-join nearest s (Lineage s.next (suc budget - s.used))
                (Lineage (c ∷ parent) (suc budget))
                (links-join epoch_millis conversation_id
                  (segments.documents (c ∷ parent) (suc budget)) whole (c ∷ parent) (suc budget)
                  (segments.within (c ∷ parent) (suc budget))))
      ])

  -- The thread of an anchor, read off the lineage: the readable ancestors that link-by-link
  -- following meets within the limit, oldest first, then the anchor.
  abbrev pub lineage_thread : Message → ℕ → Thread
  lineage_thread anchor limit =
      let s = Lineage anchor.replying_to (at_least_1 limit) in
      thread_of anchor (record { nearest_first = s.chain; parent = s.next })

  lineage_depth :
      (anchor : Message) (limit : ℕ) → (lineage_thread anchor limit).depth ≤ at_least_1 limit
  lineage_depth anchor limit =
      let s = Lineage anchor.replying_to (at_least_1 limit) in
      omega (
        arith,
        length-reverse s.chain,
        length-chain-le epoch_millis conversation_id whole anchor.replying_to (at_least_1 limit),
        used-le epoch_millis conversation_id whole anchor.replying_to (at_least_1 limit),
      )

  -- For a readable anchor ReplyThread returns the lineage within the limit, a limit below 1 counting
  -- as 1: it does not matter how many segments that takes, nor what else they return. At most the
  -- limit of ancestors are in it, and the loop ends by its own test.
  pub reply_thread-lineage :
      (anchor_query : Text → Fetched Fields) (resolve : List Message → Fetched (List Message))
      (message_id : Text) (limit : ℕ) (raw : Fields) (anchor : Message)
      → is_empty conversation_id ≡ false
      → is_empty message_id ≡ false
      → anchor_query message_id ≡ found raw
      → decode_message epoch_millis raw conversation_id ≡ some anchor
      → (reply_thread epoch_millis anchor_query ask resolve conversation_id message_id limit
          ≡ thread (enrich resolve (lineage_thread anchor limit)))
        × ((lineage_thread anchor limit).depth ≤ at_least_1 limit)
  unfolding reply_thread
  reply_thread-lineage anchor_query resolve message_id limit raw anchor hc hm queried readable = (
    rw (
      hc,
      hm,
      queried,
      readable,
      walk-lineage (at_least_1 limit) anchor.replying_to (at_least_1 limit) [] (omega arith),
    ),
    lineage_depth anchor limit,
  )
