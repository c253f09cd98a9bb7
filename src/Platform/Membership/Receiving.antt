-- ===== src/Platform/Membership/Receiving.antt =====
-- Which source of receivers answers.
use chatterloop_developer_se.Common.{
  ap, List, [], ◌∷◌, Text, ◌≡◌, refl, Fetched, found, missing, broken, ◌↔◌,
}
use chatterloop_developer_se.Platform.Membership.{
  Queries, Receiver, Answer, answered, refused, receivers, query_receivers, by_participants,
  or_next, assert_messaging_capability, granted,
}

-- The list is what one of the three sources holds: a source counts only where those before it were
-- read to their end and held nobody.
pub data FirstOf (a b c : Fetched (List Receiver)) : List Receiver → Type 0 where
  from_first : {r : Receiver} {rs : List Receiver} → a ≡ found (r ∷ rs) → FirstOf a b c (r ∷ rs)
  from_second :
      {r : Receiver} {rs : List Receiver}
      → a ≡ found []
      → b ≡ found (r ∷ rs)
      → FirstOf a b c (r ∷ rs)
  from_third : {rs : List Receiver} → a ≡ found [] → b ≡ found [] → c ≡ found rs → FirstOf a b c rs

abbrev list_of : Fetched (List Receiver) → List Receiver
list_of (found rs) = rs
list_of missing = []
list_of broken = []

abbrev content : Answer → Fetched (List Receiver)
content (answered o) = o
content refused = broken

or_next-first :
    (a b c : Fetched (List Receiver)) (rs : List Receiver)
    → or_next a (or_next b c) ≡ found rs
    → FirstOf a b c rs
or_next-first (found (r ∷ rs')) b c rs e = rw (← ap list_of e) (from_first refl)
or_next-first (found []) (found (r ∷ rs')) c rs e = rw (← ap list_of e) (from_second refl refl)
or_next-first (found []) (found []) c rs e = from_third refl refl e
or_next-first (found []) missing c rs e = cc
or_next-first (found []) broken c rs e = cc
or_next-first missing b c rs e = cc
or_next-first broken b c rs e = cc

first-or_next :
    (a b c : Fetched (List Receiver)) (rs : List Receiver)
    → FirstOf a b c rs
    → or_next a (or_next b c) ≡ found rs
first-or_next a b c rs (from_first e) = rw e
first-or_next a b c rs (from_second e f) = rw (e, f)
first-or_next a b c rs (from_third e f g) = rw (e, f, g)

-- Where the conversation may be messaged, Receivers returns a list exactly when it is the first one
-- that is not empty among the connection, the realm's members and the stored participants, or what
-- the participants say when nobody is found before; a failure of a source before it is a failure.
pub receivers_iff :
    (q : Queries) (conversation_id : Text) (rs : List Receiver)
    → assert_messaging_capability q conversation_id [] ≡ granted
    → (receivers q conversation_id ≡ answered (found rs)) ↔ (
        FirstOf
          (query_receivers (q.by_connection conversation_id))
          (query_receivers (q.by_membership conversation_id))
          (by_participants q (q.conversation conversation_id))
          rs)
unfolding receivers
receivers_iff q conversation_id rs ok = (
  λ e. or_next-first _ _ _ rs (ap content (rw (receivers, ok) at e)),
  λ f. rw (receivers, ok) (ap answered (first-or_next _ _ _ rs f)),
)
