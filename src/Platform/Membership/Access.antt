-- ===== src/Platform/Membership/Access.antt =====
-- Who is let into a conversation.
use chatterloop_developer_se.Common.{
  ap, ◌&&◌, not, Option, query_cases, ℕ, ◌==◌, Bool, true, false, none, some, List, [], ◌∷◌, Text,
  text_eq, ◌≡◌, refl, arith, Fetched, found, missing, broken, ◌↔◌, ◌⊎◌, codes, Bool-cases, inl, inr,
  text_eq_iff, text_eq_refl,
}
use chatterloop_developer_se.Platform.Membership.{
  Queries, Realm, failed, Assertion, Conversation, granted, no_access, assert_member,
  assert_messaging_capability, assert_realm_member, assert_direct_member, community, refuse_if,
  among, stored_capability, membership, is_entity, membership_row,
}

-- Neither the conversation nor the actor stands for a community, the stored document is none of a
-- community, and no participant it lists is one. Every question this takes was answered.
pub record MayMessage (q : Queries) (conversation_id actor : Text) : Type 0 where
  pub not_blocked : q.blocked conversation_id actor ≡ found false
  pub stored :
      (q.conversation conversation_id ≡ missing)
      ⊎ ((c : Conversation) × (q.conversation conversation_id ≡ found c)
          × (text_eq c.conversation_type community ≡ false)
          × ((c.participants ≡ []) ⊎ (q.any_community c.participants ≡ found false)))

-- What makes an entity party to a realm conversation.
pub data InRealm (q : Queries) (realm_id entity_id : Text) (r : Realm) : Type 0 where
  open_conference :
      r.realm_type ≡ codes "conference" → r.is_private ≡ false → InRealm q realm_id entity_id r
  acts_as_realm :
      text_eq r.realm_type community ≡ false
      → r.entity ≡ some entity_id
      → InRealm q realm_id entity_id r
  has_membership :
      (m : Text)
      → text_eq r.realm_type community ≡ false
      → q.member entity_id realm_id ≡ found m
      → InRealm q realm_id entity_id r

-- What makes an entity party to a conversation.
pub data IsParty (q : Queries) (conversation_id entity_id : Text) : Type 0 where
  in_realm :
      (r : Realm)
      → q.realm conversation_id ≡ found r
      → InRealm q conversation_id entity_id r
      → IsParty q conversation_id entity_id
  connected :
      (n : ℕ)
      → q.realm conversation_id ≡ missing
      → q.connection conversation_id entity_id ≡ found n
      → IsParty q conversation_id entity_id
  participates :
      (n : ℕ)
      → q.realm conversation_id ≡ missing
      → q.connection conversation_id entity_id ≡ missing
      → q.conversations conversation_id entity_id ≡ found n
      → (n == 0) ≡ false
      → IsParty q conversation_id entity_id

-- What the first check reads, by the answers.
not_refused : (o : Fetched Bool) → refuse_if o ≡ granted → o ≡ found false
not_refused (found true) h = cc
not_refused (found false) h = refl
not_refused missing h = cc
not_refused broken h = cc

Assertion-cases : (a : Assertion) → (a ≡ granted) ⊎ (a ≡ no_access) ⊎ (a ≡ failed)
Assertion-cases granted = inl refl
Assertion-cases no_access = inr (inl refl)
Assertion-cases failed = inr (inr refl)

listed_none :
    (q : Queries) (ps : List Text)
    → (ps ≡ []) ⊎ (q.any_community ps ≡ found false)
    → among q ps ≡ granted
listed_none q [] h = refl
listed_none q (p ∷ ps) (inl e) = cc e
listed_none q (p ∷ ps) (inr e) = rw e

none-listed :
    (q : Queries) (ps : List Text)
    → among q ps ≡ granted
    → (ps ≡ []) ⊎ (q.any_community ps ≡ found false)
none-listed q [] h = inl refl
none-listed q (p ∷ ps) h = inr (not_refused (q.any_community (p ∷ ps)) h)

MayMessage-granted :
    (q : Queries) (conversation_id actor : Text)
    → MayMessage q conversation_id actor
    → assert_messaging_capability q conversation_id actor ≡ granted
unfolding assert_messaging_capability
MayMessage-granted q cid actor m = elim (m.stored) [
  | inl none' ↦ rw (assert_messaging_capability, m.not_blocked, none')
  | inr (c, e, other, free) ↦
      rw (assert_messaging_capability, m.not_blocked, e, other) (listed_none q c.participants free)
]

stored-granted :
    (q : Queries) (o : Fetched Conversation)
    → stored_capability q o ≡ granted
    → (o ≡ missing)
      ⊎ ((c : Conversation) × (o ≡ found c)
          × (text_eq c.conversation_type community ≡ false)
          × ((c.participants ≡ []) ⊎ (q.any_community c.participants ≡ found false)))
stored-granted q missing h = inl refl
stored-granted q broken h = cc
stored-granted q (found c) h = elim (Bool-cases (text_eq c.conversation_type community)) [
  | inl same ↦ cc (rw same at h)
  | inr other ↦ inr (c, refl, other, none-listed q c.participants (rw other at h))
]

granted-MayMessage :
    (q : Queries) (conversation_id actor : Text)
    → assert_messaging_capability q conversation_id actor ≡ granted
    → MayMessage q conversation_id actor
unfolding assert_messaging_capability
granted-MayMessage q cid actor e = elim (Assertion-cases (refuse_if (q.blocked cid actor))) [
  | inl ok ↦ record {
    not_blocked = not_refused (q.blocked cid actor) ok;
    stored = stored-granted q (q.conversation cid) (rw (assert_messaging_capability, ok) at e);
  }
  | inr (inl denied) ↦ cc (rw (assert_messaging_capability, denied) at e)
  | inr (inr bad) ↦ cc (rw (assert_messaging_capability, bad) at e)
]

is_entity-some : (o : Option Text) (e : Text) → is_entity o e ≡ true → o ≡ some e
is_entity-some none e h = cc
is_entity-some (some a) e h = ap some ((text_eq_iff a e).0 h)

row-found : (o : Fetched Text) → membership_row o ≡ granted → (m : Text) × (o ≡ found m)
row-found (found m) h = (m, refl)
row-found missing h = cc
row-found broken h = cc

realm-granted :
    (q : Queries) (realm_id entity_id : Text) (r : Realm)
    → assert_realm_member q realm_id entity_id r ≡ granted
    → InRealm q realm_id entity_id r
unfolding assert_realm_member
realm-granted q realm_id entity_id r h = elim (Bool-cases (text_eq r.realm_type community)) [
  | inl refused ↦ cc (rw refused at h)
  | inr other ↦ elim (Bool-cases (text_eq r.realm_type (codes "conference") && not r.is_private)) [
    | inl open' ↦
        open_conference ((text_eq_iff r.realm_type (codes "conference")).0 (ground arith))
          (ground arith)
    | inr shut ↦ elim (Bool-cases (is_entity r.entity entity_id)) [
      | inl same ↦ acts_as_realm other (is_entity-some r.entity entity_id same)
      | inr differs ↦
          let held = row-found (q.member entity_id realm_id) (rw (other, shut, differs) at h) in
          has_membership held.0 other held.1
    ]
  ]
]

InRealm-granted :
    (q : Queries) (realm_id entity_id : Text) (r : Realm)
    → InRealm q realm_id entity_id r
    → assert_realm_member q realm_id entity_id r ≡ granted
unfolding assert_realm_member text_eq
InRealm-granted q realm_id entity_id r (open_conference e p) = rw (e, p)
InRealm-granted q realm_id entity_id r (acts_as_realm other e) =
    ground (arith, text_eq_refl entity_id)
InRealm-granted q realm_id entity_id r (has_membership m other e) = ground arith

direct-granted :
    (q : Queries) (conversation_id entity_id : Text)
    → q.realm conversation_id ≡ missing
    → assert_direct_member q conversation_id entity_id ≡ granted
    → IsParty q conversation_id entity_id
unfolding assert_direct_member
direct-granted q conversation_id entity_id none' h =
    elim (query_cases (q.connection conversation_id entity_id)) [
      | inl (n, held) ↦ connected n none' held
      | inr (inr failed') ↦ cc (rw (assert_direct_member, failed') at h)
      | inr (inl nothing) ↦ elim (query_cases (q.conversations conversation_id entity_id)) [
        | inl (n, held) ↦ participates n none' nothing held (ground arith)
        | inr (inl nothing') ↦ cc (rw (assert_direct_member, nothing, nothing') at h)
        | inr (inr failed') ↦ cc (rw (assert_direct_member, nothing, failed') at h)
      ]
    ]

granted-IsParty :
    (q : Queries) (conversation_id entity_id : Text)
    → membership q conversation_id entity_id (q.realm conversation_id) ≡ granted
    → IsParty q conversation_id entity_id
granted-IsParty q c e h = elim (query_cases (q.realm c)) [
  | inl (r, held) ↦ in_realm r held (realm-granted q c e r (rw held at h))
  | inr (inl none') ↦ direct-granted q c e none' (rw none' at h)
  | inr (inr failed') ↦ cc (rw failed' at h)
]

IsParty-granted :
    (q : Queries) (conversation_id entity_id : Text)
    → IsParty q conversation_id entity_id
    → membership q conversation_id entity_id (q.realm conversation_id) ≡ granted
unfolding assert_direct_member
IsParty-granted q c e (in_realm r held party) = rw held (InRealm-granted q c e r party)
IsParty-granted q c e (connected n none' held) = rw (none', assert_direct_member, held)
IsParty-granted q c e (participates n none' nothing held some') =
    rw (none', assert_direct_member, nothing, held, some')

-- An entity is let into a conversation exactly when the conversation may be messaged at all and the
-- entity is party to it: by the realm of that id if there is one, else by a connection, else by the
-- stored participants.
pub assert_member_iff :
    (q : Queries) (conversation_id entity_id : Text)
    → (assert_member q conversation_id entity_id ≡ granted)
      ↔ (MayMessage q conversation_id entity_id × IsParty q conversation_id entity_id)
unfolding assert_member
assert_member_iff q conversation_id entity_id = (
  λ h. elim (Assertion-cases (assert_messaging_capability q conversation_id entity_id)) [
    | inl ok ↦ (
      granted-MayMessage q conversation_id entity_id ok,
      granted-IsParty q conversation_id entity_id (rw (assert_member, ok) at h),
    )
    | inr (inl denied) ↦ cc (rw (assert_member, denied) at h)
    | inr (inr bad) ↦ cc (rw (assert_member, bad) at h)
  ],
  λ (may, party).
      rw (assert_member, MayMessage-granted q conversation_id entity_id may)
        (IsParty-granted q conversation_id entity_id party),
)
