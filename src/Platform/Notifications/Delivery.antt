-- ===== src/Platform/Notifications/Delivery.antt =====
-- What a delivery leaves behind, whom it reaches, and what it hides.
use chatterloop_developer_se.Common.{
  Bool, true, false, some, Text, text_eq, ◌≡◌, ◌≢◌, refl, arith, Fetched, found, missing, broken,
  ◌⊎◌, inl, inr, Option-cases, query_cases, Bool-cases, codes, ◌++◌, ◌∷◌, text_eq_iff, ap,
}
use chatterloop_developer_se.Platform.Community.{PostAccess, permits, load_post_access}
use chatterloop_developer_se.Platform.Community.Permits.{MayUse, permits_iff}
use chatterloop_developer_se.Platform.Notifications.{
  Notification, Backend, Delivered, Document, Frame, write_notification, resolve_scope, told,
  post_scope, community_notification, document_of, frame_of,
}

-- Who may be told: the access is the recipient's own, and a community is told to its members only.
pub record MayHear (b : Backend) (n : Notification) : Type 0 where
  pub access : PostAccess
  pub loaded : load_post_access b.access n.target_id n.to_entity_id ≡ found access
  pub permitted : MayUse access n.to_entity_id false
  pub member : access.community_count ≢ 0 → access.community_member ≡ true

in_community :
    (n m : Notification) (access : PostAccess) (anonymous : Bool)
    → community_notification n access anonymous ≡ some m
    → access.community_member ≡ true
unfolding community_notification
in_community n m access anonymous e = ground arith

told-member :
    (b : Backend) (n m : Notification) (access : PostAccess)
    → told b n access ≡ some m
    → (permits access n.to_entity_id false ≡ true)
      × (access.community_count ≢ 0 → access.community_member ≡ true)
told-member b n m access e = elim (Bool-cases (permits access n.to_entity_id false)) [
  | inr denied ↦ cc (rw denied at e)
  | inl allowed ↦ (
    allowed,
    λ some'. elim (query_cases (b.anonymous n.reference_id n.target_id)) [
      | inl (hidden, held) ↦ in_community n m access hidden (ground arith)
      | inr (inl none') ↦ ground arith
      | inr (inr failed) ↦ ground arith
    ],
  )
]

post_scope-MayHear :
    (b : Backend) (n m : Notification) (o : Fetched PostAccess)
    → load_post_access b.access n.target_id n.to_entity_id ≡ o
    → post_scope b n o ≡ some m
    → MayHear b n
post_scope-MayHear b n m (found access) l e =
    let (allowed, member) = told-member b n m access e in
    record {
      access = access;
      loaded = l;
      permitted = (permits_iff access n.to_entity_id false).0 allowed;
      member = member;
    }
post_scope-MayHear b n m missing l e = cc
post_scope-MayHear b n m broken l e = cc

resolve_scope-MayHear :
    (b : Backend) (n m : Notification)
    → text_eq n.target_type (codes "post") ≡ true
    → resolve_scope b n ≡ some m
    → MayHear b n
unfolding resolve_scope
resolve_scope-MayHear b n m post e = post_scope-MayHear b n m _ refl (rw (resolve_scope, post) at e)

-- A notification about a post that is delivered reaches an entity that may read the post at that
-- moment, and in a community a member of it.
pub write_notification-MayHear :
    (b : Backend) (n : Notification) (s : Delivered)
    → n.target_type ≡ codes "post"
    → (write_notification b n s).0 ≡ true
    → MayHear b n
unfolding write_notification
write_notification-MayHear b n s post e = elim (Option-cases (resolve_scope b n)) [
  | inl none' ↦ cc (rw (write_notification, none') at e)
  | inr (m, held) ↦ resolve_scope-MayHear b n m ((text_eq_iff _ _).1 post) held
]

-- The same notification from another entity, in other words.
abbrev pub reworded : Notification → Text → Text → Notification
reworded n from details = record n { from_entity_id = from; details = details }

resolve_scope-reworded :
    (b : Backend) (n : Notification) (from details : Text) (access : PostAccess)
    → text_eq n.target_type (codes "post") ≡ true
    → load_post_access b.access n.target_id n.to_entity_id ≡ found access
    → access.community_count ≢ 0
    → b.anonymous n.reference_id n.target_id ≡ found true
    → resolve_scope b n ≡ resolve_scope b (reworded n from details)
unfolding resolve_scope community_notification
resolve_scope-reworded b n from details access post loaded some' hidden =
    rw (resolve_scope, post, loaded, hidden) (ground arith)

-- The delivery of an anonymous contribution to a community does not depend on who made it, nor on
-- how the caller words it: neither is in what is stored or sent.
pub write_notification-anonymous :
    (b : Backend) (n : Notification) (s : Delivered) (from details : Text) (access : PostAccess)
    → n.target_type ≡ codes "post"
    → load_post_access b.access n.target_id n.to_entity_id ≡ found access
    → access.community_count ≢ 0
    → b.anonymous n.reference_id n.target_id ≡ found true
    → write_notification b n s ≡ write_notification b (reworded n from details) s
unfolding write_notification
write_notification-anonymous b n s from details access post loaded some' hidden = rw (
  write_notification,
  resolve_scope-reworded b n from details access ((text_eq_iff _ _).1 post) loaded some' hidden,
)

resolve_scope-to :
    (b : Backend) (n m : Notification)
    → resolve_scope b n ≡ some m
    → m.to_entity_id ≡ n.to_entity_id
unfolding resolve_scope community_notification
resolve_scope-to b n m e = ground arith

-- A delivery either changes nothing and says so, or stores one document and sends one frame, both
-- for the entity it is addressed to.
pub write_notification-cases :
    (b : Backend) (n : Notification) (s : Delivered)
    → (write_notification b n s ≡ (false, s))
      ⊎ ((d : Document) × ((f : Frame) × (write_notification b n s
              ≡ (true, record { documents = d ∷ s.documents; frames = f ∷ s.frames }))
            × (d.to_user_id ≡ n.to_entity_id)
            × (f.channel ≡ (codes "events_" ++ n.to_entity_id))))
unfolding write_notification
write_notification-cases b n s = elim (Option-cases (resolve_scope b n)) [
  | inl none' ↦ inl (rw (write_notification, none'))
  | inr (m, held) ↦ elim (Option-cases b.fresh_id) [
    | inl none' ↦ inl (rw (write_notification, held, none'))
    | inr (id, minted) ↦ elim (Bool-cases (b.inserts (document_of id b.date m))) [
      | inr lost ↦ inl (rw (write_notification, held, minted, lost))
      | inl kept ↦ inr (
        document_of id b.date m,
        (
          frame_of m,
          rw (write_notification, held, minted, kept),
          resolve_scope-to b n m held,
          ap (λ to. codes "events_" ++ to) (resolve_scope-to b n m held),
        ),
      )
    ]
  ]
]
