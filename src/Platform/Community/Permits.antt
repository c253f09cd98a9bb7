-- ===== src/Platform/Community/Permits.antt =====
-- What a viewer may do with a post.
use chatterloop_developer_se.Common.{
  Bool, true, false, ◌==◌, some, Text, ◌≡◌, arith, is_empty, Fetched, found, ◌↔◌, inl, inr,
  query_cases, Option, Bool-cases,
}
use chatterloop_developer_se.Platform.Community.{
  PostAccess, permits, Scoped, community_frame_allowed,
}

-- The rule, by cases: a post of no community is readable as its privacy says; a post of one active
-- community is open to its members, and to any known viewer who only reads if it is public.
pub data MayUse (p : PostAccess) (viewer : Text) (write : Bool) : Type 0 where
  ordinary : p.community_count ≡ 0 → p.ordinary_readable ≡ true → MayUse p viewer write
  as_member :
      is_empty viewer ≡ false
      → p.community_count ≡ 1
      → p.community_active ≡ true
      → p.community_member ≡ true
      → MayUse p viewer write
  as_reader :
      is_empty viewer ≡ false
      → p.community_count ≡ 1
      → p.community_active ≡ true
      → p.community_private ≡ false
      → write ≡ false
      → MayUse p viewer write

-- A viewer is permitted exactly what the rule says: a post tagged with several communities permits
-- nothing to anybody.
pub permits_iff :
    (p : PostAccess) (viewer : Text) (write : Bool)
    → (permits p viewer write ≡ true) ↔ MayUse p viewer write
unfolding permits
permits_iff p viewer write = (sound, complete)
  where
    sound : permits p viewer write ≡ true → MayUse p viewer write
    sound h = elim (Bool-cases (p.community_count == 0)) [
      | inl none' ↦ ordinary (ground arith) (ground arith)
      | inr some' ↦ elim (Bool-cases p.community_member) [
        | inl member ↦ as_member (ground arith) (ground arith) (ground arith) member
        | inr stranger ↦
            as_reader (ground arith) (ground arith) (ground arith) (ground arith) (ground arith)
      ]
    ]

    complete : MayUse p viewer write → permits p viewer write ≡ true
    complete (ordinary a b) = ground arith
    complete (as_member a b c d) = ground arith
    complete (as_reader a b c d e) = ground arith

-- A frame that names a community leaves the stream exactly when it names a post that is found, the post
-- has exactly one community, that one is active, and the viewer, who is known, is still a member of it.
-- It is not compared with the community that the frame names.
pub community_frame_allowed_iff :
    (decode : Text → Option Scoped) (find : Text → Fetched PostAccess) (payload viewer : Text)
    (r : Scoped)
    → decode payload ≡ some r
    → is_empty r.community_id ≡ false
    → (community_frame_allowed decode find payload viewer ≡ true) ↔ (
        (is_empty r.post_id ≡ false)
        × ((p : PostAccess) × (find r.post_id ≡ found p)
            × (p.community_count ≡ 1)
            × (p.community_active ≡ true)
            × (p.community_member ≡ true)
            × (is_empty viewer ≡ false)))
unfolding community_frame_allowed permits
community_frame_allowed_iff decode find payload viewer r decoded scoped = (
  λ h. elim (query_cases (find r.post_id)) [
    | inl (p, held) ↦
        (ground arith, (p, held, ground arith, ground arith, ground arith, ground arith))
    | inr (inl none') ↦ ground arith
    | inr (inr failed) ↦ ground arith
  ],
  λ (named, (p, held, one, active, member, known)). ground arith,
)
