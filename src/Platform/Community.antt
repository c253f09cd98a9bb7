-- ===== src/Platform/Community.antt =====
-- internal/platform/community.go: who may read and write a post, and which frames may still leave an
-- open stream. The SQL query and the JSON decoder are parameters.
pub mod Permits
use chatterloop_developer_se.Common.{
  ℕ, Bool, true, false, ◌&&◌, ◌||◌, not, Option, none, some, [], ◌∷◌, Text, ◌==◌, if◌then◌else◌,
  is_empty, Fetched, found, missing, broken,
}

pub record Community : Type 0 where
  pub realm_id : Text
  pub entity_id : Text
  pub is_private : Bool

pub record PostAccess : Type 0 where
  pub author_entity_id : Text
  pub ordinary_readable : Bool
  pub community_count : ℕ
  pub community_active : Bool
  pub community_private : Bool
  pub community_member : Bool
  pub community : Option Community

unfoldable pub permits : PostAccess → Text → Bool → Bool
permits p viewer write =
    if p.community_count == 0
    then p.ordinary_readable
    else not (is_empty viewer)
      && (p.community_count == 1
          && (p.community_active && ((not write && not p.community_private) || p.community_member)))

-- The row of the query of loadPostAccess.
pub record AccessRow : Type 0 where
  pub entity_id : Text
  pub readable : Bool
  pub total : ℕ
  pub active : Bool
  pub private : Bool
  pub member : Bool
  pub scope_realm_id : Text
  pub scope_entity_id : Text

abbrev pub access_of : AccessRow → PostAccess
access_of r = record {
  author_entity_id = r.entity_id;
  ordinary_readable = r.readable;
  community_count = r.total;
  community_active = r.active;
  community_private = r.private;
  community_member = r.member;
  community =
      if r.total == 0
      then none
      else some (record {
        realm_id = r.scope_realm_id;
        entity_id = r.scope_entity_id;
        is_private = r.private;
      });
}

-- `missing` is ErrPostNotFound.
unfoldable pub load_post_access :
    (Text → Text → Fetched AccessRow) → Text → Text → Fetched PostAccess
load_post_access query [] viewer = missing
load_post_access query (c ∷ post_id) viewer = elim (query (c ∷ post_id) viewer) [
  | found r ↦ found (access_of r)
  | missing ↦ missing
  | broken ↦ broken
]

-- `false` is ErrAnonymousOutsideCommunity.
unfoldable pub validate_comment_anonymity : Bool → ℕ → Bool
validate_comment_anonymity anonymous communities = not (anonymous && communities == 0)

-- The `result` of a frame's message.
pub record Scoped : Type 0 where
  pub post_id : Text
  pub community_id : Text

abbrev frame_access : Fetched PostAccess → Text → Bool
frame_access (found a) viewer =
    a.community_count == 1 && (a.community_member && permits a viewer false)
frame_access missing viewer = false
frame_access broken viewer = false

-- `decode` answers both Unmarshal calls on the payload, `none` where one of them fails.
unfoldable pub community_frame_allowed :
    (Text → Option Scoped) → (Text → Fetched PostAccess) → Text → Text → Bool
unfolding permits
community_frame_allowed decode find payload viewer = elim (decode payload) [
  | none ↦ true
  | some r ↦
      if is_empty r.community_id
      then true
      else if is_empty r.post_id
      then false
      else frame_access (find r.post_id) viewer
]
