-- ===== src/Platform/PostTests.antt =====
-- Witnesses of internal/platform's theorems on posts, comments, notifications and moderation.
use chatterloop_developer_se.Common.{
  Bool-cases, text_eq_iff, sym, ap, ◌∙◌, ℕ, true, false, some, List, [], ◌∷◌, Text, codes, text_eq,
  ◌≡◌, refl, ◌↔◌, if◌then◌else◌, Fetched, found, missing, broken, arith, is_empty, inl, inr,
}
use mathlib.Core.List.{Memᴰ}
use chatterloop_developer_se.Platform.Community.{
  AccessRow, PostAccess, permits, Scoped, community_frame_allowed, load_post_access,
}
use chatterloop_developer_se.Platform.Community.Permits.{
  MayUse, permits_iff, community_frame_allowed_iff,
}
use chatterloop_developer_se.Platform.Notifications.{
  Notification, Backend, Delivered, write_notification, resolve_scope, community_notification,
}
use chatterloop_developer_se.Platform.Notifications.Delivery.{
  MayHear, write_notification-MayHear, write_notification-anonymous, reworded,
}
use chatterloop_developer_se.Platform.Comments as Comments
use chatterloop_developer_se.Platform.Comments.{
  CommentRow, CommentRequest, PostRow, ParentComment, create_comment, pinged, Recipients,
}
use chatterloop_developer_se.Platform.Comments.Permitted.{Accepted, create_comment-Accepted}
use chatterloop_developer_se.Platform.Comments.Flattening.{
  TwoLevels, ReadsTable, table_after, create_comment-TwoLevels,
}

abbrev public_community : AccessRow
public_community = record {
  entity_id = codes "author";
  readable = false;
  total = 1;
  active = true;
  private = false;
  member = true;
  scope_realm_id = codes "r1";
  scope_entity_id = codes "community";
}

abbrev scoped_access : PostAccess
scoped_access = record {
  author_entity_id = codes "author";
  ordinary_readable = false;
  community_count = 1;
  community_active = true;
  community_private = false;
  community_member = true;
  community =
      some (record { realm_id = codes "r1"; entity_id = codes "community"; is_private = false });
}

permits_iff_example :
    (permits scoped_access (codes "e1") true ≡ true) ↔ MayUse scoped_access (codes "e1") true
permits_iff_example = permits_iff scoped_access (codes "e1") true

abbrev a_frame : Scoped
a_frame = record { post_id = codes "p1"; community_id = codes "community" }

community_frame_allowed_iff_example :
    (community_frame_allowed
        (λ _. some a_frame)
        (λ _. found scoped_access)
        (codes "{}")
        (codes "e1")
      ≡ true)
    ↔ ((is_empty a_frame.post_id ≡ false)
        × ((p : PostAccess) × (found scoped_access ≡ found p)
            × (p.community_count ≡ 1)
            × (p.community_active ≡ true)
            × (p.community_member ≡ true)
            × (is_empty (codes "e1") ≡ false)))
community_frame_allowed_iff_example =
    community_frame_allowed_iff (λ _. some a_frame) (λ _. found scoped_access) (codes "{}")
      (codes "e1") a_frame refl refl

abbrev a_notification : Notification
a_notification = record {
  to_entity_id = codes "e1";
  from_entity_id = codes "e2";
  reference_id = codes "c9";
  kind = codes "post_comment";
  headline = codes "Post Comment";
  details = codes "@bo commented on your post.";
  target_type = codes "post";
  target_id = codes "p1";
  target_anchor = codes "c9";
  is_anonymous = false;
  community_entity_id = [];
}

abbrev backend : Backend
backend = record {
  access = λ _ _. found public_community;
  anonymous = λ _ _. found true;
  fresh_id = some (codes "NTF_1");
  date = codes "2026-01-01";
  inserts = λ _. true;
}

abbrev nothing_sent : Delivered
nothing_sent = record { documents = []; frames = [] }

write_notification-MayHear_example : MayHear backend a_notification
unfolding write_notification resolve_scope load_post_access permits community_notification text_eq
write_notification-MayHear_example =
    write_notification-MayHear backend a_notification nothing_sent refl refl

write_notification-anonymous_example :
    write_notification backend a_notification nothing_sent
    ≡ write_notification backend (reworded a_notification (codes "e3") (codes "hello")) nothing_sent
unfolding load_post_access
write_notification-anonymous_example =
    write_notification-anonymous backend a_notification nothing_sent (codes "e3") (codes "hello")
      scoped_access refl refl (λ e. absurd (omega arith)) refl

abbrev none_taken : Text → Fetched ℕ
none_taken _ = found 0

abbrev thirty_fours : Text
thirty_fours = codes "444444444444444444444444444444"

abbrev top_row : CommentRow
top_row = record {
  comment_id = codes "c1";
  parent_comment_id = [];
  post_id = codes "p1";
  text = codes "first";
  entity_id = codes "e2";
  is_deleted = false;
  is_anonymous = false;
}

abbrev reply_row : CommentRow
reply_row = record top_row { comment_id = codes "c2"; parent_comment_id = codes "c1" }

abbrev two_rows : List CommentRow
two_rows = reply_row ∷ top_row ∷ []

abbrev request : CommentRequest
request = record {
  post_id = codes "p1";
  parent_id = codes "c2";
  text = codes "hi";
  is_anonymous = false;
}

abbrev comment_backend : Comments.Backend
comment_backend = record {
  access = λ _ _. found public_community;
  comment = λ id. if text_eq id (codes "c2") then found reply_row else missing;
  fresh_id = some (codes "c3");
  inserts = λ _ _. found true;
}

abbrev recipients : Recipients
recipients = record {
  author_handle = codes "@e1";
  mentioned = found (codes "e2" ∷ codes "e1" ∷ codes "e3" ∷ codes "e3" ∷ []);
  quoted = λ t. t;
  runes = λ t. t;
  string = λ t. t;
  delivers = λ _. true;
}

abbrev a_post : PostRow
a_post = record {
  post_id = codes "p1";
  entity_id = codes "e4";
  community_count = 0;
  community_realm = [];
}

abbrev aimed_at : ParentComment
aimed_at = record {
  comment_id = codes "c1";
  entity_id = codes "e2";
  parent_comment_id = [];
  text = codes "first";
}

abbrev new_row : CommentRow
new_row = record reply_row { comment_id = codes "c3"; entity_id = codes "e1" }

two_rows-TwoLevels : TwoLevels two_rows
two_rows-TwoLevels r (Memᴰ.head e) =
    rw e (inr (top_row, Memᴰ.tail (Memᴰ.head refl), refl, refl, refl))
two_rows-TwoLevels r (Memᴰ.tail (Memᴰ.head e)) = rw e (inl refl)
two_rows-TwoLevels r (Memᴰ.tail (Memᴰ.tail m)) = elim m [ ]

found-injective : {r s : CommentRow} → found r ≡ found s → r ≡ s
found-injective {r} e = ap (λ o. elim o [ found x ↦ x | missing ↦ r | broken ↦ r ]) e

reads_two_rows : ReadsTable comment_backend.comment two_rows
reads_two_rows id r e = elim (Bool-cases (text_eq id (codes "c2"))) [
  | inl named ↦
      let same : r ≡ reply_row = sym (found-injective (rw named at e)) in
      (
        Memᴰ.head same,
        ap (λ (x : CommentRow). x.comment_id) same ∙ sym ((text_eq_iff id (codes "c2")).0 named),
      )
  | inr other ↦ cc (rw other at e)
]

create_comment-TwoLevels_example :
    TwoLevels (table_after (create_comment comment_backend (codes "e1") request) two_rows)
create_comment-TwoLevels_example =
    create_comment-TwoLevels comment_backend two_rows reads_two_rows two_rows-TwoLevels (codes "e1")
      request

create_comment-Accepted_example :
    Accepted comment_backend.access
      (codes "e1")
      request
      (create_comment comment_backend (codes "e1") request)
create_comment-Accepted_example = create_comment-Accepted comment_backend (codes "e1") request
