-- ===== src/Platform/Comments/Permitted.antt =====
-- Which comments are created.
use chatterloop_developer_se.Common.{
  ◌==◌, true, false, none, some, Option, Text, ◌≡◌, refl, arith, inl, inr, Bool-cases, Fetched,
  found, missing, broken, query_cases, is_empty, trim_space, Option-cases,
}
use chatterloop_developer_se.Platform.Sanitize.{sanitize_for_storage}
use chatterloop_developer_se.Platform.Community.{
  PostAccess, AccessRow, permits, load_post_access, validate_comment_anonymity,
}
use chatterloop_developer_se.Platform.Comments.{
  Backend, CommentRequest, CommentRow, PostRow, ParentComment, Outcome, created, refused,
  create_comment, load_parent_comment, load_post_for_viewer, on_loaded_post, under_parent,
  with_parent, insert_row,
}

-- A comment whose author may write to its post, with the sanitized text of the request, which is not
-- empty, and anonymous only in a community.
pub record Permitted (query : Text → Text → Fetched AccessRow) (author : Text)
    (req : CommentRequest) (c : CommentRow) : Type 0 where
  pub access : PostAccess
  pub loaded : load_post_access query req.post_id author ≡ found access
  pub may_write : permits access author true ≡ true
  pub by : c.entity_id ≡ author
  pub on : c.post_id ≡ req.post_id
  pub spells : c.text ≡ sanitize_for_storage (trim_space req.text)
  pub not_empty : is_empty c.text ≡ false
  pub hides : c.is_anonymous ≡ req.is_anonymous
  pub in_community : c.is_anonymous ≡ true → (access.community_count == 0) ≡ false

-- What an outcome promises.
abbrev pub Accepted : (Text → Text → Fetched AccessRow) → Text → CommentRequest → Outcome → Type 0
Accepted query author req (refused e) = Unit
Accepted query author req (created c post replied_to) = Permitted query author req c

module _ (b : Backend) (author : Text) (req : CommentRequest) where
  abbrev content : Text
  content = sanitize_for_storage (trim_space req.text)

  insert_row-Accepted :
      (post : PostRow) (replied_to : Option ParentComment) (c : CommentRow)
      → Permitted b.access author req c
      → Accepted b.access author req (insert_row b post replied_to c)
  insert_row-Accepted post replied_to c p = elim (query_cases (b.inserts c post.community_realm)) [
    | inl (true, held) ↦ rw (insert_row, held) p
    | inl (false, held) ↦ rw (insert_row, held) tt
    | inr (inl none') ↦ rw (insert_row, none') tt
    | inr (inr failed) ↦ rw (insert_row, failed) tt
  ]

  module _ (access : PostAccess)
      (loaded : load_post_access b.access req.post_id author ≡ found access)
      (may_write : permits access author true ≡ true) (said : is_empty content ≡ false)
      (allowed : validate_comment_anonymity req.is_anonymous access.community_count ≡ true) where
    under_parent-Accepted :
        (post : PostRow) (replied_to : Option ParentComment)
        → Accepted b.access author req (under_parent b author req content post replied_to)
    under_parent-Accepted post replied_to = elim (Option-cases b.fresh_id) [
      | inl failed ↦ rw (under_parent, failed) tt
      | inr (id, fresh) ↦
          rw (under_parent, fresh)
            (insert_row-Accepted post replied_to _ (record {
              access = access;
              loaded = loaded;
              may_write = may_write;
              by = refl;
              on = refl;
              spells = refl;
              not_empty = said;
              hides = refl;
              in_community = λ hidden. unfold validate_comment_anonymity in ground (arith, allowed);
            }))
    ]

    with_parent-Accepted :
        (post : PostRow) (q : Fetched ParentComment)
        → Accepted b.access author req (with_parent b author req content post q)
    with_parent-Accepted post (found p) = under_parent-Accepted post (some p)
    with_parent-Accepted post missing = tt
    with_parent-Accepted post broken = tt

  loaded-Accepted :
      (access : PostAccess)
      → load_post_access b.access req.post_id author ≡ found access
      → permits access author true ≡ true
      → is_empty content ≡ false
      → (post : PostRow) → post.community_count ≡ access.community_count
      → Accepted b.access author req (on_loaded_post b author req content (found post))
  loaded-Accepted access loaded may said post same =
      elim (Bool-cases (validate_comment_anonymity req.is_anonymous post.community_count)) [
        | inr outside ↦ rw (on_loaded_post, outside) tt
        | inl allowed ↦
            let allowed' = rw same at allowed in
            elim (Bool-cases (is_empty req.parent_id)) [
              | inl top ↦
                  rw (on_loaded_post, allowed, top)
                    (under_parent-Accepted access loaded may said allowed' post none)
              | inr reply ↦
                  rw (on_loaded_post, allowed, reply)
                    (with_parent-Accepted access loaded may said allowed' post
                      (load_parent_comment b.comment req.parent_id req.post_id))
            ]
      ]

  on_loaded_post-Accepted :
      is_empty content ≡ false
      → Accepted b.access author req
          (on_loaded_post b author req content (load_post_for_viewer b.access req.post_id author))
  unfolding load_post_for_viewer
  on_loaded_post-Accepted said = elim (query_cases (load_post_access b.access req.post_id author)) [
    | inr (inl none') ↦ rw (load_post_for_viewer, none') tt
    | inr (inr failed) ↦ rw (load_post_for_viewer, failed) tt
    | inl (access, loaded) ↦ elim (Bool-cases (permits access author true)) [
      | inr no' ↦ rw (load_post_for_viewer, loaded, no') tt
      | inl may ↦
          rw (load_post_for_viewer, loaded, may) (loaded-Accepted access loaded may said _ refl)
    ]
  ]

-- A comment is created only on a post that its author may write to, by the author of the call, with the
-- sanitized text of the request, which is not empty; an anonymous one only in a community.
pub create_comment-Accepted :
    (b : Backend) (author : Text) (req : CommentRequest)
    → Accepted b.access author req (create_comment b author req)
unfolding create_comment
create_comment-Accepted b author req =
    elim (Bool-cases (is_empty (sanitize_for_storage (trim_space req.text)))) [
      | inl blank ↦ rw (create_comment, blank) tt
      | inr said ↦ rw (create_comment, said) (on_loaded_post-Accepted b author req said)
    ]
