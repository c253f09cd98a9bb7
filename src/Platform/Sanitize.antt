-- ===== src/Platform/Sanitize.antt =====
-- internal/platform/mentions_parse.go, SanitizeForStorage: the bytes of a tag are stripped.
pub mod Laws
use chatterloop_developer_se.Common.{
  ℕ, zero, suc, Bool, true, false, List, [], ◌∷◌, ◌++◌, Text, ◌==◌, if◌then◌else◌, ◌≡◌, refl, codes,
  reverse,
}

-- `body - (i + 1)`: the loop that advances `body` to the next `>` or the end.
unfoldable pub body_length : Text → ℕ
body_length [] = 0
body_length (c ∷ s) = if c == b'>' then 0 else suc (body_length s)

-- The loop over `i`. The number counts the bytes that `i = body` still passes over, the closing
-- bracket included.
unfoldable pub strip : ℕ → Text → Text
unfolding body_length
strip skipped [] = []
strip (suc skipped) (_ ∷ s) = strip skipped s
strip zero (c ∷ s) =
    let copied = strip zero s in
    let passed = strip (suc (body_length s)) s in
    if c == b'<' then if body_length s == 0 then b'<' ∷ copied else passed else c ∷ copied

unfoldable pub sanitize_for_storage : Text → Text
unfolding strip
sanitize_for_storage content = strip zero content

keeps_angles : sanitize_for_storage (codes "a<b>c</b> <> </> 1<") ≡ codes "ac <>  1<"
unfolding sanitize_for_storage
keeps_angles = refl

unterminated : sanitize_for_storage (codes "x <script") ≡ codes "x "
unfolding sanitize_for_storage
unterminated = refl
