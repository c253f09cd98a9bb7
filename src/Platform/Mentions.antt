-- ===== src/Platform/Mentions.antt =====
-- internal/platform/mentions_parse.go, ExtractMentions.
-- The loop over positions is a recursion on the text from the position on, with the byte before it;
-- `found` is the result so far, whose elements are the keys of the map `seen`.
pub mod Matching
pub mod Positions
use chatterloop_developer_se.Common.{
  ℕ, zero, suc, Bool, true, false, ◌&&◌, ◌||◌, not, Option, none, some, List, [], ◌∷◌, ◌++◌, Text,
  text_eq, contains, leb, ◌==◌, if◌then◌else◌, length, take, drop, ◌≡◌, refl, codes,
}

unfoldable pub is_mention_rune : ℕ → Bool
is_mention_rune r =
    if leb b'a' r && leb r b'z' || leb b'A' r && leb r b'Z' || leb b'0' r && leb r b'9'
    then true
    else if r == b'.' || r == b'_' || r == b'-'
    then true
    else false

unfoldable pub is_space_byte : ℕ → Bool
is_space_byte r = r == b' ' || r == 9 || r == 10 || r == 13 || r == 12 || r == 11

unfoldable pub is_mention_terminator : ℕ → Bool
is_mention_terminator r =
    r == b' '
    || r == 9
    || r == 10
    || r == 13
    || r == 12
    || r == 11
    || r == b'.'
    || r == b','
    || r == b'!'
    || r == b'?'
    || r == b';'
    || r == b':'

abbrev pub max_handle : ℕ
max_handle = 30

-- `end - start`: the loop that advances `end` over at most `room` handle characters.
unfoldable pub run_length : ℕ → Text → ℕ
run_length zero s = 0
run_length (suc room) [] = 0
run_length (suc room) (c ∷ s) = if is_mention_rune c then suc (run_length room s) else 0

-- `stop < len(text) && !isMentionTerminator(text[stop])`, negated, on the text from `stop` on.
unfoldable pub stops_at : Text → Bool
stops_at [] = true
stops_at (c ∷ _) = is_mention_terminator c

-- The loop over `stop`, on `stop - start`, in the text from `start` on.
unfoldable pub longest_handle : ℕ → Text → Option Text
longest_handle zero s = none
longest_handle (suc k) s =
    let shorter = longest_handle k s in
    if stops_at (drop (suc k) s) then some (take (suc k) s) else shorter

unfoldable pub handle_at : Text → Option Text
unfolding run_length longest_handle stops_at is_mention_rune is_mention_terminator
handle_at s = longest_handle (run_length max_handle s) s

-- The byte before the `@`: it starts the text or follows white space.
unfoldable pub may_open : Option ℕ → Bool
may_open none = true
may_open (some b) = is_space_byte b

abbrev append_new : List Text → Text → List Text
append_new found handle = if contains handle found then found else found ++ handle ∷ []

-- One round: the byte `c` with the text behind it.
unfoldable pub visit : Option ℕ → ℕ → Text → List Text → List Text
unfolding may_open is_space_byte contains text_eq
visit before c rest found =
    if c == b'@' && may_open before
    then elim (handle_at rest) [ none ↦ found | some handle ↦ append_new found handle ]
    else found

unfoldable pub scan_mentions : Option ℕ → Text → List Text → List Text
scan_mentions before [] found = found
scan_mentions before (c ∷ rest) found = scan_mentions (some c) rest (visit before c rest found)

unfoldable pub extract_mentions : Text → List Text
unfolding scan_mentions visit handle_at
extract_mentions text = scan_mentions none text []

-- The drift test's cases.
backtracks :
    extract_mentions (codes "hi @foo.bar< @ana. and @ana.!") ≡ codes "foo" ∷ codes "ana." ∷ []
unfolding extract_mentions
backtracks = refl

mid_word : extract_mentions (codes "mail me at a@b.com, @") ≡ []
unfolding extract_mentions
mid_word = refl
