-- ===== src/Platform/Mentions/Positions.antt =====
-- All the mentions of a text: at which positions they stand, in which order they are reported.
use chatterloop_developer_se.Common.{
  ℕ, ◌≤◌, true, false, ◌&&◌, Option, none, some, List, [], ◌∷◌, ◌++◌, Text, text_eq, contains,
  contains-append, Distinct, length, ◌≡◌, refl, arith, inl, inr, take, Bool-cases, Option-cases,
  ◌↔◌, if◌then◌else◌, sym, ◌==◌, text_eq_iff, take-append_self, text_eq_refl, is_empty, ap, ◌∙◌,
}
use chatterloop_developer_se.Platform.Identity.{dedupe, dedupe_into}
use chatterloop_developer_se.Platform.Identity.Dedupe.{contains-dedupe, dedupe-Distinct}
use chatterloop_developer_se.Platform.Mentions.{
  may_open, handle_at, visit, scan_mentions, extract_mentions,
}
use chatterloop_developer_se.Platform.Mentions.Matching.{
  Matches, handle_at-Matches, handle_at-longest, handle_at-none,
}

-- The mention that the byte `c` opens, if any.
abbrev mention_here : Option ℕ → ℕ → Text → List Text
mention_here before c rest =
    if c == b'@' && may_open before
    then elim (handle_at rest) [ none ↦ [] | some handle ↦ handle ∷ [] ]
    else []

-- Every mention of a text in order, repeated as often as it stands there.
abbrev pub mentions_in : Option ℕ → Text → List Text
mentions_in before [] = []
mentions_in before (c ∷ rest) = mention_here before c rest ++ mentions_in (some c) rest

-- `handle` is mentioned at a position of the text: the `@` may open a mention there, and `handle`
-- is the longest match of the pattern behind it.
pub data Mentions (handle : Text) : Option ℕ → Text → Type 0 where
  here :
      {before : Option ℕ} {c : ℕ} {s rest : Text}
      → c ≡ b'@'
      → may_open before ≡ true
      → Matches s handle rest
      → ((other r : Text) → Matches s other r → length other ≤ length handle)
      → Mentions handle before (c ∷ s)
  later :
      {before : Option ℕ} {c : ℕ} {s : Text}
      → Mentions handle (some c) s
      → Mentions handle before (c ∷ s)

Matches-take : {s handle rest : Text} → Matches s handle rest → take (length handle) s ≡ handle
Matches-take {s} {handle} {rest} m = rw (m.spells) (take-append_self handle rest)

-- The longest match is the handle that the code finds.
handle_at_of_longest :
    (s handle rest : Text)
    → Matches s handle rest
    → ((other r : Text) → Matches s other r → length other ≤ length handle)
    → handle_at s ≡ some handle
handle_at_of_longest s handle rest m top = elim (Option-cases (handle_at s)) [
  | inl nothing ↦ absurd (handle_at-none s handle rest nothing m)
  | inr (h, e) ↦
      let mh = handle_at-Matches s h e in
      let size : length h ≡ length handle =
        omega (arith, top h _ mh, handle_at-longest s h handle rest e m) in
      rw e (ap some (sym (Matches-take mh) ∙ ap (λ n. take n s) size ∙ Matches-take m))
]

mentions_in_complete :
    {handle : Text} {before : Option ℕ} {s : Text}
    → Mentions handle before s
    → contains handle (mentions_in before s) ≡ true
unfolding contains
mentions_in_complete {handle} (here {s} {rest} e open' m top) =
    ground (arith, handle_at_of_longest s handle rest m top, text_eq_refl handle)
mentions_in_complete {handle} (later {before} {c} {s} m) = ground (
  arith,
  contains-append handle (mention_here before c s) (mentions_in (some c) s),
  mentions_in_complete m,
)

mentions_in_sound :
    (before : Option ℕ) (s : Text) (handle : Text)
    → contains handle (mentions_in before s) ≡ true
    → Mentions handle before s
unfolding contains
mentions_in_sound before [] handle h = cc
mentions_in_sound before (c ∷ s) handle h = elim (Bool-cases (c == b'@' && may_open before)) [
  | inr shut ↦ later (mentions_in_sound (some c) s handle (rw shut at h))
  | inl opened ↦ elim (Option-cases (handle_at s)) [
    | inl nothing ↦ later (mentions_in_sound (some c) s handle (ground arith))
    | inr (other, e) ↦ elim (Bool-cases (text_eq other handle)) [
      | inr differs ↦ later (mentions_in_sound (some c) s handle (ground arith))
      | inl same ↦
          let e' : handle_at s ≡ some handle = rw e (ap some ((text_eq_iff other handle).0 same)) in
          here (ground arith) (ground arith) (handle_at-Matches s handle e')
            (λ o r m. handle_at-longest s handle o r e' m)
    ]
  ]
]

handle_at-ne-nil : (s handle : Text) → handle_at s ≡ some handle → text_eq handle [] ≡ false
unfolding text_eq
handle_at-ne-nil s [] e = absurd (omega (arith, (handle_at-Matches s [] e).some_byte))
handle_at-ne-nil s (c ∷ handle) e = refl

Mentions-ne-nil :
    {handle : Text} {before : Option ℕ} {s : Text}
    → Mentions handle before s
    → is_empty handle ≡ false
Mentions-ne-nil {handle = []} (here e open' m top) = absurd (omega (arith, m.some_byte))
Mentions-ne-nil {handle = c ∷ handle} (here e open' m top) = refl
Mentions-ne-nil (later m) = Mentions-ne-nil m

scan_mentions-dedupe :
    (before : Option ℕ) (s : Text) (found : List Text)
    → scan_mentions before s found ≡ dedupe_into found (mentions_in before s)
unfolding scan_mentions dedupe_into visit
scan_mentions-dedupe before [] found = refl
scan_mentions-dedupe before (c ∷ s) found = elim (Bool-cases (c == b'@' && may_open before)) [
  | inr shut ↦ rw shut (scan_mentions-dedupe (some c) s found)
  | inl opened ↦ elim (Option-cases (handle_at s)) [
    | inl nothing ↦ rw (opened, nothing) (scan_mentions-dedupe (some c) s found)
    | inr (handle, e) ↦
        rw (opened, e) (rw (handle_at-ne-nil s handle e) (scan_mentions-dedupe (some c) s _))
  ]
]

-- The handles reported are all the mentions of the text, each once, in the order of their first
-- appearance.
pub extract_mentions-dedupe : (text : Text) → extract_mentions text ≡ dedupe (mentions_in none text)
unfolding extract_mentions dedupe
extract_mentions-dedupe text = scan_mentions-dedupe none text []

-- A handle is reported exactly when it is mentioned: an `@` at the start of the text or behind white
-- space is followed by it, it is one to thirty handle characters in front of the end or a
-- terminator, and no longer handle can be read there.
pub extract_mentions_iff :
    (text handle : Text)
    → (contains handle (extract_mentions text) ≡ true) ↔ Mentions handle none text
extract_mentions_iff text handle =
    let kept = contains-dedupe (mentions_in none text) handle in
    let same = extract_mentions-dedupe text in
    (
      λ h. mentions_in_sound none text handle (ground (arith, rw same at h)),
      λ m. rw (same, kept, Mentions-ne-nil m) (mentions_in_complete m),
    )

-- No handle is reported twice.
pub extract_mentions-Distinct : (text : Text) → Distinct (extract_mentions text)
extract_mentions-Distinct text = rw extract_mentions-dedupe (dedupe-Distinct _)
