-- ===== src/Platform/Sanitize/Laws.antt =====
-- What is stored holds no tag, and text without tags is stored as it is.
use chatterloop_developer_se.Common.{
  ℕ, zero, suc, true, [], ◌∷◌, ◌++◌, Text, ◌==◌, ◌≡◌, ◌≢◌, refl, arith, ◌⊎◌, inl, inr, length,
  Bool-cases, drop, take, sym, All, ap, ◌∙◌, ◌↔◌,
}
use native.Mathlib.Decide.{ℕ_discrete}
use chatterloop_developer_se.Platform.Sanitize.{body_length, strip, sanitize_for_storage}

-- `<\/?[^>]+(>|$)` matches at a `<` that has any byte but `>` behind it.
abbrev pub StartsTag : Text → Type 0
StartsTag [] = ⊥
StartsTag (c ∷ s) = c ≢ b'>'

-- No tag starts anywhere in the text.
abbrev pub NoTags : Text → Type 0
NoTags [] = Unit
NoTags (c ∷ s) = (c ≡ b'<' → ¬ StartsTag s) × NoTags s

-- Replacing every match of the pattern by nothing, from left to right.
pub data Stripped : Text → Text → Type 0 where
  done : Stripped [] []
  copied : {c : ℕ} {s out : Text} → c ≢ b'<' → Stripped s out → Stripped (c ∷ s) (c ∷ out)
  -- A `<` where no match starts.
  lone :
      {c : ℕ} {s out : Text}
      → c ≡ b'<'
      → ¬ StartsTag s
      → Stripped s out
      → Stripped (c ∷ s) (c ∷ out)
  -- `<`, at least one byte but `>`, and `>`.
  closed :
      {c : ℕ} {s rest out : Text} (body : Text)
      → c ≡ b'<'
      → body ≢ []
      → All (λ b. b ≢ b'>') body
      → s ≡ body ++ b'>' ∷ rest
      → Stripped rest out
      → Stripped (c ∷ s) out
  -- `<` and at least one byte but `>`, up to the end.
  unclosed : {c : ℕ} {s : Text} → c ≡ b'<' → s ≢ [] → All (λ b. b ≢ b'>') s → Stripped (c ∷ s) []

body_length-zero : (s : Text) → body_length s ≡ 0 → ¬ StartsTag s
unfolding body_length
body_length-zero [] h t = t
body_length-zero (c ∷ s) h t = ground arith

zero-body_length : (s : Text) → ¬ StartsTag s → body_length s ≡ 0
unfolding body_length
zero-body_length [] h = refl
zero-body_length (c ∷ s) h = elim (Bool-cases (c == b'>')) [
  | inl closing ↦ rw closing
  | inr other ↦ absurd (h (λ e. ground arith))
]

body_length-append :
    (body rest : Text) → All (λ b. b ≢ b'>') body → body_length (body ++ b'>' ∷ rest) ≡ length body
unfolding body_length
body_length-append [] rest h = refl
body_length-append (c ∷ body) rest (p, h) = ground (arith, body_length-append body rest h)

body_length-All : (s : Text) → All (λ b. b ≢ b'>') s → body_length s ≡ length s
unfolding body_length
body_length-All [] h = refl
body_length-All (c ∷ s) (p, h) = ground (arith, body_length-All s h)

strip-append :
    (body rest : Text) → strip (suc (length body)) (body ++ b'>' ∷ rest) ≡ strip zero rest
unfolding strip
strip-append [] rest = refl
strip-append (c ∷ body) rest = strip-append body rest

strip_past : (s : Text) → strip (suc (length s)) s ≡ []
unfolding strip
strip_past [] = refl
strip_past (c ∷ s) = strip_past s

-- The passed bytes end in front of a `>`, or they are the whole text.
body_length-cases :
    (s : Text)
    → (s ≡ take (body_length s) s ++ b'>' ∷ drop (suc (body_length s)) s)
      ⊎ ((s ≡ take (body_length s) s) × (drop (suc (body_length s)) s ≡ []))
unfolding body_length
body_length-cases [] = inr (refl, refl)
body_length-cases (c ∷ s) = ground (arith, body_length-cases s)

take-body_length : (s : Text) → All (λ b. b ≢ b'>') (take (body_length s) s)
unfolding body_length
take-body_length [] = tt
take-body_length (c ∷ s) = ground (arith, take-body_length s)

nonempty_take : (s : Text) → body_length s ≢ 0 → take (body_length s) s ≢ []
unfolding body_length
nonempty_take [] h e = h refl
nonempty_take (c ∷ s) h e = ground arith

open_tag :
    (c : ℕ) (s : Text)
    → c ≡ b'<'
    → body_length s ≢ 0
    → Stripped (drop (suc (body_length s)) s) (strip (suc (body_length s)) s)
    → Stripped (c ∷ s) (strip (suc (body_length s)) s)
open_tag c s e n ih = elim (body_length-cases s) [
  | inl split ↦ closed (take (body_length s) s) e (nonempty_take s n) (take-body_length s) split ih
  | inr (whole, past) ↦
      let all_body : All (λ b. b ≢ b'>') s = rw (← whole) at (take-body_length s) in
      let ends : strip (suc (body_length s)) s ≡ [] =
        rw (body_length-All s all_body) (strip_past s) in
      rw ends (unclosed e (λ z. n (ground (arith, zero-body_length s))) all_body)
]

strip-Stripped : (skipped : ℕ) (s : Text) → Stripped (drop skipped s) (strip skipped s)
unfolding strip
strip-Stripped zero [] = done
strip-Stripped (suc skipped) [] = done
strip-Stripped (suc skipped) (c ∷ s) = strip-Stripped skipped s
strip-Stripped zero (c ∷ s) = elim (Bool-cases (c == b'<')) [
  | inr plain ↦ rw plain (copied (ground arith) (strip-Stripped zero s))
  | inl angle ↦ elim (Bool-cases (body_length s == 0)) [
    | inl empty ↦
        rw (angle, empty)
          (rw (sym (c_is c angle))
            (lone (c_is c angle) (body_length-zero s (ground arith)) (strip-Stripped zero s)))
    | inr body ↦
        rw (angle, body)
          (open_tag c s (ground arith) (ground arith) (strip-Stripped (suc (body_length s)) s))
  ]
]
  where
    c_is : (c : ℕ) → (c == b'<') ≡ true → c ≡ b'<'
    c_is c h = ground arith

strip_skip : (skipped c : ℕ) (s : Text) → strip (suc skipped) (c ∷ s) ≡ strip skipped s
unfolding strip
strip_skip skipped c s = refl

strip_plain : (c : ℕ) (s : Text) → c ≢ b'<' → strip zero (c ∷ s) ≡ c ∷ strip zero s
unfolding strip
strip_plain c s h = ground arith

strip_lone :
    (c : ℕ) (s : Text) → c ≡ b'<' → body_length s ≡ 0 → strip zero (c ∷ s) ≡ c ∷ strip zero s
unfolding strip
strip_lone c s e h = ground arith

strip_tag :
    (c : ℕ) (s : Text)
    → c ≡ b'<'
    → body_length s ≢ 0
    → strip zero (c ∷ s) ≡ strip (suc (body_length s)) s
unfolding strip
strip_tag c s e h = ground arith

-- A `<` is a plain byte, opens no tag, or opens one.
angle-cases :
    (c : ℕ) (s : Text)
    → (c ≢ b'<') ⊎ ((c ≡ b'<') × (body_length s ≡ 0)) ⊎ ((c ≡ b'<') × (body_length s ≢ 0))
angle-cases c s = elim (ℕ_discrete c b'<') [
  | no other ↦ inl other
  | yes angle ↦ elim (ℕ_discrete (body_length s) 0) [
    | yes empty ↦ inr (inl (angle, empty))
    | no body ↦ inr (inr (angle, body))
  ]
]

length_pos : (body : Text) → body ≢ [] → length body ≢ 0
length_pos [] h e = h refl
length_pos (c ∷ body) h e = absurd (omega arith)

strip_complete : {s out : Text} → Stripped s out → strip zero s ≡ out
strip_complete done = unfold strip in refl
strip_complete (copied {c} {s} {out} p d) = strip_plain c s p ∙ ap (λ r. c ∷ r) (strip_complete d)
strip_complete (lone {c} {s} {out} e p d) =
    strip_lone c s e (zero-body_length s p) ∙ ap (λ r. c ∷ r) (strip_complete d)
strip_complete (closed {c} {s} {rest} {out} body e n p split d) =
    let size : body_length s ≡ length body = rw split (body_length-append body rest p) in
    strip_tag c s e (rw size (length_pos body n))
    ∙ rw size (rw split (strip-append body rest ∙ strip_complete d))
strip_complete (unclosed {c} {s} e n p) =
    let size : body_length s ≡ length s = body_length-All s p in
    strip_tag c s e (rw size (length_pos s n)) ∙ rw size (strip_past s)

StartsTag-strip : (s : Text) → ¬ StartsTag s → ¬ StartsTag (strip zero s)
StartsTag-strip [] h = unfold strip in (λ t. t)
StartsTag-strip (c ∷ s) h = elim (ℕ_discrete c b'>') [
  | yes e ↦ rw (strip_plain c s (omega arith)) (λ t. t e)
  | no other ↦ absurd (h other)
]

strip-NoTags : (skipped : ℕ) (s : Text) → NoTags (strip skipped s)
strip-NoTags zero [] = unfold strip in tt
strip-NoTags (suc skipped) [] = unfold strip in tt
strip-NoTags (suc skipped) (c ∷ s) = rw (strip_skip skipped c s) (strip-NoTags skipped s)
strip-NoTags zero (c ∷ s) = elim (angle-cases c s) [
  | inl plain ↦ rw (strip_plain c s plain) (λ e. absurd (plain e), strip-NoTags zero s)
  | inr (inl (e, empty)) ↦
      rw (strip_lone c s e empty)
        (λ _. StartsTag-strip s (body_length-zero s empty), strip-NoTags zero s)
  | inr (inr (e, body)) ↦ rw (strip_tag c s e body) (strip-NoTags (suc (body_length s)) s)
]

strip_of_NoTags : (s : Text) → NoTags s → strip zero s ≡ s
strip_of_NoTags [] h = unfold strip in refl
strip_of_NoTags (c ∷ s) (here, h) = elim (angle-cases c s) [
  | inl plain ↦ strip_plain c s plain ∙ ap (λ r. c ∷ r) (strip_of_NoTags s h)
  | inr (inl (e, empty)) ↦ strip_lone c s e empty ∙ ap (λ r. c ∷ r) (strip_of_NoTags s h)
  | inr (inr (e, body)) ↦ absurd (body (zero-body_length s (here e)))
]

-- What is stored is the content with every match of `<\/?[^>]+(>|$)` removed from left to right,
-- and nothing else.
pub sanitize_iff :
    (content out : Text) → (sanitize_for_storage content ≡ out) ↔ Stripped content out
unfolding sanitize_for_storage
sanitize_iff content out = (λ e. rw (← e) (strip-Stripped zero content), strip_complete)

-- No tag starts anywhere in what is stored.
pub sanitize-NoTags : (content : Text) → NoTags (sanitize_for_storage content)
unfolding sanitize_for_storage
sanitize-NoTags content = strip-NoTags zero content

-- Sanitizing what is already sanitized changes nothing.
pub sanitize_idempotent :
    (content : Text)
    → sanitize_for_storage (sanitize_for_storage content) ≡ sanitize_for_storage content
unfolding sanitize_for_storage
sanitize_idempotent content = strip_of_NoTags _ (strip-NoTags zero content)
