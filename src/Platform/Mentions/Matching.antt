-- ===== src/Platform/Mentions/Matching.antt =====
-- What one match of the mention pattern is: the greedy, backtracking reading of
-- `([A-Za-z0-9._-]{1,30})(?=$|\s|[.,!?;:])` from the byte behind the `@`.
use chatterloop_developer_se.Common.{
  ◌⊎◌, ℕ, zero, suc, ◌≤◌, true, false, none, some, [], ◌∷◌, ◌++◌, Text, length, take, drop, all,
  ◌≡◌, refl, arith, inl, inr, Bool-cases, take-append-drop, sym, drop-append_self,
}
use native.Mathlib.Decide.{dec_le}
use chatterloop_developer_se.Platform.Mentions.{
  is_mention_rune, stops_at, run_length, longest_handle, handle_at, max_handle,
}

-- `handle` can be matched in front of `rest`, in a text that continues with `handle ++ rest`.
pub record Matches (s handle rest : Text) : Type 0 where
  pub spells : s ≡ handle ++ rest
  pub some_byte : 1 ≤ length handle
  pub fits : length handle ≤ max_handle
  pub runes : all is_mention_rune handle ≡ true
  pub followed : stops_at rest ≡ true

take_run : (room k : ℕ) (s : Text) → k ≤ run_length room s → all is_mention_rune (take k s) ≡ true
unfolding run_length
take_run room zero s h = refl
take_run zero (suc k) s h = absurd (omega arith)
take_run (suc room) (suc k) [] h = refl
take_run (suc room) (suc k) (c ∷ s) h = ground (arith, take_run room k s)

length-take_run : (room k : ℕ) (s : Text) → k ≤ run_length room s → length (take k s) ≡ k
unfolding run_length
length-take_run room zero s h = refl
length-take_run zero (suc k) s h = absurd (omega arith)
length-take_run (suc room) (suc k) [] h = absurd (omega arith)
length-take_run (suc room) (suc k) (c ∷ s) h = ground (arith, length-take_run room k s)

run_length_le : (room : ℕ) (s : Text) → run_length room s ≤ room
unfolding run_length
run_length_le zero s = omega arith
run_length_le (suc room) [] = omega arith
run_length_le (suc room) (c ∷ s) = ground (arith, run_length_le room s)

-- The run reaches over every handle that can be matched.
le-run_length :
    (room : ℕ) (handle rest : Text)
    → length handle ≤ room
    → all is_mention_rune handle ≡ true
    → length handle ≤ run_length room (handle ++ rest)
unfolding run_length
le-run_length room [] rest h r = omega arith
le-run_length zero (c ∷ handle) rest h r = absurd (omega arith)
le-run_length (suc room) (c ∷ handle) rest h r = ground (arith, le-run_length room handle rest)

longest_handle-Matches :
    (k : ℕ) (s handle : Text)
    → k ≤ run_length max_handle s
    → longest_handle k s ≡ some handle
    → Matches s handle (drop (length handle) s)
unfolding longest_handle
longest_handle-Matches zero s handle h e = cc
longest_handle-Matches (suc k) s handle h e = elim (Bool-cases (stops_at (drop (suc k) s))) [
  | inr more ↦ longest_handle-Matches k s handle (omega arith) (rw more at e)
  | inl stop ↦
      let here : take (suc k) s ≡ handle = ground arith in
      let size : length handle ≡ suc k = rw (← here) (length-take_run max_handle (suc k) s h) in
      record {
        spells = rw (size, ← here) (sym (take-append-drop (suc k) s));
        some_byte = omega arith;
        fits = omega (arith, run_length_le max_handle s);
        runes = rw (← here) (take_run max_handle (suc k) s h);
        followed = rw size stop;
      }
]

le_suc-cases : (n k : ℕ) → n ≤ suc k → (n ≤ k) ⊎ (n ≡ suc k)
le_suc-cases n k h = elim (dec_le n k) [ yes p ↦ inl p | no p ↦ inr (omega arith) ]

longest_handle-none :
    (k n : ℕ) (s : Text) → longest_handle k s ≡ none → 1 ≤ n → n ≤ k → stops_at (drop n s) ≡ false
unfolding longest_handle
longest_handle-none zero n s e p q = absurd (omega arith)
longest_handle-none (suc k) n s e p q = elim (Bool-cases (stops_at (drop (suc k) s))) [
  | inl stop ↦ cc (rw stop at e)
  | inr more ↦ elim (le_suc-cases n k q) [
    | inl below ↦ longest_handle-none k n s (rw more at e) p below
    | inr top ↦ rw top more
  ]
]

longest_handle-longest :
    (k n : ℕ) (s handle : Text)
    → longest_handle k s ≡ some handle
    → k ≤ run_length max_handle s
    → n ≤ k
    → stops_at (drop n s) ≡ true
    → n ≤ length handle
unfolding longest_handle
longest_handle-longest zero n s handle e b q t = cc
longest_handle-longest (suc k) n s handle e b q t = elim (Bool-cases (stops_at (drop (suc k) s))) [
  | inl stop ↦
      let here : take (suc k) s ≡ handle = ground arith in
      rw (← here) (omega (arith, length-take_run max_handle (suc k) s b))
  | inr more ↦ elim (le_suc-cases n k q) [
    | inl below ↦ longest_handle-longest k n s handle (rw more at e) (omega arith) below t
    | inr top ↦ cc (rw top at t)
  ]
]

Matches-le_run :
    {s handle rest : Text} → Matches s handle rest → length handle ≤ run_length max_handle s
Matches-le_run {s} {handle} {rest} m =
    rw (m.spells) (le-run_length max_handle handle rest m.fits m.runes)

Matches-stops :
    {s handle rest : Text} → Matches s handle rest → stops_at (drop (length handle) s) ≡ true
Matches-stops {s} {handle} {rest} m = rw (m.spells, drop-append_self handle rest) m.followed

-- A handle that is found is matched by the pattern, in front of the text behind it.
pub handle_at-Matches :
    (s handle : Text) → handle_at s ≡ some handle → Matches s handle (drop (length handle) s)
unfolding handle_at
handle_at-Matches s handle e = longest_handle-Matches _ s handle (omega arith) e

-- It is the longest one.
pub handle_at-longest :
    (s handle other rest : Text)
    → handle_at s ≡ some handle
    → Matches s other rest
    → length other ≤ length handle
unfolding handle_at
handle_at-longest s handle other rest e m =
    longest_handle-longest _ (length other) s handle e (omega arith) (Matches-le_run m)
      (Matches-stops m)

-- Where no handle is found the pattern matches nothing.
pub handle_at-none : (s other rest : Text) → handle_at s ≡ none → ¬ Matches s other rest
unfolding handle_at
handle_at-none s other rest e m =
    cc (Matches-stops m, longest_handle-none _ (length other) s e m.some_byte (Matches-le_run m))
