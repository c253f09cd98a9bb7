-- ===== src/Auth/Window/Calendar.antt =====
-- The calendar arithmetic behind the month and year windows.
use chatterloop_developer_se.Common.{
  ℕ, zero, suc, ◌+◌, ◌-◌, ◌<◌, ◌≤◌, Bool, false, ltb, ◌≡◌, refl, arith, inl, inr, Bool-cases,
  ltb→lt,
}
use native.Mathlib.Decide.{dec_lt}
use native.Mathlib.Nat.{le_refl}
use chatterloop_developer_se.Auth.Window.{
  start_of_year, is_leap, year_of, days_before, month_from, month_of,
}

pub start_of_year_mono : (y z : ℕ) → y ≤ z → start_of_year y ≤ start_of_year z
start_of_year_mono y z h = omega arith

pub year_of-start : (d : ℕ) → start_of_year (year_of d) ≤ d
unfolding year_of
year_of-start d = ground arith

pub year_of-end : (d : ℕ) → d < start_of_year (suc (year_of d))
unfolding year_of
year_of-end d = ground arith

pub start_of_year-suc :
    (y : ℕ) → start_of_year (suc y) ≡ start_of_year y + days_before (is_leap y) 12
start_of_year-suc y = ground arith

days_before-le_suc : (leap : Bool) (m : ℕ) → days_before leap m ≤ days_before leap (suc m)
days_before-le_suc leap zero = ground arith
days_before-le_suc leap (suc zero) = ground arith
days_before-le_suc leap (suc (suc m)) = ground arith

days_before_add : (leap : Bool) (m k n : ℕ) → n ≡ m + k → days_before leap m ≤ days_before leap n
days_before_add leap m zero n e = rw (mend n m e) (le_refl _)
  where
    mend : (n m : ℕ) → n ≡ m + 0 → n ≡ m
    mend n m e = omega arith
days_before_add leap m (suc k) zero e = absurd (omega arith)
days_before_add leap m (suc k) (suc n) e =
    omega (arith, days_before_add leap m k n (omega arith), days_before-le_suc leap n)

pub days_before_mono : (leap : Bool) (m n : ℕ) → m ≤ n → days_before leap m ≤ days_before leap n
days_before_mono leap m n h = days_before_add leap m (n - m) n (omega arith)

month_from-bounds :
    (leap : Bool) (rounds m last yday : ℕ)
    → suc m + rounds ≡ last
    → days_before leap m ≤ yday
    → yday < days_before leap last
    → (days_before leap (month_from leap rounds m yday) ≤ yday)
      × (yday < days_before leap (suc (month_from leap rounds m yday)))
unfolding month_from
month_from-bounds leap zero m last yday e lo hi =
    let same : last ≡ suc m = omega arith in (lo, rw same at hi)
month_from-bounds leap (suc rounds) m last yday e lo hi =
    elim (Bool-cases (ltb yday (days_before leap (suc m)))) [
      | inl here ↦ rw here (lo, ltb→lt yday _ here)
      | inr later ↦
          rw later
            (month_from-bounds leap rounds (suc m) last yday (omega arith) (not_lt yday _ later) hi)
    ]
  where
    not_lt : (a b : ℕ) → ltb a b ≡ false → b ≤ a
    not_lt a b h = ground arith

-- A day of the year lies in its month.
pub month_of-bounds :
    (leap : Bool) (yday : ℕ)
    → yday < days_before leap 12
    → (days_before leap (month_of leap yday) ≤ yday)
      × (yday < days_before leap (suc (month_of leap yday)))
month_of-bounds leap yday h = month_from-bounds leap 11 0 12 yday refl (omega arith) h

-- The year of a day is the only one that holds it.
pub year_of_unique : (d y : ℕ) → start_of_year y ≤ d → d < start_of_year (suc y) → year_of d ≡ y
year_of_unique d y lo hi = elim (dec_lt y (year_of d)) [
  | yes above ↦
      absurd (omega (arith, start_of_year_mono (suc y) (year_of d) above, year_of-start d))
  | no under ↦ elim (dec_lt (year_of d) y) [
    | yes below ↦
        absurd (omega (arith, start_of_year_mono (suc (year_of d)) y below, year_of-end d))
    | no over ↦ omega arith
  ]
]

-- So is the month of a day of the year.
pub month_of_unique :
    (leap : Bool) (yday m : ℕ)
    → yday < days_before leap 12
    → days_before leap m ≤ yday
    → yday < days_before leap (suc m)
    → month_of leap yday ≡ m
month_of_unique leap yday m inside lo hi =
    let (from, to) = month_of-bounds leap yday inside in
    elim (dec_lt m (month_of leap yday)) [
      | yes above ↦ absurd (omega (arith, days_before_mono leap (suc m) (month_of leap yday) above))
      | no under ↦ elim (dec_lt (month_of leap yday) m) [
        | yes below ↦
            absurd (omega (arith, days_before_mono leap (suc (month_of leap yday)) m below))
        | no over ↦ omega arith
      ]
    ]

month_from-lt :
    (leap : Bool) (rounds m last yday : ℕ)
    → suc m + rounds ≡ last
    → month_from leap rounds m yday < last
unfolding month_from
month_from-lt leap zero m last yday e = omega arith
month_from-lt leap (suc rounds) m last yday e =
    ground (arith, month_from-lt leap rounds (suc m) last yday)

pub month_of-lt : (leap : Bool) (yday : ℕ) → month_of leap yday < 12
month_of-lt leap yday = month_from-lt leap 11 0 12 yday refl
