-- ===== src/Auth/Window/Bounds.antt =====
-- The windows hold the present and cut time into disjoint pieces.
use chatterloop_developer_se.Common.{ℕ, suc, ◌+◌, ◌-◌, ◌*◌, ◌/◌, ◌<◌, ◌≤◌, ◌≡◌, arith, ap}
use chatterloop_developer_se.Auth.Window.{
  RateLimitPeriod, second, minute, hour, day, week, month, year, start_of_year, is_leap, year_of,
  days_before, month_of, bounds, first_of_month, day_ns, second_ns, truncate,
}
use chatterloop_developer_se.Auth.Window.Calendar.{
  year_of-start, year_of-end, start_of_year-suc, month_of-bounds, year_of_unique, month_of_unique,
  month_of-lt, days_before_mono,
}

abbrev pub Inside : ℕ → ℕ × ℕ → Type 0
Inside t w = (w.0 ≤ t) × (t < w.1)

Inside-days :
    (t from to : ℕ) → from ≤ t / day_ns → t / day_ns < to → Inside t (from * day_ns, to * day_ns)
Inside-days t from to lo hi = omega arith

days-Inside :
    (t from to : ℕ) → Inside t (from * day_ns, to * day_ns) → Inside (t / day_ns) (from, to)
days-Inside t from to h = omega arith

month-Inside :
    (d : ℕ)
    → Inside d (
      first_of_month (year_of d) (month_of (is_leap (year_of d)) (d - start_of_year (year_of d))),
      first_of_month
          (year_of d)
          (suc (month_of (is_leap (year_of d)) (d - start_of_year (year_of d)))),
    )
month-Inside d =
    let y = year_of d in
    omega (
      arith,
      year_of-start d,
      month_of-bounds (is_leap y) (d - start_of_year y)
          (omega (arith, year_of-start d, year_of-end d, start_of_year-suc y)),
    )

-- The window of a period holds the time that it was asked for.
pub bounds-Inside : (p : RateLimitPeriod) (now : ℕ) → Inside now (bounds p now)
unfolding bounds
bounds-Inside second now = omega arith
bounds-Inside minute now = omega arith
bounds-Inside hour now = omega arith
bounds-Inside day now = omega arith
bounds-Inside week now = omega arith
bounds-Inside month now = let (lo, hi) = month-Inside (now / day_ns) in Inside-days now _ _ lo hi
bounds-Inside year now =
    Inside-days now _ _ (year_of-start (now / day_ns)) (year_of-end (now / day_ns))

month-same :
    (d e : ℕ)
    → Inside d (
      first_of_month (year_of e) (month_of (is_leap (year_of e)) (e - start_of_year (year_of e))),
      first_of_month
          (year_of e)
          (suc (month_of (is_leap (year_of e)) (e - start_of_year (year_of e)))),
    )
    → (year_of d ≡ year_of e)
      × (month_of (is_leap (year_of e)) (d - start_of_year (year_of e))
          ≡ month_of (is_leap (year_of e)) (e - start_of_year (year_of e)))
month-same d e (lo, hi) =
    let y = year_of e in
    let leap = is_leap y in
    let m = month_of leap (e - start_of_year y) in
    let (from, to) =
      month_of-bounds leap (e - start_of_year y)
        (omega (arith, year_of-start e, year_of-end e, start_of_year-suc y)) in
    let inside : d - start_of_year y < days_before leap 12 =
      omega (arith, days_before_mono leap (suc m) 12 (month_of-lt leap (e - start_of_year y))) in
    (
      year_of_unique d y (omega arith) (omega (arith, start_of_year-suc y)),
      month_of_unique leap (d - start_of_year y) m inside (omega arith) (omega arith),
    )

-- Every time inside a window has that window: the windows of a period do not overlap, and all
-- requests in one of them are counted under one key.
pub bounds-same :
    (p : RateLimitPeriod) (now t : ℕ) → Inside t (bounds p now) → bounds p t ≡ bounds p now
unfolding bounds
bounds-same second now t (lo, hi) =
    let e : truncate t second_ns ≡ truncate now second_ns = omega arith in
    ap (λ s. (s, s + second_ns)) e
bounds-same minute now t (lo, hi) =
    let e : truncate t (60 * second_ns) ≡ truncate now (60 * second_ns) = omega arith in
    ap (λ s. (s, s + 60 * second_ns)) e
bounds-same hour now t (lo, hi) =
    let e : truncate t (3600 * second_ns) ≡ truncate now (3600 * second_ns) = omega arith in
    ap (λ s. (s, s + 3600 * second_ns)) e
bounds-same day now t (lo, hi) =
    let e : truncate t day_ns ≡ truncate now day_ns = omega arith in ap (λ s. (s, s + day_ns)) e
bounds-same week now t (lo, hi) =
    let e : truncate t (7 * day_ns) ≡ truncate now (7 * day_ns) = omega arith in
    ap (λ s. (s, s + 7 * day_ns)) e
bounds-same month now t h =
    let (y, m) = month-same (t / day_ns) (now / day_ns) (days-Inside t _ _ h) in rw (y, m)
bounds-same year now t h =
    let (lo, hi) = days-Inside t _ _ h in
    rw (year_of_unique (t / day_ns) (year_of (now / day_ns)) lo hi)
