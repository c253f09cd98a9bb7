-- ===== src/Auth/Window.antt =====
-- internal/auth/ratelimit.go: RateLimitPeriod and windowBounds. A time is the number of nanoseconds
-- since the first instant of year 1, UTC, which is the zero of Go's `time.Time` and the origin of
-- `Truncate`.
pub mod Calendar
pub mod Bounds
use chatterloop_developer_se.Common.{
  ℕ, zero, suc, ◌+◌, ◌-◌, ◌*◌, ◌/◌, ◌%◌, ◌<◌, Bool, true, false, ◌&&◌, ◌||◌, not, Option, none,
  some, Text, text_eq, leb, ltb, ◌==◌, if◌then◌else◌, ◌≡◌, refl, codes,
}

pub data RateLimitPeriod : Type 0 where
  second minute hour day week month year : RateLimitPeriod

-- The constants' texts. A text that is none of them is the `default` case.
abbrev pub period_text : RateLimitPeriod → Text
period_text second = codes "second"
period_text minute = codes "minute"
period_text hour = codes "hour"
period_text day = codes "day"
period_text week = codes "week"
period_text month = codes "month"
period_text year = codes "year"

unfoldable pub period_of : Text → Option RateLimitPeriod
period_of t =
    if text_eq t (codes "second")
    then some second
    else if text_eq t (codes "minute")
    then some minute
    else if text_eq t (codes "hour")
    then some hour
    else if text_eq t (codes "day")
    then some day
    else if text_eq t (codes "week")
    then some week
    else if text_eq t (codes "month")
    then some month
    else if text_eq t (codes "year")
    then some year
    else none

abbrev pub second_ns : ℕ
second_ns = 1_000_000_000

abbrev pub day_ns : ℕ
day_ns = 86400 * second_ns

-- `now.Truncate(d)`.
abbrev pub truncate : ℕ → ℕ → ℕ
truncate now d = now - now % d

-- The day on which a year begins, years counted from 0 for year 1.
abbrev pub start_of_year : ℕ → ℕ
start_of_year y = 365 * y + y / 4 - y / 100 + y / 400

abbrev pub is_leap : ℕ → Bool
is_leap y = (y + 1) % 4 == 0 && (not ((y + 1) % 100 == 0) || (y + 1) % 400 == 0)

-- The year of a day: by cycles of 400, 100, 4 years and one, the last century and the last year of
-- a cycle being a day longer.
abbrev at_most_3 : ℕ → ℕ
at_most_3 n = if ltb n 3 then n else 3

unfoldable pub year_of : ℕ → ℕ
year_of d =
    let r400 = d % 146097 in
    let n100 = at_most_3 (r400 / 36524) in
    let r100 = r400 - 36524 * n100 in
    let r4 = r100 % 1461 in
    400 * (d / 146097) + 100 * n100 + 4 * (r100 / 1461) + at_most_3 (r4 / 365)

-- The days of a year before a month, months counted from 0 for January.
abbrev pub days_before : Bool → ℕ → ℕ
days_before leap zero = 0
days_before leap (suc zero) = 31
days_before leap (suc (suc m)) =
    let common : ℕ =
      (if m == 0
        then 59
        else if m == 1
        then 90
        else if m == 2
        then 120
        else if m == 3
        then 151
        else if m == 4
        then 181
        else if m == 5
        then 212
        else if m == 6
        then 243
        else if m == 7
        then 273
        else if m == 8
        then 304
        else if m == 9
        then 334
        else 365) in
    if leap then common + 1 else common

-- The month of a day of the year.
unfoldable pub month_from : Bool → ℕ → ℕ → ℕ → ℕ
month_from leap zero m yday = m
month_from leap (suc rounds) m yday =
    let later = month_from leap rounds (suc m) yday in
    if ltb yday (days_before leap (suc m)) then m else later

abbrev pub month_of : Bool → ℕ → ℕ
month_of leap yday = month_from leap 11 0 yday

-- `time.Date(y, m, 1, …)`, with January of the next year for month 12.
abbrev pub first_of_month : ℕ → ℕ → ℕ
first_of_month y m = start_of_year y + days_before (is_leap y) m

-- `start` and `end`.
unfoldable pub bounds : RateLimitPeriod → ℕ → ℕ × ℕ
unfolding year_of month_from
bounds second now = (truncate now second_ns, truncate now second_ns + second_ns)
bounds minute now = (truncate now (60 * second_ns), truncate now (60 * second_ns) + 60 * second_ns)
bounds hour now =
    (truncate now (3600 * second_ns), truncate now (3600 * second_ns) + 3600 * second_ns)
bounds day now = (truncate now day_ns, truncate now day_ns + day_ns)
bounds week now = (truncate now (7 * day_ns), truncate now (7 * day_ns) + 7 * day_ns)
bounds month now =
    let y = year_of (now / day_ns) in
    let m = month_of (is_leap y) (now / day_ns - start_of_year y) in
    (first_of_month y m * day_ns, first_of_month y (suc m) * day_ns)
bounds year now =
    let y = year_of (now / day_ns) in (start_of_year y * day_ns, start_of_year (suc y) * day_ns)

-- `none` is the error for an unrecognized period.
unfoldable pub window_bounds : Text → ℕ → Option (ℕ × ℕ)
window_bounds period now = elim (period_of period) [ none ↦ none | some p ↦ some (bounds p now) ]

-- 2024-02-29T12:00:00Z: the day is 738944 days after the origin.
leap_february :
    bounds month (738944 * day_ns + 43200 * second_ns) ≡ (738916 * day_ns, 738945 * day_ns)
unfolding bounds
leap_february = refl

leap_year : bounds year (738944 * day_ns) ≡ (738885 * day_ns, 739251 * day_ns)
unfolding bounds
leap_year = refl
