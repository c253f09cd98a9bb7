-- ===== src/Config/Durations.antt =====
-- The durations of the configuration, and where they overflow.
use chatterloop_developer_se.Common.{
  ℕ, suc, zero, ◌*◌, ◌%◌, ◌≤◌, ◌<◌, false, Option, some, Text, ◌≡◌, ℤ, pos, is_empty, arith, leb_ℤ,
}
use chatterloop_developer_se.Config.{env_duration}

-- A number of seconds that the variable names is taken as it is up to 9223372036; from there on up to
-- 18446744073 the duration is negative, so that a ticker cannot be made of it.
pub env_duration-bounds :
    (getenv : Text → Text) (atoi : Text → Option ℤ) (key : Text) (fallback : ℤ) (seconds : ℕ)
    → is_empty (getenv key) ≡ false
    → atoi (getenv key) ≡ some (pos seconds)
    → 1 ≤ seconds
    → seconds ≤ 18446744073
    → (seconds ≤ 9223372036 → env_duration getenv atoi key fallback ≡ pos (seconds * 1000000000))
      × (9223372036 < seconds → leb_ℤ 0 (env_duration getenv atoi key fallback) ≡ false)
unfolding env_duration
env_duration-bounds getenv atoi key fallback zero set read some' fits = absurd (omega arith)
env_duration-bounds getenv atoi key fallback (suc n) set read some' fits = (
  λ small.
      let whole : (suc n * 1000000000) % 18446744073709551616 ≡ suc n * 1000000000 = omega arith in
      rw (set, read) (ground (arith, whole)),
  λ large.
      let whole : (suc n * 1000000000) % 18446744073709551616 ≡ suc n * 1000000000 = omega arith in
      rw (set, read) (ground (arith, whole)),
)
