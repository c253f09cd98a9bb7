-- ===== src/Config/Tests.antt =====
-- Witnesses of internal/config's theorems.
use chatterloop_developer_se.Common.{
  ◌*◌, ◌≤◌, ◌<◌, false, Option, some, Text, codes, ℤ, pos, leb_ℤ, ◌≡◌, refl, arith,
}
use chatterloop_developer_se.Config.{env_duration}
use chatterloop_developer_se.Config.Durations.{env_duration-bounds}

abbrev environment : Text → Text
environment _ = codes "9223372037"

abbrev reads : Text → Option ℤ
reads _ = some (pos 9223372037)

env_duration-bounds_example :
    (9223372037 ≤ 9223372036
      → env_duration environment reads (codes "SSE_HEARTBEAT_SECONDS") (pos 20)
        ≡ pos (9223372037 * 1000000000))
    × (9223372036 < 9223372037
        → leb_ℤ 0 (env_duration environment reads (codes "SSE_HEARTBEAT_SECONDS") (pos 20)) ≡ false)
env_duration-bounds_example =
    env_duration-bounds environment reads (codes "SSE_HEARTBEAT_SECONDS") (pos 20) 9223372037 refl
      refl (omega arith) (omega arith)
