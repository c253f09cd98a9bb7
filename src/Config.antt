-- ===== src/Config.antt =====
-- internal/config/config.go. `getenv` is os.Getenv and `atoi` strconv.Atoi; durations are nanoseconds in
-- an int64.
pub mod Durations
mod Tests
use chatterloop_developer_se.Common.{
  ℕ, zero, suc, ◌*◌, ◌%◌, ◌-◌, Bool, true, false, Option, none, some, List, [], ◌∷◌, ◌++◌, Text,
  if◌then◌else◌, codes, ℤ, pos, negsuc, leb_ℤ, ltb, not, is_empty, trim_right,
}

unfoldable pub env : (Text → Text) → Text → Text → Text
env getenv key fallback = if not (is_empty (getenv key)) then getenv key else fallback

-- The two's complement reading of a product of int64 values that are not negative.
abbrev pub int64 : ℕ → ℤ
int64 n =
    let r = n % 18446744073709551616 in
    if ltb r 9223372036854775808 then pos r else negsuc (18446744073709551615 - r)

abbrev pub second : ℕ
second = 1000000000

abbrev pub seconds_or : ℤ → Option ℤ → ℤ
seconds_or fallback none = fallback
seconds_or fallback (some (negsuc n)) = fallback
seconds_or fallback (some (pos zero)) = fallback
seconds_or fallback (some (pos (suc n))) = int64 (suc n * second)

unfoldable pub env_duration : (Text → Text) → (Text → Option ℤ) → Text → ℤ → ℤ
env_duration getenv atoi key fallback =
    if is_empty (getenv key) then fallback else seconds_or fallback (atoi (getenv key))

unfoldable pub rabbit_url : (Text → Text) → Text
unfolding env
rabbit_url getenv =
    let url = getenv (codes "RABBITMQ_URL") in
    let host = getenv (codes "RABBITMQ_HOST") in
    if not (is_empty url)
    then url
    else if is_empty host
    then []
    else env getenv (codes "RABBITMQ_PROTOCOL") (codes "amqp")
      ++ (codes "://"
          ++ (getenv (codes "RABBITMQ_USER")
              ++ (codes ":"
                  ++ (getenv (codes "RABBITMQ_PASS")
                      ++ (codes "@"
                          ++ (host
                              ++ (codes ":"
                                  ++ (env getenv (codes "RABBITMQ_PORT") (codes "5672")
                                      ++ (codes "/" ++ getenv (codes "RABBITMQ_VHOST"))))))))))

pub record Config : Type 0 where
  pub port : Text
  pub pod_name : Text
  pub app_version : Text
  pub rabbitmq_url : Text
  pub postgres_dsn : Text
  pub redis_addr : Text
  pub redis_username : Text
  pub redis_password : Text
  pub heartbeat : ℤ
  pub max_stream_lifetime : ℤ
  pub jwt_secret : Text
  pub web_client_base_url : Text

-- The address of Postgres, `none` where neither variable is set.
unfoldable pub postgres_dsn_of : (Text → Text) → Option Text
unfolding env
postgres_dsn_of getenv =
    let dsn = getenv (codes "DATABASE_URL") in
    let host = getenv (codes "DB_HOST") in
    if not (is_empty dsn)
    then some dsn
    else if is_empty host
    then none
    else some (
        codes "postgres://"
        ++ (getenv (codes "DB_USERNAME")
            ++ (codes ":"
                ++ (getenv (codes "DB_PASSWORD")
                    ++ (codes "@"
                        ++ (host
                            ++ (codes ":"
                                ++ (env getenv (codes "DB_PORT") (codes "5432")
                                    ++ (codes "/" ++ getenv (codes "DB_NAME"))))))))))

unfoldable pub load : (Text → Text) → (Text → Option ℤ) → Option Config
unfolding env env_duration rabbit_url postgres_dsn_of
load getenv atoi = elim (postgres_dsn_of getenv) [
  | none ↦ none
  | some dsn ↦ some (record {
    port = env getenv (codes "PORT") (codes "8890");
    pod_name = env getenv (codes "POD_NAME") (env getenv (codes "HOSTNAME") (codes "podless"));
    app_version = env getenv (codes "APP_VERSION") (codes "dev");
    rabbitmq_url = rabbit_url getenv;
    postgres_dsn = dsn;
    redis_addr =
        env getenv (codes "REDIS_HOST") (codes "localhost")
        ++ (codes ":" ++ env getenv (codes "REDIS_PORT") (codes "6379"));
    redis_username = getenv (codes "REDIS_USERNAME");
    redis_password = getenv (codes "REDIS_PASSWORD");
    heartbeat = env_duration getenv atoi (codes "SSE_HEARTBEAT_SECONDS") (pos (20 * second));
    max_stream_lifetime =
        env_duration getenv atoi (codes "SSE_MAX_LIFETIME_SECONDS") (pos (3600 * second));
    jwt_secret = getenv (codes "JWT_SECRET");
    web_client_base_url =
        trim_right (env getenv (codes "WEB_CLIENT_BASE_URL") (codes "https://chatterloop.app"))
          b'/';
  })
]
