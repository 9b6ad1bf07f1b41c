-- ===== src/Config.antt =====
-- internal/config/config.go: the configuration from the environment; and what cmd/server/main.go builds
-- from it. `os.Getenv` is a function, which gives "" for a variable that is not set; `strconv`,
-- `time.ParseDuration`, `float64` and the `%v` of `fmt` are parameters.
use stage_sync.Base.{
  ℕ, suc, ◌*◌, ◌-◌, String, ◌<>◌, Bool, [], Option, none, some, ◌==◌, string_eq, if◌then◌else◌,
  ◌||◌, not,
}
use stage_sync.Base.Int.{ℤ, pos, negsuc, wrap64, ltb_ℤ, leb_ℤ}
use stage_sync.Runtime.{GoError, other, wrap, Result, ok, err, Time}
use stage_sync.Auth.{Issuer, Validator, new_issuer, new_validator}
pub mod Bounds
pub mod Tests

pub record Config (F : Type 0) : Type 0 where
  pub listen : String
  pub log_level : String
  pub shutdown_timeout : ℤ
  pub request_timeout : ℤ
  pub mysql_dsn : String
  pub redis_addr : String
  pub auth_secret : String
  pub auth_token_ttl : ℤ
  pub rate_limit_rps : F
  pub rate_limit_burst : ℤ
  pub idempotency_ttl : ℤ
  pub battle_impl : String

pub record Text (F : Type 0) : Type 0 where
  pub atoi : String → Option ℤ
  pub parse_duration : String → Option ℤ
  pub parse_float : String → Option F
  pub quoted : String → String
  pub show_duration : ℤ → String
  pub show_int : ℤ → String
  pub show_float : F → String
  pub is_negative : F → Bool
  pub ten : F

-- Seconds and minutes in nanoseconds.
abbrev pub second : ℕ
second = 1_000_000_000

abbrev pub minute : ℕ
minute = 60_000_000_000

-- `time.Duration(n) * time.Second`, in 64 bits
unfoldable pub seconds : ℤ → ℤ
seconds (pos n) = wrap64 (pos (n * second))
seconds (negsuc n) = wrap64 (negsuc (suc n * second - 1))

abbrev pub is_log_level : String → Bool
is_log_level s = (s == "debug") || (s == "info") || (s == "warn") || (s == "error")

module _ {F : Type 0} (text : Text F) where
  -- `validate`; the guards in order, each with its error.
  unfoldable pub validate : Config F → Option GoError
  validate c =
      if not (is_log_level c.log_level)
      then some (
          other
            ("invalid LOG_LEVEL " <> (text.quoted c.log_level <> " (want debug|info|warn|error)")))
      else if leb_ℤ c.shutdown_timeout (pos 0)
      then some
          (other ("SHUTDOWN_TIMEOUT must be > 0, got " <> text.show_duration c.shutdown_timeout))
      else if leb_ℤ c.request_timeout (pos 0)
      then some
          (other ("REQUEST_TIMEOUT must be > 0, got " <> text.show_duration c.request_timeout))
      else if leb_ℤ c.auth_token_ttl (pos 0)
      then some (other ("AUTH_TOKEN_TTL must be > 0, got " <> text.show_duration c.auth_token_ttl))
      else if text.is_negative c.rate_limit_rps
      then some (other ("RATE_LIMIT_RPS must be >= 0, got " <> text.show_float c.rate_limit_rps))
      else if leb_ℤ c.rate_limit_burst (pos 0)
      then some (other ("RATE_LIMIT_BURST must be > 0, got " <> text.show_int c.rate_limit_burst))
      else if leb_ℤ c.idempotency_ttl (pos 0)
      then some
          (other ("IDEMPOTENCY_TTL must be > 0, got " <> text.show_duration c.idempotency_ttl))
      else none

  module _ (getenv : String → String) where
    unfoldable pub get_env : String → String → String
    get_env key def = let v = getenv key in if v == "" then def else v

    -- Whole seconds, or a text with units.
    unfoldable pub get_duration_env : String → ℤ → ℤ
    unfolding seconds
    get_duration_env key def =
        let raw = getenv key in
        if raw == "" then def else elim (text.atoi raw) [
          | some n ↦ seconds n
          | none ↦ elim (text.parse_duration raw) [ some d ↦ d | none ↦ def ]
        ]

    unfoldable pub get_int_env : String → ℤ → ℤ
    get_int_env key def =
        let raw = getenv key in
        if raw == "" then def else elim (text.atoi raw) [ some n ↦ n | none ↦ def ]

    unfoldable pub get_float_env : String → F → F
    get_float_env key def =
        let raw = getenv key in
        if raw == "" then def else elim (text.parse_float raw) [ some f ↦ f | none ↦ def ]

    -- The configuration before it is validated.
    unfoldable pub read_config : Config F
    read_config = record {
      listen = get_env "LISTEN_ADDR" ":5050";
      log_level = get_env "LOG_LEVEL" "info";
      shutdown_timeout = get_duration_env "SHUTDOWN_TIMEOUT" (pos (15 * second));
      request_timeout = get_duration_env "REQUEST_TIMEOUT" (pos (30 * second));
      mysql_dsn = getenv "MYSQL_DSN";
      redis_addr = getenv "REDIS_ADDR";
      auth_secret = getenv "AUTH_SECRET";
      auth_token_ttl = get_duration_env "AUTH_TOKEN_TTL" (pos (15 * minute));
      rate_limit_rps = get_float_env "RATE_LIMIT_RPS" text.ten;
      rate_limit_burst = get_int_env "RATE_LIMIT_BURST" (pos 20);
      idempotency_ttl = get_duration_env "IDEMPOTENCY_TTL" (pos (5 * minute));
      battle_impl = get_env "BATTLE_IMPL" "naive";
    }

    -- `Load`
    unfoldable pub load : Result (Config F)
    load = elim (validate read_config) [ some e ↦ err e | none ↦ ok read_config ]

-- `buildAuth` of cmd/server/main.go; `now` is `time.Now`.
unfoldable pub build_auth :
    {W : Type 0} → (W → Time × W) → String → ℤ → Result (Option (Issuer W) × Option (Validator W))
build_auth now secret ttl =
    if secret == "" then ok (none, none) else elim (new_issuer now secret ttl []) [
      | err e ↦ err (wrap "new issuer" e)
      | ok issuer ↦ ok (some issuer, new_validator now secret [])
    ]
