-- ===== src/Config/Tests.antt =====
-- An environment with a secret and nothing else, and one with a huge timeout.
use stage_sync.Base.{
  ℕ, ◌*◌, String, false, none, some, ◌≡◌, refl, ◌==◌, string_eq, if◌then◌else◌, ◌⊎◌,
}
use stage_sync.Base.Int.{pos, wrap64}
use stage_sync.Runtime.{ok, Time}
use stage_sync.Auth.{Issuer, Validator}
use stage_sync.Auth.Tests.{clock}
use stage_sync.Config.{
  Config, Text, second, minute, seconds, validate, get_env, get_duration_env, get_int_env,
  get_float_env, read_config, load, build_auth,
}
use stage_sync.Config.Bounds.{IsValid, load_lem}

abbrev pub text : Text ℕ
text = record {
  atoi = λ s. none;
  parse_duration = λ s. none;
  parse_float = λ s. none;
  quoted = λ s. s;
  show_duration = λ d. "";
  show_int = λ n. "";
  show_float = λ f. "";
  is_negative = λ f. false;
  ten = 10;
}

abbrev getenv : String → String
getenv key = if key == "AUTH_SECRET" then "key" else ""

-- More seconds than 64 bits of nanoseconds hold come out as a fraction of a second.
wrapped_timeout : seconds (pos 18_446_744_074) ≡ pos 290_448_384
unfolding seconds wrap64
wrapped_timeout = refl

abbrev config : Config ℕ
config = record {
  listen = ":5050";
  log_level = "info";
  shutdown_timeout = pos (15 * second);
  request_timeout = pos (30 * second);
  mysql_dsn = "";
  redis_addr = "";
  auth_secret = "key";
  auth_token_ttl = pos (15 * minute);
  rate_limit_rps = 10;
  rate_limit_burst = pos 20;
  idempotency_ttl = pos (5 * minute);
  battle_impl = "naive";
}

is_loaded : load text getenv ≡ ok config
unfolding load validate read_config get_env get_duration_env get_int_env get_float_env string_eq
is_loaded = refl

load_lem_example :
    IsValid text config
    × (((config.auth_secret ≡ "") × (build_auth clock "key" (pos (15 * minute)) ≡ ok (none, none)))
        ⊎ ((i : Issuer Time) × (v : Validator Time) × (build_auth clock "key" (pos (15 * minute))
              ≡ ok (some i, some v))
            × (v.secret ≡ i.secret)
            × (v.issuer ≡ i.issuer)
            × (pos i.ttl ≡ pos (15 * minute))))
load_lem_example = load_lem text getenv clock config is_loaded
