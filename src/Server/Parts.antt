-- ===== src/Server/Parts.antt =====
-- cmd/server/main.go: which implementations the server is put together from; `Build` of
-- internal/service/battle/service.go.
use stage_sync.Base.{String, Option, none, some, ◌==◌, string_eq, if◌then◌else◌}
use stage_sync.Base.Int.{ℤ}
use stage_sync.Auth.{Issuer, Validator}
use stage_sync.RateLimit.{Limiter}

-- A part that has one implementation in memory and one over a connection.
pub data Backend (A : Type 0) : Type 0 where
  in_memory : Backend A
  over : A → Backend A

abbrev pub backend : {A : Type 0} → Option A → Backend A
backend none = in_memory
backend (some a) = over a

-- `buildRepos`: the repositories of profiles, of the gacha and of events.
unfoldable pub build_repos : {D : Type 0} → Option D → Backend D × Backend D × Backend D
build_repos none = (in_memory, in_memory, in_memory)
build_repos (some db) = (over db, over db, over db)

-- `buildBattleRepo`
unfoldable pub build_battle_repo : {D : Type 0} → Option D → Backend D
build_battle_repo none = in_memory
build_battle_repo (some db) = over db

-- `Applier`, by the two types that implement it.
pub data Applier (R : Type 0) : Type 0 where
  v1_naive : R → Applier R
  v2_user_queue : R → Applier R

-- `Build`
unfoldable pub build : {R : Type 0} → String → R → Applier R
build impl repo = if impl == "queue" then v2_user_queue repo else v1_naive repo

-- `slog.Level`
pub data Level : Type 0 where
  level_debug : Level
  level_info : Level
  level_warn : Level
  level_error : Level

-- `parseLogLevel`
unfoldable pub parse_log_level : String → Level
parse_log_level s =
    if s == "debug"
    then level_debug
    else if s == "warn"
    then level_warn
    else if s == "error"
    then level_error
    else level_info

-- What `run` hands to the handlers and the middlewares.
pub record App (W D C F : Type 0) : Type 0 where
  pub level : Level
  pub listen : String
  pub request_timeout : ℤ
  pub leaderboard : Backend C
  pub repos : Backend D × Backend D × Backend D
  pub battle_applier : Applier (Backend D)
  pub issuer : Option (Issuer W)
  pub validator : Option (Validator W)
  pub idempotency_store : Backend C
  pub idempotency_ttl : ℤ
  pub rate_limiter : Limiter F
