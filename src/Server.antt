-- ===== src/Server.antt =====
-- cmd/server/main.go: `run`, from the configuration to the shutdown.
use stage_sync.Base.{ℕ, ◌*◌, String, [], Option, none, some, if◌then◌else◌}
use stage_sync.Base.Int.{ℤ}
use stage_sync.Runtime.{
  GoError, wrap, is_error, Result, ok, err, Action, fail, context, ◌>>=◌, Time,
}
use stage_sync.Auth.{Issuer, Validator}
use stage_sync.RateLimit.{new}
use stage_sync.Lifecycle.{Flags, set_draining}
use stage_sync.Config.{Config, Text, second, minute, load, build_auth}
use stage_sync.Server.Opening.{
  Infra, Process, outside, outside_do, deferring, open_maybe_mysql, open_leaderboard,
  open_idempotency_store,
}
use stage_sync.Server.Parts.{backend, build_repos, build_battle_repo, build, parse_log_level, App}
pub mod Opening
pub mod Parts
pub mod Laws
pub mod Opened
pub mod Closing
pub mod Wired
pub mod Determined
mod Tests
pub mod Released

-- What the `select` of `run` finds: the signal, or what the goroutine of the server has left in
-- `serverErr` when `ListenAndServe` has returned.
pub data Wake : Type 0 where
  signalled : Wake
  reported : Option GoError → Wake

-- `http.Server` with the application behind it, and `time.Sleep`, during which requests are served
-- too. `listen_and_wait` gives what came first: the signal, or the return of `ListenAndServe`.
pub record HttpServer (W D C F : Type 0) : Type 0 where
  pub listen_and_wait : App W D C F → Process W → Option (Option GoError) × Process W
  pub sleep : ℕ → Process W → Process W

-- What a receive from `serverErr` gives after the goroutine has ended: the error that it sent, or
-- the nil of the closed channel.
unfoldable pub serve_report : Option GoError → Option GoError
serve_report none = none
serve_report (some e) = if is_error e "http.ErrServerClosed" then none else some e

abbrev pub wake : Option (Option GoError) → Wake
wake none = signalled
wake (some returned) = reported (serve_report returned)

-- `readiness.SetDraining()`
abbrev pub drain : {W : Type 0} → Process W → Process W
drain p = record { world = p.world; flags = set_draining p.flags }

-- What is handed on of what has been opened.
abbrev pub app_of :
    {W D C F : Type 0}
    → Config F
    → Option D
    → Option C
    → Option (Issuer W) × Option (Validator W)
    → Option C
    → App W D C F
app_of cfg db leaderboard (issuer, validator) store = record {
  level = parse_log_level cfg.log_level;
  listen = cfg.listen;
  request_timeout = cfg.request_timeout;
  leaderboard = backend leaderboard;
  repos = build_repos db;
  battle_applier = build cfg.battle_impl (build_battle_repo db);
  issuer = issuer;
  validator = validator;
  idempotency_store = backend store;
  idempotency_ttl = cfg.idempotency_ttl;
  rate_limiter = new cfg.rate_limit_rps cfg.rate_limit_burst [];
}

-- `run`, up to what it does with the parts that it has opened.
module _ {W D C F : Type 0} (infra : Infra W D C)
    (serve_app : App W D C F → Action (Process W) (Unit {0})) where
  -- The sweeper of the rate limiter runs for as long as the server.
  abbrev pub with_sweeper : App W D C F → Action (Process W) (Unit {0})
  with_sweeper app p =
      deferring (outside_do infra.stop_sweeper) (serve_app app)
        (outside_do (infra.start_sweeper minute) p)

  -- `run` from each part that it has opened: the part is closed after all that follows.
  abbrev pub with_store :
      Config F
      → Option D
      → Option C
      → Option (Issuer W) × Option (Validator W)
      → Option C × (W → W)
      → Action (Process W) (Unit {0})
  with_store cfg db leaderboard auth (store, cleanup) =
      deferring (outside_do cleanup) (with_sweeper (app_of cfg db leaderboard auth store))

  abbrev pub with_auth :
      Config F
      → Option D
      → Option C
      → Option (Issuer W) × Option (Validator W)
      → Action (Process W) (Unit {0})
  with_auth cfg db leaderboard auth =
      context "idempotency" (outside (open_idempotency_store infra cfg.redis_addr))
      >>= with_store cfg db leaderboard auth

  abbrev pub with_leaderboard :
      Config F → Option D → Option C × (W → W) → Action (Process W) (Unit {0})
  with_leaderboard cfg db (leaderboard, cleanup) = deferring (outside_do cleanup) (
      context "auth" (λ p. (build_auth infra.now cfg.auth_secret cfg.auth_token_ttl, p))
      >>= with_auth cfg db leaderboard)

  abbrev pub with_db : Config F → Option D × (W → W) → Action (Process W) (Unit {0})
  with_db cfg (db, cleanup) = deferring (outside_do cleanup) (
      context "open redis" (outside (open_leaderboard infra cfg.redis_addr))
      >>= with_leaderboard cfg db)

  -- `run` with a configuration.
  unfoldable pub started : Config F → Action (Process W) (Unit {0})
  started cfg = context "open db" (outside (open_maybe_mysql infra cfg.mysql_dsn)) >>= with_db cfg

-- `shutdown` is `Shutdown`, with the time it may take.
module _ {W D C F : Type 0} (http : HttpServer W D C F)
    (shutdown : ℤ → Action (Process W) (Unit {0})) where
  -- The end of `run`, after the `select`.
  abbrev pub on_wake : Config F → Wake → Action (Process W) (Unit {0})
  on_wake cfg signalled p =
      context "shutdown" (shutdown cfg.shutdown_timeout) (http.sleep (5 * second) (drain p))
  on_wake cfg (reported none) p = (ok tt, p)
  on_wake cfg (reported (some e)) p = (err (wrap "listen and serve" e), p)

  -- The end of `run`, from the `select` on.
  unfoldable pub serve : Config F → App W D C F → Action (Process W) (Unit {0})
  serve cfg app p = let (woken, p') = http.listen_and_wait app p in on_wake cfg (wake woken) p'

  -- `run`
  unfoldable pub run : Infra W D C → Text F → (String → String) → Action (Process W) (Unit {0})
  run infra text getenv p = elim (load text getenv) [
    | err e ↦ (err (wrap "config" e), p)
    | ok cfg ↦
        deferring (outside_do infra.stop_signals) (started infra (serve cfg) cfg)
          (outside_do infra.notify_signals p)
  ]
