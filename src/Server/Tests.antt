-- ===== src/Server/Tests.antt =====
-- cmd/server/main.go: a server whose database opens and whose Redis does not answer.
use stage_sync.Base.{
  ℕ, String, false, List, [], ◌∷◌, Option, none, some, inl, inr, ◌≡◌, refl, sym, ap, ◌==◌,
  string_eq, if◌then◌else◌,
}
use stage_sync.Base.Int.{ℤ}
use stage_sync.Runtime.{other, wrap, GoError, Result, ok, err, Action}
use stage_sync.Runtime.Post.{on_ok}
use stage_sync.Auth.{Issuer, Validator}
use stage_sync.Lifecycle.{new_flags}
use stage_sync.Config.{
  Config, load, validate, get_env, get_duration_env, get_int_env, get_float_env, read_config,
}
use stage_sync.Config.Tests.{text}
use stage_sync.Server.{HttpServer, started, run}
use stage_sync.Server.Parts.{App}
use stage_sync.Server.Opening.{Infra, Process, open_db, migrate, open_maybe_mysql, open_leaderboard}
use stage_sync.Server.Laws.{Resource, signals, database, client, sweeper, InfraLaws, HttpLaws}
use stage_sync.Server.Released.{all_released}
use stage_sync.Server.Wired.{AuthFits}
use stage_sync.Server.Determined.{served_as_configured, shut_down_when_drained}

-- The world is the list of what is open, and closing lets go of what was opened last.
abbrev World : Type 0
World = List (Resource ℕ ℕ)

abbrev close_last : World → World
close_last [] = []
close_last (r ∷ w) = w

abbrev fine : World → Result (Unit {0}) × World
fine w = (ok tt, w)

abbrev infra : Infra World ℕ ℕ
infra = record {
  now = λ w. (0, w);
  notify_signals = λ w. signals ∷ w;
  stop_signals = close_last;
  sql_open = λ dsn w. (ok 1, database 1 ∷ w);
  set_max_open_conns = λ db n w. w;
  set_max_idle_conns = λ db n w. w;
  set_conn_max_lifetime = λ db n w. w;
  ping_db = λ db n. fine;
  close_db = λ db. close_last;
  goose_set_dialect = λ s. fine;
  goose_up = λ db s. fine;
  new_client = λ addr w. (2, client 2 ∷ w);
  ping_client = λ c n w. (err (other "refused"), w);
  close_client = λ c. close_last;
  start_sweeper = λ n w. sweeper ∷ w;
  stop_sweeper = close_last;
}

close_last_lem : (r : Resource ℕ ℕ) (w l : World) → w ≡ r ∷ l → close_last w ≡ l
close_last_lem r w l h = ap close_last h

abbrev infra_laws : InfraLaws infra
infra_laws = record {
  live = λ w. w;
  notify_signals = λ w. refl;
  stop_signals = close_last_lem signals;
  sql_open = λ dsn w. on_ok refl;
  set_max_open_conns = λ db n w. refl;
  set_max_idle_conns = λ db n w. refl;
  set_conn_max_lifetime = λ db n w. refl;
  ping_db = λ db n w. refl;
  close_db = λ db. close_last_lem (database db);
  goose_set_dialect = λ s w. refl;
  goose_up = λ db s w. refl;
  new_client = λ addr w. refl;
  ping_client = λ c n w. refl;
  close_client = λ c. close_last_lem (client c);
  start_sweeper = λ n w. refl;
  stop_sweeper = close_last_lem sweeper;
}

-- The signal comes first, and nothing is served meanwhile.
abbrev http : HttpServer World ℕ ℕ ℕ
http = record { listen_and_wait = λ app p. (none, p); sleep = λ n p. p }

abbrev shutdown : ℤ → Action (Process World) (Unit {0})
shutdown n p = (ok tt, p)

abbrev http_laws : HttpLaws http shutdown infra_laws.live
http_laws = record { listen_and_wait = λ app p. refl; sleep = λ n p. refl; shutdown = λ n p. refl }

abbrev start : Process World
start = record { world = []; flags = new_flags }

abbrev getenv : String → String
getenv key = if key == "MYSQL_DSN" then "dsn" else if key == "REDIS_ADDR" then "redis:6379" else ""

abbrev secret_env : String → String
secret_env key = if key == "AUTH_SECRET" then "key" else ""

abbrev in_memory_env : String → String
in_memory_env key = ""

-- The ping fails after the database was opened: the run ends with its error.
redis_refused :
    (run http shutdown infra text getenv start).0
    ≡ err (wrap "open redis" (wrap "redis ping redis:6379" (other "refused")))
unfolding run load validate read_config get_env get_duration_env get_int_env get_float_env string_eq
    started open_maybe_mysql open_db migrate open_leaderboard
redis_refused = refl

all_released_example : (run http shutdown infra text getenv start).1.world ≡ []
unfolding run
all_released_example = all_released infra infra_laws http shutdown http_laws text getenv start

-- A server that breaks down where tokens are checked and none can be issued.
abbrev unpaired : Option (Issuer World) → Option (Validator World) → Option (Option GoError)
unpaired none (some v) = some (some (other "no issuer"))
unpaired _ _ = none

abbrev listen_if_paired : App World ℕ ℕ ℕ → Process World → Option (Option GoError) × Process World
listen_if_paired app p = (unpaired app.issuer app.validator, p)

is_paired :
    (cfg : Config ℕ) (auth : Option (Issuer World) × Option (Validator World))
    → AuthFits cfg auth
    → unpaired auth.0 auth.1 ≡ none
is_paired cfg auth (inl (e, h)) =
    ap (λ (a : Option (Issuer World) × Option (Validator World)). unpaired a.0 a.1) h
is_paired cfg auth (inr (i, v, h, s, n, t)) =
    ap (λ (a : Option (Issuer World) × Option (Validator World)). unpaired a.0 a.1) h

served_as_configured_example :
    run http shutdown infra text secret_env start
    ≡ run
        (record { listen_and_wait = listen_if_paired; sleep = http.sleep })
        shutdown
        infra
        text
        secret_env
        start
served_as_configured_example =
    served_as_configured infra text secret_env http shutdown listen_if_paired start
      (λ cfg app p h w.
        ap (λ (o : Option (Option GoError)). (o, p))
          (sym (is_paired cfg (app.issuer, app.validator) w.auth)))

-- A `Shutdown` that would fail while the process is still ready.
abbrev shutdown_not_ready : ℤ → Action (Process World) (Unit {0})
shutdown_not_ready n p = (if p.flags.ready then err (other "still ready") else ok tt, p)

not_ready :
    (p : Process World) (n : ℤ) → p.flags.ready ≡ false → shutdown n p ≡ shutdown_not_ready n p
not_ready p n h = rw h refl

shut_down_when_drained_example :
    run http shutdown infra text in_memory_env start
    ≡ run http shutdown_not_ready infra text in_memory_env start
shut_down_when_drained_example =
    shut_down_when_drained infra text in_memory_env http shutdown shutdown_not_ready
      (λ n p. ([], refl)) (λ n p positive h. not_ready p n h) start
