-- ===== src/Server/Opening.antt =====
-- The libraries that cmd/server/main.go starts the process with, which are parameters, and
-- `Open` and `Migrate` of internal/persistence/mysql/mysql.go and migrate.go over them.
use stage_sync.Base.{ℕ, ◌*◌, String, ◌<>◌, Option, none, some, ◌==◌, string_eq, if◌then◌else◌}
use stage_sync.Runtime.{ok, err, Action, pure, context, ◌>>=◌, ◌>>◌, Time}
use stage_sync.Lifecycle.{Flags}
use stage_sync.Config.{second, minute}

-- `D` is `*sql.DB` and `C` is the Redis client; a close drops its error. `start_sweeper` is the
-- goroutine of `StartSweeper`, and `stop_sweeper` closes its channel. A ping has a deadline.
pub record Infra (W D C : Type 0) : Type 0 where
  pub now : W → Time × W
  pub notify_signals : W → W
  pub stop_signals : W → W
  pub sql_open : String → Action W D
  pub set_max_open_conns : D → ℕ → W → W
  pub set_max_idle_conns : D → ℕ → W → W
  pub set_conn_max_lifetime : D → ℕ → W → W
  pub ping_db : D → ℕ → Action W (Unit {0})
  pub close_db : D → W → W
  pub goose_set_dialect : String → Action W (Unit {0})
  pub goose_up : D → String → Action W (Unit {0})
  pub new_client : String → W → C × W
  pub ping_client : C → ℕ → Action W (Unit {0})
  pub close_client : C → W → W
  pub start_sweeper : ℕ → W → W
  pub stop_sweeper : W → W

-- The process: the world that the libraries see, and the flags of internal/lifecycle.
pub record Process (W : Type 0) : Type 0 where
  pub world : W
  pub flags : Flags

-- A call that sees the world only.
abbrev pub outside : {W A : Type 0} → Action W A → Action (Process W) A
outside m p = let (r, w) = m p.world in (r, record { world = w; flags = p.flags })

abbrev pub outside_do : {W : Type 0} → (W → W) → Process W → Process W
outside_do f p = record { world = f p.world; flags = p.flags }

-- `defer cleanup()`: the rest of the function runs and then the cleanup, whatever was returned.
abbrev pub deferring : {S A : Type 0} → (S → S) → Action S A → Action S A
deferring cleanup m s = let (r, s') = m s in (r, cleanup s')

-- `if err := m; err != nil { cleanup(); return err }`
abbrev pub or_undo : {S A : Type 0} → (S → S) → Action S A → Action S A
or_undo cleanup m s =
    let (r, s') = m s in elim r [ ok a ↦ (ok a, s') | err e ↦ (err e, cleanup s') ]

module _ {W D C : Type 0} (infra : Infra W D C) where
  -- The three settings of the pool.
  abbrev pub set_pool : D → W → W
  set_pool db w =
      infra.set_conn_max_lifetime db (30 * minute)
        (infra.set_max_idle_conns db 5 (infra.set_max_open_conns db 25 w))

  -- `Open`, after `sql.Open`.
  abbrev pub ping_pool : D → Action W D
  ping_pool db w =
      (or_undo (infra.close_db db) (context "ping" (infra.ping_db db (5 * second))) >> pure db)
        (set_pool db w)

  -- `Open`
  unfoldable pub open_db : String → Action W D
  open_db dsn = context "sql.Open" (infra.sql_open dsn) >>= ping_pool

  -- `Migrate`
  unfoldable pub migrate : D → Action W (Unit {0})
  migrate db =
      context "goose set dialect" (infra.goose_set_dialect "mysql")
      >> context "goose up" (infra.goose_up db "migrations")

  -- `openMaybeMySQL`, after `Open`: the database and its cleanup.
  abbrev pub migrate_or_close : D → Action W (Option D × (W → W))
  migrate_or_close db =
      or_undo (infra.close_db db) (context "mysql migrate" (migrate db))
      >> pure (some db, infra.close_db db)

  -- `openMaybeMySQL`; without a DSN there is no database.
  unfoldable pub open_maybe_mysql : String → Action W (Option D × (W → W))
  open_maybe_mysql dsn =
      if dsn == ""
      then pure (none, λ w. w)
      else context "mysql open" (open_db dsn) >>= migrate_or_close

  -- The body that `openLeaderboard` and `openIdempotencyStore` share: a client that answers a ping.
  abbrev pub open_redis : String → Action W (Option C × (W → W))
  open_redis addr w =
      let (client, w') = infra.new_client addr w in
      (or_undo (infra.close_client client)
            (context ("redis ping " <> addr) (infra.ping_client client (3 * second)))
          >> pure (some client, infra.close_client client))
        w'

  -- `openLeaderboard`; no client is the leaderboard in memory.
  unfoldable pub open_leaderboard : String → Action W (Option C × (W → W))
  open_leaderboard addr = if addr == "" then pure (none, λ w. w) else open_redis addr

  -- `openIdempotencyStore`; no client is the store in memory.
  unfoldable pub open_idempotency_store : String → Action W (Option C × (W → W))
  open_idempotency_store addr = if addr == "" then pure (none, λ w. w) else open_redis addr
