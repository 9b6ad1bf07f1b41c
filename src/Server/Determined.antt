-- ===== src/Server/Determined.antt =====
-- cmd/server/main.go: `run` serves only what fits its configuration, and shuts down only when draining.
use stage_sync.Base.{
  ℕ, ◌*◌, List, String, false, Option, none, some, ◌≡◌, refl, ap, ◌∙◌, string_eq, inl, inr,
}
use stage_sync.Base.Int.{ℤ, pos, ◌<ℤ◌}
use stage_sync.Auth.{Issuer, Validator}
use stage_sync.Runtime.{GoError, wrap, Result, ok, err, Action, context, ◌>>=◌}
use stage_sync.Runtime.Post.{Post-context, Post-cong}
use stage_sync.Config.{Config, Text, second, minute, load, build_auth}
use stage_sync.Config.Bounds.{load_lem}
use stage_sync.Server.{
  HttpServer, Wake, signalled, reported, wake, on_wake, drain, serve, with_sweeper, with_store,
  with_auth, with_leaderboard, with_db, app_of, started, run,
}
use stage_sync.Server.Parts.{App}
use stage_sync.Server.Opening.{
  Infra, Process, outside, outside_do, deferring, open_maybe_mysql, open_leaderboard,
  open_idempotency_store,
}
use stage_sync.Server.Closing.{outside-Post}
use stage_sync.Server.Wired.{
  Chosen, AuthFits, IsWired, open_maybe_mysql-Chosen, in_memory_or_redis-Chosen, app_of-IsWired,
}
use stage_sync.Lifecycle.{Flags, set_draining}
use stage_sync.Lifecycle.Probes.{Op, run_ops, still_draining}

-- A function that is deferred runs after either of two that do the same.
deferring_cong :
    {S A : Type 0} (cleanup : S → S) (m n : Action S A) (s : S)
    → m s ≡ n s
    → deferring cleanup m s ≡ deferring cleanup n s
deferring_cong cleanup m n s h = ap (λ q. (q.0, cleanup q.1)) h

module _ {W D C F : Type 0} (infra : Infra W D C) (cfg : Config F)
    (f g : App W D C F → Action (Process W) (Unit {0}))
    (agree : (app : App W D C F) (p : Process W) → IsWired cfg app → f app p ≡ g app p) where
  auth_cong :
      (db : Option D) (leaderboard : Option C) (auth : Option (Issuer W) × Option (Validator W))
      → (p : Process W) → Chosen cfg.mysql_dsn db
      → Chosen cfg.redis_addr leaderboard
      → AuthFits cfg auth
      → with_auth infra f cfg db leaderboard auth p ≡ with_auth infra g cfg db leaderboard auth p
  unfolding open_idempotency_store
  auth_cong db leaderboard auth p hd hl ha =
      let m = outside (open_idempotency_store infra cfg.redis_addr) in
      Post-cong (context "idempotency" m) (with_store infra f cfg db leaderboard auth)
        (with_store infra g cfg db leaderboard auth) p
        (Post-context "idempotency" m p (
          outside-Post (open_idempotency_store infra cfg.redis_addr) p
            (in_memory_or_redis-Chosen infra cfg.redis_addr p.world)))
        (λ (store, cleanup) p' hs.
          let app = app_of cfg db leaderboard auth store in
          let p'' = outside_do (infra.start_sweeper minute) p' in
          deferring_cong (outside_do cleanup) (with_sweeper infra f app) (with_sweeper infra g app)
            p'
            (deferring_cong (outside_do infra.stop_sweeper) (f app) (g app) p''
              (agree app p'' (app_of-IsWired cfg db leaderboard store auth hd hl hs ha))))

  leaderboard_cong :
      (db : Option D) (leaderboard : Option C) (cleanup : W → W) (p : Process W)
      → (auth : Option (Issuer W) × Option (Validator W))
      → build_auth infra.now cfg.auth_secret cfg.auth_token_ttl ≡ ok auth
      → Chosen cfg.mysql_dsn db
      → Chosen cfg.redis_addr leaderboard
      → AuthFits cfg auth
      → with_leaderboard infra f cfg db (leaderboard, cleanup) p
        ≡ with_leaderboard infra g cfg db (leaderboard, cleanup) p
  leaderboard_cong db leaderboard cleanup p auth h hd hl ha =
      let m : Action (Process W) (Option (Issuer W) × Option (Validator W)) =
        λ p. (build_auth infra.now cfg.auth_secret cfg.auth_token_ttl, p) in
      deferring_cong (outside_do cleanup)
        (context "auth" m >>= with_auth infra f cfg db leaderboard)
        (context "auth" m >>= with_auth infra g cfg db leaderboard) p
        (rw h (auth_cong db leaderboard auth p hd hl ha))

  db_cong :
      (db : Option D) (cleanup : W → W) (p : Process W)
      → (auth : Option (Issuer W) × Option (Validator W))
      → build_auth infra.now cfg.auth_secret cfg.auth_token_ttl ≡ ok auth
      → Chosen cfg.mysql_dsn db
      → AuthFits cfg auth
      → with_db infra f cfg (db, cleanup) p ≡ with_db infra g cfg (db, cleanup) p
  unfolding open_leaderboard
  db_cong db cleanup p auth h hd ha =
      let m = outside (open_leaderboard infra cfg.redis_addr) in
      deferring_cong (outside_do cleanup)
        (context "open redis" m >>= with_leaderboard infra f cfg db)
        (context "open redis" m >>= with_leaderboard infra g cfg db) p
        (Post-cong (context "open redis" m) (with_leaderboard infra f cfg db)
          (with_leaderboard infra g cfg db) p
          (Post-context "open redis" m p (
            outside-Post (open_leaderboard infra cfg.redis_addr) p
              (in_memory_or_redis-Chosen infra cfg.redis_addr p.world)))
          (λ (leaderboard, cleanup) p' hl.
            leaderboard_cong db leaderboard cleanup p' auth h hd hl ha))

  started_cong :
      (p : Process W) (auth : Option (Issuer W) × Option (Validator W))
      → build_auth infra.now cfg.auth_secret cfg.auth_token_ttl ≡ ok auth
      → AuthFits cfg auth
      → started infra f cfg p ≡ started infra g cfg p
  unfolding started
  started_cong p auth h ha =
      let m = outside (open_maybe_mysql infra cfg.mysql_dsn) in
      Post-cong (context "open db" m) (with_db infra f cfg) (with_db infra g cfg) p
        (Post-context "open db" m p (
          outside-Post (open_maybe_mysql infra cfg.mysql_dsn) p
            (open_maybe_mysql-Chosen infra cfg.mysql_dsn p.world)))
        (λ (db, cleanup) p' hd. db_cong db cleanup p' auth h hd ha)

-- What stands between a loaded configuration and the server is decided by it.
run_cong :
    {W D C F : Type 0} (infra : Infra W D C) (text : Text F) (getenv : String → String)
    → (http http' : HttpServer W D C F) (shutdown shutdown' : ℤ → Action (Process W) (Unit {0}))
    → (p : Process W)
    → ((cfg : Config F) (app : App W D C F) (p : Process W)
        → load text getenv ≡ ok cfg
        → IsWired cfg app
        → serve http shutdown cfg app p ≡ serve http' shutdown' cfg app p)
    → run http shutdown infra text getenv p ≡ run http' shutdown' infra text getenv p
unfolding run
run_cong {W} {D} {C} {F} infra text getenv http http' shutdown shutdown' p agree =
    go (load text getenv) refl
  where
    go :
        (r : Result (Config F))
        → load text getenv ≡ r
        → (elim r as (λ _. Result (Unit {0}) × Process W) [
          | err e ↦ (err (wrap "config" e), p)
          | ok cfg ↦
              deferring
                (outside_do infra.stop_signals)
                (started infra (serve http shutdown cfg) cfg)
                (outside_do infra.notify_signals p)
        ])
          ≡ elim r as (λ _. Result (Unit {0}) × Process W) [
            | err e ↦ (err (wrap "config" e), p)
            | ok cfg ↦
                deferring
                  (outside_do infra.stop_signals)
                  (started infra (serve http' shutdown' cfg) cfg)
                  (outside_do infra.notify_signals p)
          ]
    go (err e) h = refl
    go (ok cfg) h =
        let p' = outside_do infra.notify_signals p in
        let same : (auth : _)
            → build_auth infra.now cfg.auth_secret cfg.auth_token_ttl ≡ ok auth
            → AuthFits cfg auth
            → started infra (serve http shutdown cfg) cfg p'
              ≡ started infra (serve http' shutdown' cfg) cfg p' =
          started_cong infra cfg (serve http shutdown cfg) (serve http' shutdown' cfg)
            (λ app p w. agree cfg app p h w) p' in
        deferring_cong (outside_do infra.stop_signals) (started infra (serve http shutdown cfg) cfg)
          (started infra (serve http' shutdown' cfg) cfg) p'
          (elim (load_lem text getenv infra.now cfg h).1 [
            | inl (e, built) ↦ same (none, none) built (inl (e, refl))
            | inr (i, v, built, s, n, t) ↦ same (some i, some v) built (inr (i, v, refl, s, n, t))
          ])

module _ {W D C F : Type 0} (infra : Infra W D C) (text : Text F) (getenv : String → String)
    (http : HttpServer W D C F) (shutdown : ℤ → Action (Process W) (Unit {0})) where
  -- A server that serves the same where the application fits the configuration that was loaded, and
  -- whatever else elsewhere, makes no difference to `run`: the process listens with no other
  -- application.
  pub served_as_configured :
      (listen_and_wait : App W D C F → Process W → Option (Option GoError) × Process W)
      → (p : Process W)
      → ((cfg : Config F) (app : App W D C F) (p : Process W)
          → load text getenv ≡ ok cfg
          → IsWired cfg app
          → http.listen_and_wait app p ≡ listen_and_wait app p)
      → run http shutdown infra text getenv p
        ≡ run
            (record { listen_and_wait = listen_and_wait; sleep = http.sleep })
            shutdown
            infra
            text
            getenv
            p
  unfolding serve
  served_as_configured listen_and_wait p agree =
      run_cong infra text getenv http
        (record { listen_and_wait = listen_and_wait; sleep = http.sleep }) shutdown shutdown p
        (λ cfg app p h w.
          ap (λ (q : Option (Option GoError) × Process W). on_wake http shutdown cfg (wake q.0) q.1)
            (agree cfg app p h w))

  woken_cong :
      (shutdown' : ℤ → Action (Process W) (Unit {0}))
      → ((n : ℕ) (p : Process W) → (ops : List Op) × ((http.sleep n p).flags ≡ run_ops ops p.flags))
      → ((n : ℤ) (p : Process W)
          → pos 0 <ℤ n
          → p.flags.ready ≡ false
          → shutdown n p ≡ shutdown' n p)
      → (cfg : Config F) → pos 0 <ℤ cfg.shutdown_timeout
      → (w : Wake) (p : Process W) → on_wake http shutdown cfg w p ≡ on_wake http shutdown' cfg w p
  woken_cong shutdown' asleep agree cfg positive signalled p =
      let q = http.sleep (5 * second) (drain p) in
      let (ops, moved) = asleep (5 * second) (drain p) in
      ap
        (λ (r : Result (Unit {0}) × Process W). (
          elim r.0 as (λ _. Result (Unit {0})) [ ok a ↦ ok a | err e ↦ err (wrap "shutdown" e) ],
          r.1,
        ))
        (agree cfg.shutdown_timeout q positive
          (ap (λ (f : Flags). f.ready) moved ∙ still_draining ops (set_draining p.flags) refl))
  woken_cong shutdown' asleep agree cfg positive (reported none) p = refl
  woken_cong shutdown' asleep agree cfg positive (reported (some e)) p = refl

  -- Where all that happens to the flags while the process sleeps is what requests do to them, a
  -- `Shutdown` that does the same when it is called with a positive time and after the process has
  -- become unready makes no difference to `run`: it is called at no other moment.
  pub shut_down_when_drained :
      (shutdown' : ℤ → Action (Process W) (Unit {0}))
      → ((n : ℕ) (p : Process W) → (ops : List Op) × ((http.sleep n p).flags ≡ run_ops ops p.flags))
      → ((n : ℤ) (p : Process W)
          → pos 0 <ℤ n
          → p.flags.ready ≡ false
          → shutdown n p ≡ shutdown' n p)
      → (p : Process W)
      → run http shutdown infra text getenv p ≡ run http shutdown' infra text getenv p
  unfolding serve
  shut_down_when_drained shutdown' asleep agree p =
      run_cong infra text getenv http http shutdown shutdown' p (λ cfg app p h w.
        woken_cong shutdown' asleep agree cfg (load_lem text getenv infra.now cfg h).0.shutdown
          (wake (http.listen_and_wait app p).0) (http.listen_and_wait app p).1)
