-- ===== src/Server/Closing.antt =====
-- cmd/server/main.go: `run` with a configuration closes what it opens, if what it serves does.
use stage_sync.Base.{String, List, Option, ◌≡◌, refl, ◌∙◌, subst, ◌==◌, string_eq}
use stage_sync.Auth.{Issuer, Validator}
use stage_sync.Runtime.{Result, ok, err, Action, context, ◌>>=◌}
use stage_sync.Runtime.Post.{
  Post, on_ok, on_err, Post-context, Post-bind, Keeps, Keeps-intro, Keeps-elim,
}
use stage_sync.Config.{Config, minute, build_auth}
use stage_sync.Server.{
  with_sweeper, with_store, with_auth, with_leaderboard, with_db, app_of, started,
}
use stage_sync.Server.Parts.{App}
use stage_sync.Server.Opening.{
  Infra, Process, outside, outside_do, deferring, open_maybe_mysql, open_leaderboard,
  open_idempotency_store,
}
use stage_sync.Server.Laws.{Resource, InfraLaws}
use stage_sync.Server.Opened.{Closes, Same, open_maybe_mysql-Closes, in_memory_or_redis-Closes}

pub outside-Post :
    {W A : Type 0} {P : A → W → Type 0} {Q : W → Type 0}
    → (m : Action W A) (p : Process W) → Post P Q (m p.world)
    → Post (λ a (p : Process W). P a p.world) (λ (p : Process W). Q p.world) (outside m p)
outside-Post {W} {A} {P} {Q} m p = go (m p.world)
  where
    go :
        (q : Result A × W)
        → Post P Q q
        → Post
            (λ a (p : Process W). P a p.world)
            (λ (p : Process W). Q p.world)
            (outside (λ _. q) p)
    go (ok a, w) (on_ok h) = on_ok h
    go (err e, w) (on_err h) = on_err h

module _ {W D C : Type 0} (infra : Infra W D C) (laws : InfraLaws infra) where
  abbrev pub held : Process W → List (Resource D C)
  held p = laws.live p.world

  abbrev pub IsHeld : List (Resource D C) → Result (Unit {0}) × Process W → Type 0
  IsHeld = Keeps held

  deferred :
      (cleanup : W → W) (m : Action (Process W) (Unit {0})) (p : Process W)
      → (l : List (Resource D C)) → ((t : W) → laws.live t ≡ held p → laws.live (cleanup t) ≡ l)
      → IsHeld (held p) (m p)
      → IsHeld l (deferring (outside_do cleanup) m p)
  deferred cleanup m p l closes h =
      Keeps-intro held l (deferring (outside_do cleanup) m p)
        (closes (m p).1.world (Keeps-elim held (held p) (m p) h))

  -- What is opened is closed at the end of what follows.
  opened-Keeps :
      {A : Type 0}
      → (text : String) (m : Action W (A × (W → W)))
      → (k : A × (W → W) → Action (Process W) (Unit {0})) (p : Process W)
      → Post (Closes infra laws p.world) (Same infra laws p.world) (m p.world)
      → ((a : A × (W → W)) (p' : Process W)
          → ((t : W) → laws.live t ≡ held p' → laws.live (a.1 t) ≡ held p)
          → IsHeld (held p) (k a p'))
      → IsHeld (held p) ((context text (outside m) >>= k) p)
  opened-Keeps text m k p h closed =
      Post-bind (context text (outside m)) k p
        (Post-context text (outside m) p (outside-Post m p h)) (λ a p' e. closed a p' e)

  module _ {F : Type 0} (serve_app : App W D C F → Action (Process W) (Unit {0}))
      (serving : (app : App W D C F) (p : Process W) → IsHeld (held p) (serve_app app p)) where
    with_sweeper-Keeps :
        (app : App W D C F) (p : Process W) → IsHeld (held p) (with_sweeper infra serve_app app p)
    with_sweeper-Keeps app p =
        let p' = outside_do (infra.start_sweeper minute) p in
        let begun = laws.start_sweeper minute p.world in
        deferred infra.stop_sweeper (serve_app app) p' (held p)
          (λ t e. laws.stop_sweeper t (held p) (e ∙ begun)) (serving app p')

    with_auth-Keeps :
        (cfg : Config F) (db : Option D) (leaderboard : Option C)
        → (auth : Option (Issuer W) × Option (Validator W)) (p : Process W)
        → IsHeld (held p) (with_auth infra serve_app cfg db leaderboard auth p)
    unfolding open_idempotency_store
    with_auth-Keeps cfg db leaderboard auth p =
        opened-Keeps "idempotency" (open_idempotency_store infra cfg.redis_addr)
          (with_store infra serve_app cfg db leaderboard auth) p
          (in_memory_or_redis-Closes infra laws (cfg.redis_addr == "") cfg.redis_addr p.world)
          (λ (store, cleanup) p' closes.
            deferred cleanup (with_sweeper infra serve_app (app_of cfg db leaderboard auth store))
              p' (held p) closes (with_sweeper-Keeps (app_of cfg db leaderboard auth store) p'))

    with_leaderboard-Keeps :
        (cfg : Config F) (db : Option D) (leaderboard : Option C) (cleanup : W → W) (p : Process W)
        → (l : List (Resource D C)) → ((t : W) → laws.live t ≡ held p → laws.live (cleanup t) ≡ l)
        → IsHeld l (with_leaderboard infra serve_app cfg db (leaderboard, cleanup) p)
    with_leaderboard-Keeps cfg db leaderboard cleanup p l closes =
        let auth : Action (Process W) (Option (Issuer W) × Option (Validator W)) =
          λ p. (build_auth infra.now cfg.auth_secret cfg.auth_token_ttl, p) in
        deferred cleanup (context "auth" auth >>= with_auth infra serve_app cfg db leaderboard) p l
          closes
          (Post-bind (context "auth" auth) (with_auth infra serve_app cfg db leaderboard) p
            (Post-context "auth" auth p (Keeps-intro held (held p) (auth p) refl))
            (λ a p' e.
              subst (λ l. IsHeld l (with_auth infra serve_app cfg db leaderboard a p')) e
                (with_auth-Keeps cfg db leaderboard a p')))

    with_db-Keeps :
        (cfg : Config F) (db : Option D) (cleanup : W → W) (p : Process W)
        → (l : List (Resource D C)) → ((t : W) → laws.live t ≡ held p → laws.live (cleanup t) ≡ l)
        → IsHeld l (with_db infra serve_app cfg (db, cleanup) p)
    unfolding open_leaderboard
    with_db-Keeps cfg db cleanup p l closes =
        deferred cleanup
          (context "open redis" (outside (open_leaderboard infra cfg.redis_addr))
            >>= with_leaderboard infra serve_app cfg db)
          p l closes
          (opened-Keeps "open redis" (open_leaderboard infra cfg.redis_addr)
            (with_leaderboard infra serve_app cfg db) p
            (in_memory_or_redis-Closes infra laws (cfg.redis_addr == "") cfg.redis_addr p.world)
            (λ (leaderboard, cleanup) p' closes.
              with_leaderboard-Keeps cfg db leaderboard cleanup p' (held p) closes))

    pub started-Keeps :
        (cfg : Config F) (p : Process W) → IsHeld (held p) (started infra serve_app cfg p)
    unfolding started
    started-Keeps cfg p =
        opened-Keeps "open db" (open_maybe_mysql infra cfg.mysql_dsn) (with_db infra serve_app cfg)
          p (open_maybe_mysql-Closes infra laws cfg.mysql_dsn p.world)
          (λ (db, cleanup) p' closes. with_db-Keeps cfg db cleanup p' (held p) closes)
