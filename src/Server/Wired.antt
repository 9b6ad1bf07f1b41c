-- ===== src/Server/Wired.antt =====
-- cmd/server/main.go: what the server is put together from fits its configuration.
use stage_sync.Base.{
  ◌*◌, arith, String, ◌<>◌, false, Option, none, some, ◌≡◌, refl, ap, ◌==◌, string_eq,
  if◌then◌else◌, ◌⊎◌, inl, inr, Bool-cases, eq_of_==,
}
use stage_sync.Base.Int.{pos}
use stage_sync.Auth.{Issuer, Validator}
use stage_sync.Runtime.{Result, ok, err, Action, pure, context, ◌>>◌}
use stage_sync.Runtime.Post.{Post, on_ok, on_err, Post-bind}
use stage_sync.Config.{Config, second}
use stage_sync.Server.{app_of}
use stage_sync.Server.Parts.{
  Backend, backend, in_memory, over, App, build_repos, build_battle_repo, build,
}
use stage_sync.Server.Opening.{
  Infra, or_undo, migrate, open_db, migrate_or_close, open_maybe_mysql, open_redis,
}

-- A part is opened when its address is not empty.
abbrev pub Chosen : {A : Type 0} → String → Option A → Type 0
Chosen {A} address o = ((address ≡ "") × (o ≡ none)) ⊎ ((a : A) × ¬ (address ≡ "") × (o ≡ some a))

abbrev pub ChosenBackend : {A : Type 0} → String → Backend A → Type 0
ChosenBackend {A} address b =
    ((address ≡ "") × (b ≡ in_memory)) ⊎ ((a : A) × ¬ (address ≡ "") × (b ≡ over a))

-- Tokens are issued and checked with the same secret, or neither.
abbrev pub AuthFits : {W F : Type 0} → Config F → Option (Issuer W) × Option (Validator W) → Type 0
AuthFits {W} cfg auth =
    ((cfg.auth_secret ≡ "") × (auth ≡ (none, none)))
    ⊎ ((i : Issuer W) × (v : Validator W) × (auth ≡ (some i, some v))
        × (v.secret ≡ i.secret)
        × (v.issuer ≡ i.issuer)
        × (pos i.ttl ≡ cfg.auth_token_ttl))

-- The application fits the configuration: the four repositories keep their data in the one database
-- where there is a DSN and all in memory where there is none; the leaderboard and the idempotency
-- store are both in Redis or both in memory; the battle service is the one named; tokens are issued
-- and checked with one secret, or neither is.
pub record IsWired {W D C F : Type 0} (cfg : Config F) (app : App W D C F) : Type 0 where
  pub database :
      ((cfg.mysql_dsn ≡ "")
        × (app.repos ≡ (in_memory, in_memory, in_memory))
        × (app.battle_applier ≡ build cfg.battle_impl in_memory))
      ⊎ ((db : D) × ¬ (cfg.mysql_dsn ≡ "")
          × (app.repos ≡ (over db, over db, over db))
          × (app.battle_applier ≡ build cfg.battle_impl (over db)))
  pub leaderboard : ChosenBackend cfg.redis_addr app.leaderboard
  pub idempotency_store : ChosenBackend cfg.redis_addr app.idempotency_store
  pub auth : AuthFits cfg (app.issuer, app.validator)

abbrev pub Any : {S : Type 0} → S → Type 0
Any s = Unit

-- A call followed by a value gives that value or an error.
then_value :
    {S A B : Type 0} {P : B → S → Type 0}
    → (m : Action S A) (b : B) (s : S) → ((s : S) → P b s)
    → Post P Any ((m >> pure b) s)
then_value {S} {A} {B} {P} m b s h = go (m s)
  where
    go : (q : Result A × S) → Post P Any (((λ (s : S). q) >> pure b) s)
    go (ok a, s') = on_ok (h s')
    go (err e, s') = on_err tt

no_promise : {S A : Type 0} (q : Result A × S) → Post (λ (a : A) (s : S). Unit) Any q
no_promise (ok a, s) = on_ok tt
no_promise (err e, s) = on_err tt

differs : (s t : String) → (s == t) ≡ false → ¬ (s ≡ t)
differs s t h e = ground arith

module _ {W D C : Type 0} (infra : Infra W D C) where
  pub open_maybe_mysql-Chosen :
      (dsn : String) (w : W)
      → Post (λ (o : Option D × (W → W)) w. Chosen dsn o.0) Any (open_maybe_mysql infra dsn w)
  unfolding open_maybe_mysql
  open_maybe_mysql-Chosen dsn w = elim (Bool-cases (dsn == "")) [
    | inl h ↦ rw h (on_ok (inl (eq_of_== dsn "" h, refl)))
    | inr h ↦ rw h (
        Post-bind (context "mysql open" (open_db infra dsn)) (migrate_or_close infra) w
          (no_promise (context "mysql open" (open_db infra dsn) w))
          (λ db w' t.
            then_value (or_undo (infra.close_db db) (context "mysql migrate" (migrate infra db)))
              (some db, infra.close_db db) w' (λ w. inr (db, differs dsn "" h, refl))))
  ]

  pub in_memory_or_redis-Chosen :
      (addr : String) (w : W)
      → Post
          (λ (o : Option C × (W → W)) w. Chosen addr o.0)
          Any
          ((if addr == "" then pure (none, λ w. w) else open_redis infra addr) w)
  in_memory_or_redis-Chosen addr w = elim (Bool-cases (addr == "")) [
    | inl h ↦ rw h (on_ok (inl (eq_of_== addr "" h, refl)))
    | inr h ↦
        let (client, w') = infra.new_client addr w in
        rw h (
          then_value
            (or_undo (infra.close_client client)
              (context ("redis ping " <> addr) (infra.ping_client client (3 * second))))
            (some client, infra.close_client client) w'
            (λ w. inr (client, differs addr "" h, refl)))
  ]

backend-Chosen :
    {A : Type 0} (address : String) (o : Option A)
    → Chosen address o
    → ChosenBackend address (backend o)
backend-Chosen address none (inl (e, n)) = inl (e, refl)
backend-Chosen address (some a) (inl (e, n)) = absurd (ground arith)
backend-Chosen address none (inr (a, e, n)) = absurd (ground arith)
backend-Chosen address (some b) (inr (a, e, n)) = inr (b, e, refl)

module _ {W D C F : Type 0} (cfg : Config F) where
  pub app_of-IsWired :
      (db : Option D) (leaderboard store : Option C)
      → (auth : Option (Issuer W) × Option (Validator W)) → Chosen cfg.mysql_dsn db
      → Chosen cfg.redis_addr leaderboard
      → Chosen cfg.redis_addr store
      → AuthFits cfg auth
      → IsWired cfg (app_of cfg db leaderboard auth store)
  unfolding build_repos build_battle_repo
  app_of-IsWired db leaderboard store auth hd hl hs ha = record {
    database = elim hd [
      | inl (e, n) ↦
          inl (e, ap build_repos n, ap (λ d. build cfg.battle_impl (build_battle_repo d)) n)
      | inr (d, e, n) ↦
          inr (d, e, ap build_repos n, ap (λ d. build cfg.battle_impl (build_battle_repo d)) n)
    ];
    leaderboard = backend-Chosen cfg.redis_addr leaderboard hl;
    idempotency_store = backend-Chosen cfg.redis_addr store hs;
    auth = ha;
  }
