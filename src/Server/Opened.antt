-- ===== src/Server/Opened.antt =====
-- cmd/server/main.go: what is opened comes with a cleanup that closes it, or is closed on an error.
use stage_sync.Base.{
  ◌*◌, String, ◌<>◌, Bool, true, false, List, ◌∷◌, none, some, ◌≡◌, ◌∙◌, ◌==◌, string_eq,
  if◌then◌else◌,
}
use stage_sync.Runtime.{Result, ok, err, Action, pure, context, ◌>>=◌, ◌>>◌}
use stage_sync.Runtime.Post.{
  Post, on_ok, on_err, Post-context, Post-bind, Keeps, Keeps-intro, Keeps-elim,
}
use stage_sync.Config.{second}
use stage_sync.Server.Opening.{
  Infra, or_undo, set_pool, ping_pool, open_db, migrate, migrate_or_close, open_maybe_mysql,
  open_redis,
}
use stage_sync.Server.Laws.{Resource, database, client, InfraLaws}

undone :
    {S A : Type 0} {P : A → S → Type 0} {Q R : S → Type 0}
    → (cleanup : S → S) (m : Action S A) (s : S) → Post P R (m s)
    → ((s' : S) → R s' → Q (cleanup s'))
    → Post P Q (or_undo cleanup m s)
undone {S} {A} {P} {Q} {R} cleanup m s = go (m s)
  where
    go :
        (q : Result A × S)
        → Post P R q
        → ((s' : S) → R s' → Q (cleanup s'))
        → Post P Q (or_undo cleanup (λ _. q) s)
    go (ok a, s') (on_ok h) k = on_ok h
    go (err e, s') (on_err h) k = on_err (k s' h)

module _ {W D C : Type 0} (infra : Infra W D C) (laws : InfraLaws infra) where
  -- A cleanup that gives back all that was opened since `w`.
  abbrev pub Closes : {A : Type 0} → W → A × (W → W) → W → Type 0
  Closes w (a, cleanup) w' =
      (t : W) → laws.live t ≡ laws.live w' → laws.live (cleanup t) ≡ laws.live w

  abbrev pub Same : W → W → Type 0
  Same w w' = laws.live w' ≡ laws.live w

  -- The body shared by what is opened and then tried: it stays open with its cleanup, or is closed.
  tried :
      {A : Type 0} (r : Resource D C) (close : W → W) (m : Action W (Unit {0})) (w w1 : W)
      → ((t : W) (l : List (Resource D C)) → laws.live t ≡ r ∷ l → laws.live (close t) ≡ l)
      → laws.live w1 ≡ r ∷ laws.live w
      → laws.live (m w1).1 ≡ laws.live w1
      → (text : String) (P : A → W → Type 0) (a : A)
      → ((t : W) → laws.live t ≡ r ∷ laws.live w → P a t)
      → Post P (Same w) ((or_undo close (context text m) >> pure a) w1)
  tried {A} r close m w w1 closes opened kept text P a k =
      Post-bind {P = λ _ t. laws.live t ≡ r ∷ laws.live w} {Q = Same w}
        (or_undo close (context text m)) (λ _. pure a) w1
        (undone {R = λ t. laws.live t ≡ r ∷ laws.live w} close (context text m) w1
          (Post-context text m w1 (Keeps-intro laws.live _ (m w1) (kept ∙ opened)))
          (λ t h. closes t (laws.live w) h))
        (λ _ t h. on_ok (k t h))

  open_db_opens :
      (dsn : String) (w : W)
      → Post (λ db w'. laws.live w' ≡ database db ∷ laws.live w) (Same w) (open_db infra dsn w)
  unfolding open_db
  open_db_opens dsn w =
      Post-bind (context "sql.Open" (infra.sql_open dsn)) (ping_pool infra) w
        (Post-context "sql.Open" (infra.sql_open dsn) w (laws.sql_open dsn w))
        (λ db w' h.
          tried (database db) (infra.close_db db) (infra.ping_db db (5 * second)) w
            (set_pool infra db w') (laws.close_db db)
            (laws.set_conn_max_lifetime db _ _
              ∙ laws.set_max_idle_conns db _ _
              ∙ laws.set_max_open_conns db _ _
              ∙ h)
            (laws.ping_db db (5 * second) _) "ping"
            (λ db t. laws.live t ≡ database db ∷ laws.live w) db (λ t e. e))

  migrate-Keeps : (db : D) (w : W) → Keeps laws.live (laws.live w) (migrate infra db w)
  unfolding migrate
  migrate-Keeps db w =
      Post-bind (context "goose set dialect" (infra.goose_set_dialect "mysql"))
        (λ _. context "goose up" (infra.goose_up db "migrations")) w
        (Post-context "goose set dialect" (infra.goose_set_dialect "mysql") w
          (Keeps-intro laws.live _ _ (laws.goose_set_dialect "mysql" w)))
        (λ _ w' h.
          Post-context "goose up" (infra.goose_up db "migrations") w'
            (Keeps-intro laws.live _ _ (laws.goose_up db "migrations" w' ∙ h)))

  -- Nothing to open, and a cleanup that does nothing.
  nothing_opened :
      {A : Type 0} (a : A) (w : W) → Post (Closes w) (Same w) (pure (a, λ (w : W). w) w)
  nothing_opened a w = on_ok (λ t h. h)

  pub open_maybe_mysql-Closes :
      (dsn : String) (w : W) → Post (Closes w) (Same w) (open_maybe_mysql infra dsn w)
  unfolding open_maybe_mysql
  open_maybe_mysql-Closes dsn w =
      elim (dsn == "")
        as (λ b. Post (Closes w) (Same w) (
          (if b
              then pure (none, λ w. w)
              else context "mysql open" (open_db infra dsn) >>= migrate_or_close infra)
            w)) [
              | true ↦ nothing_opened none w
              | false ↦
                  Post-bind (context "mysql open" (open_db infra dsn)) (migrate_or_close infra) w
                    (Post-context "mysql open" (open_db infra dsn) w (open_db_opens dsn w))
                    (λ db w' h.
                      tried (database db) (infra.close_db db) (migrate infra db) w w'
                        (laws.close_db db) h (Keeps-elim laws.live _ _ (migrate-Keeps db w'))
                        "mysql migrate" (Closes w) (some db, infra.close_db db)
                        (λ t e t' e'. laws.close_db db t' _ (e' ∙ e)))
            ]

  open_redis-Closes : (addr : String) (w : W) → Post (Closes w) (Same w) (open_redis infra addr w)
  open_redis-Closes addr w =
      let (c, w') = infra.new_client addr w in
      tried (client c) (infra.close_client c) (infra.ping_client c (3 * second)) w w'
        (laws.close_client c) (laws.new_client addr w) (laws.ping_client c (3 * second) w')
        ("redis ping " <> addr) (Closes w) (some c, infra.close_client c)
        (λ t e t' e'. laws.close_client c t' _ (e' ∙ e))

  pub in_memory_or_redis-Closes :
      (b : Bool) (addr : String) (w : W)
      → Post (Closes w) (Same w) ((if b then pure (none, λ w. w) else open_redis infra addr) w)
  in_memory_or_redis-Closes true addr w = nothing_opened none w
  in_memory_or_redis-Closes false addr w = open_redis-Closes addr w
