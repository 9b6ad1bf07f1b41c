-- ===== src/Server/Laws.antt =====
-- What the server relies on in the libraries that it opens and serves with: what each of them holds.
use stage_sync.Base.{ℕ, String, List, ◌∷◌, ◌≡◌, string_eq}
use stage_sync.Base.Int.{ℤ}
use stage_sync.Runtime.{Action}
use stage_sync.Runtime.Post.{Post}
use stage_sync.Server.{HttpServer}
use stage_sync.Server.Parts.{App}
use stage_sync.Server.Opening.{Infra, Process}

-- What the process holds until it lets go of it.
pub data Resource (D C : Type 0) : Type 0 where
  signals : Resource D C
  database : D → Resource D C
  client : C → Resource D C
  sweeper : Resource D C

-- What the libraries document, of the list of what is open, the last opened first: opening adds, a
-- failed opening adds nothing, closing what was opened last removes it, and nothing else counts.
pub record InfraLaws {W D C : Type 0} (infra : Infra W D C) : Type 0 where
  pub live : W → List (Resource D C)
  pub notify_signals : (w : W) → live (infra.notify_signals w) ≡ signals ∷ live w
  pub stop_signals :
      (w : W) (l : List (Resource D C)) → live w ≡ signals ∷ l → live (infra.stop_signals w) ≡ l
  pub sql_open :
      (dsn : String) (w : W)
      → Post
          (λ db w'. live w' ≡ database db ∷ live w)
          (λ w'. live w' ≡ live w)
          (infra.sql_open dsn w)
  pub set_max_open_conns :
      (db : D) (n : ℕ) (w : W) → live (infra.set_max_open_conns db n w) ≡ live w
  pub set_max_idle_conns :
      (db : D) (n : ℕ) (w : W) → live (infra.set_max_idle_conns db n w) ≡ live w
  pub set_conn_max_lifetime :
      (db : D) (n : ℕ) (w : W) → live (infra.set_conn_max_lifetime db n w) ≡ live w
  pub ping_db : (db : D) (n : ℕ) (w : W) → live (infra.ping_db db n w).1 ≡ live w
  pub close_db :
      (db : D) (w : W) (l : List (Resource D C))
      → live w ≡ database db ∷ l
      → live (infra.close_db db w) ≡ l
  pub goose_set_dialect : (s : String) (w : W) → live (infra.goose_set_dialect s w).1 ≡ live w
  pub goose_up : (db : D) (s : String) (w : W) → live (infra.goose_up db s w).1 ≡ live w
  pub new_client :
      (addr : String) (w : W) → let (c, w') = infra.new_client addr w in live w' ≡ client c ∷ live w
  pub ping_client : (c : C) (n : ℕ) (w : W) → live (infra.ping_client c n w).1 ≡ live w
  pub close_client :
      (c : C) (w : W) (l : List (Resource D C))
      → live w ≡ client c ∷ l
      → live (infra.close_client c w) ≡ l
  pub start_sweeper : (n : ℕ) (w : W) → live (infra.start_sweeper n w) ≡ sweeper ∷ live w
  pub stop_sweeper :
      (w : W) (l : List (Resource D C)) → live w ≡ sweeper ∷ l → live (infra.stop_sweeper w) ≡ l

-- Serving, sleeping and shutting down open and close nothing of this.
pub record HttpLaws {W D C F : Type 0} (http : HttpServer W D C F)
    (stop : ℤ → Action (Process W) (Unit {0})) (live : W → List (Resource D C)) : Type 0 where
  pub listen_and_wait :
      (app : App W D C F) (p : Process W) → live (http.listen_and_wait app p).1.world ≡ live p.world
  pub sleep : (n : ℕ) (p : Process W) → live (http.sleep n p).world ≡ live p.world
  pub shutdown : (n : ℤ) (p : Process W) → live (stop n p).1.world ≡ live p.world
