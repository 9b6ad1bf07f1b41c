-- ===== src/Server/Released.antt =====
-- cmd/server/main.go: on every path of `run` what was opened is closed.
use stage_sync.Base.{◌*◌, String, none, some, ◌≡◌, refl, ◌∙◌, string_eq}
use stage_sync.Base.Int.{ℤ}
use stage_sync.Runtime.{wrap, Result, ok, err, Action}
use stage_sync.Runtime.Post.{on_ok, on_err, Post-context, Keeps-intro, Keeps-elim}
use stage_sync.Config.{Config, Text, second, load}
use stage_sync.Server.{
  HttpServer, Wake, signalled, reported, wake, on_wake, drain, serve, started, run,
}
use stage_sync.Server.Parts.{App}
use stage_sync.Server.Opening.{Infra, Process, outside_do, deferring}
use stage_sync.Server.Laws.{InfraLaws, HttpLaws}
use stage_sync.Server.Closing.{held, IsHeld, started-Keeps}

module _ {W D C F : Type 0} (infra : Infra W D C) (laws : InfraLaws infra)
    (http : HttpServer W D C F) (shutdown : ℤ → Action (Process W) (Unit {0}))
    (http_laws : HttpLaws http shutdown laws.live) where
  serve-Keeps :
      (cfg : Config F) (app : App W D C F) (p : Process W)
      → IsHeld infra laws (held infra laws p) (serve http shutdown cfg app p)
  unfolding serve
  serve-Keeps cfg app p =
      let (woken, p') = http.listen_and_wait app p in
      go (wake woken) p' (http_laws.listen_and_wait app p)
    where
      go :
          (w : Wake) (p' : Process W)
          → held infra laws p' ≡ held infra laws p
          → IsHeld infra laws (held infra laws p) (on_wake http shutdown cfg w p')
      go signalled p' h =
          let asleep = http.sleep (5 * second) (drain p') in
          Post-context "shutdown" (shutdown cfg.shutdown_timeout) asleep (
            Keeps-intro (held infra laws) _ _ (
              http_laws.shutdown cfg.shutdown_timeout asleep
              ∙ http_laws.sleep (5 * second) (drain p')
              ∙ h))
      go (reported none) p' h = on_ok h
      go (reported (some e)) p' h = on_err h

  -- However `run` comes to its end, it holds what it held at its start: the signals, the database,
  -- both Redis clients and the sweeper are let go, each as often as it was taken, when the
  -- configuration is refused, when any part fails to open, when the server fails, and after a
  -- shutdown that succeeds or fails.
  pub all_released :
      (text : Text F) (getenv : String → String) (p : Process W)
      → laws.live (run http shutdown infra text getenv p).1.world ≡ laws.live p.world
  unfolding run
  all_released text getenv p =
      elim (load text getenv)
        as (λ (r : Result (Config F)).
          laws.live
            (elim r as (λ _. Result (Unit {0}) × Process W) [
              | err e ↦ (err (wrap "config" e), p)
              | ok cfg ↦
                  deferring (outside_do infra.stop_signals)
                    (started infra (serve http shutdown cfg) cfg)
                    (outside_do infra.notify_signals p)
            ]).1.world
          ≡ laws.live p.world) [
            | err e ↦ refl
            | ok cfg ↦
                let p' = outside_do infra.notify_signals p in
                laws.stop_signals (started infra (serve http shutdown cfg) cfg p').1.world
                  (laws.live p.world)
                  (Keeps-elim (held infra laws) (held infra laws p') _
                      (started-Keeps infra laws (serve http shutdown cfg) (serve-Keeps cfg) cfg p')
                    ∙ laws.notify_signals p.world)
          ]
