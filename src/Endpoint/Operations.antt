-- ===== src/Endpoint/Operations.antt =====
-- internal/endpoint/optimize.go, health.go and metrics.go: the handlers for operating the server.
use stage_sync.Base.{ℕ, Bool, not, List, [], ◌∷◌, Option, none, some, if◌then◌else◌}
use stage_sync.AppError.{validation, write_json}
use stage_sync.Room.{Room, size}
use stage_sync.Lifecycle.{Flags, set_on}
use stage_sync.Idempotency.Middleware.{WriteOp, write_header, write}
use stage_sync.Endpoint.{Reply, replied, refused, status_ok}

pub record OptimizeReq : Type 0 where
  pub on : Bool

-- The body of a reply that has none.
abbrev pub Empty : Type 0
Empty = Unit {0}

-- `ServeHTTP` of the optimize handler, which does not call the validator.
unfoldable pub handle_optimize : Option OptimizeReq → Flags → Reply Empty × Flags
handle_optimize none f =
    (refused (write_json (validation "invalid body (expected {\"on\": bool})" [])), f)
handle_optimize (some req) f = (replied 204 tt, set_on req.on f)

-- `Live`
abbrev pub handle_live : List WriteOp
handle_live = write_header status_ok ∷ []

-- `Ready`; no flags are a nil state.
unfoldable pub handle_ready : Option Flags → List WriteOp
handle_ready none = write_header status_ok ∷ []
handle_ready (some f) =
    if not f.ready
    then write_header 503 ∷ write "{\"ready\":false}" ∷ []
    else write_header status_ok ∷ []

pub record MetricsDto : Type 0 where
  pub tps : ℕ
  pub connected_players : ℕ
  pub optimized : Bool

-- `Get` of the metrics handler, whose writer sends 200.
abbrev pub handle_metrics : {F : Type 0} → Room F → Flags → Reply MetricsDto
handle_metrics r f =
    replied status_ok (record { tps = 0; connected_players = size r; optimized = f.on })
