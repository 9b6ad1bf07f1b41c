-- ===== src/Endpoint/Observed.antt =====
-- internal/endpoint/middleware.go and prometheus.go: the access log and the metrics of a request. The
-- wrapper of the `ResponseWriter` and the route pattern are chi's, the log and the histogram are
-- slog's and Prometheus's: parameters.
use stage_sync.Base.{
  ℕ, ◌-◌, ◌/◌, String, List, [], ◌∷◌, Option, none, some, ◌==◌, string_eq, if◌then◌else◌,
}
use stage_sync.Runtime.{Time}
use stage_sync.Lifecycle.{Flags}
use stage_sync.Room.{Room, size}
use stage_sync.Idempotency.Middleware.{WriteOp}
use stage_sync.Endpoint.Http.{HttpRequest}
pub mod Once
mod Tests

-- How a handler ends: it returns, or panics, which `http.ErrAbortHandler` makes on purpose.
pub data Ending : Type 0 where
  returned : Ending
  panicked : String → Ending
  aborted : Ending

-- The fields of the logger of a request, which a handler gets in its context.
pub record Logger : Type 0 where
  pub request_id : String
  pub method : String
  pub path : String

-- What a handler does: it writes to its `ResponseWriter`, ends, and changes the world.
abbrev pub Serving : Type 0 → Type 0
Serving W = Option Logger → HttpRequest → W → (List WriteOp × Ending) × W

-- A line of the access log.
pub record AccessLog : Type 0 where
  pub logger : Logger
  pub status : ℕ
  pub bytes : ℕ
  pub duration_ms : ℕ

-- An observation of the histogram, by its labels.
pub record Observation : Type 0 where
  pub method : String
  pub path : String
  pub status : String
  pub nanoseconds : ℕ

-- `status` and `bytes_written` are the methods of the wrapper after what was written through it.
pub record Observer (W : Type 0) : Type 0 where
  pub now : W → Time × W
  pub info : AccessLog → W → W
  pub observe : Observation → W → W
  pub req_id : HttpRequest → String
  pub route_pattern : HttpRequest → W → String
  pub status : List WriteOp → ℕ
  pub bytes_written : List WriteOp → ℕ
  pub itoa : ℕ → String

module _ {W : Type 0} (obs : Observer W) where
  -- The logger that a request gets.
  abbrev pub request_fields : HttpRequest → Logger
  request_fields r = record { request_id = obs.req_id r; method = r.method; path = r.path }

  abbrev pub access_log : Logger → Time → Time → List WriteOp → AccessLog
  access_log l start end ops = record {
    logger = l;
    status = obs.status ops;
    bytes = obs.bytes_written ops;
    duration_ms = (end - start) / 1_000_000;
  }

  -- The deferred line, which is written however the handler ended.
  abbrev pub log_request : Logger → Time → List WriteOp → W → W
  log_request l start ops w = let (end, w') = obs.now w in obs.info (access_log l start end ops) w'

  -- `RequestLogger`
  unfoldable pub request_logger : Serving W → Serving W
  request_logger next ctx r w =
      let l = request_fields r in
      let (start, w1) = obs.now w in
      let (served, w2) = next (some l) r w1 in (served, log_request l start served.0 w2)

  -- The pattern of a request that no route matched.
  abbrev pub pattern_or_unknown : String → String
  pattern_or_unknown pattern = if pattern == "" then "(unknown)" else pattern

  abbrev pub observation : HttpRequest → Time → Time → List WriteOp → String → Observation
  observation r start end ops pattern = record {
    method = r.method;
    path = pattern_or_unknown pattern;
    status = obs.itoa (obs.status ops);
    nanoseconds = end - start;
  }

  -- What follows `next.ServeHTTP`, which a panic leaves out.
  abbrev pub observe_request : HttpRequest → Time → List WriteOp → Ending → W → W
  observe_request r start ops (panicked v) w = w
  observe_request r start ops aborted w = w
  observe_request r start ops returned w =
      let (end, w') = obs.now w in
      obs.observe (observation r start end ops (obs.route_pattern r w)) w'

  -- `RequestMetrics`
  unfoldable pub request_metrics : Serving W → Serving W
  request_metrics next ctx r w =
      let (start, w1) = obs.now w in
      let (served, w2) = next ctx r w1 in (served, observe_request r start served.0 served.1 w2)

  -- `LoggerFrom`; `default` is `slog.Default()`.
  unfoldable pub logger_from : Logger → Option Logger → Logger
  logger_from default none = default
  logger_from default (some l) = l

-- The two gauges of `NewPrometheusHandler`, by their names.
unfoldable pub gauges : {F : Type 0} → Room F → Flags → List (String × ℕ)
gauges room flags =
    ("stagesync_room_connected_players", size room)
    ∷ ("stagesync_optimize_on", if flags.on then 1 else 0)
    ∷ []
