-- ===== src/Endpoint/Observed/Tests.antt =====
-- internal/endpoint/middleware.go and prometheus.go: a request that is answered with 404.
use stage_sync.Base.{ℕ, ◌+◌, List, [], ◌∷◌, ◌++◌, none, ◌≡◌, refl, ◌⊎◌, inl, string_eq}
use stage_sync.Runtime.{Time}
use stage_sync.Lifecycle.{new_flags}
use stage_sync.Idempotency.Middleware.{WriteOp, write_header, write}
use stage_sync.Endpoint.Http.{HttpRequest}
use stage_sync.Endpoint.Observed.{
  returned, aborted, Serving, AccessLog, Observation, Observer, request_fields, request_logger,
  request_metrics, gauges,
}
use stage_sync.Endpoint.Observed.Once.{ObserverLaws, IsRecovered, ObservedOnce, observed_once_lem}

record World : Type 0 where
  time : Time
  lines : List AccessLog
  seen : List Observation

-- The first status that is written, or 200 where only a body is.
abbrev status_of_ops : List WriteOp → ℕ
status_of_ops [] = 0
status_of_ops (write_header code ∷ ops) = code
status_of_ops (write body ∷ ops) = 200

abbrev obs : Observer World
obs = record {
  now = λ w. (w.time, record { time = w.time + 2_000_000; lines = w.lines; seen = w.seen });
  info = λ l w. record { time = w.time; lines = w.lines ++ l ∷ []; seen = w.seen };
  observe = λ o w. record { time = w.time; lines = w.lines; seen = w.seen ++ o ∷ [] };
  req_id = λ r. "r1";
  route_pattern = λ r w. "";
  status = status_of_ops;
  bytes_written = λ ops. 9;
  itoa = λ n. "404";
}

abbrev laws : ObserverLaws obs
laws = record {
  lines = λ w. w.lines;
  seen = λ w. w.seen;
  now = λ w. (refl, refl);
  info = λ l w. (refl, refl);
  observe = λ o w. (refl, refl);
}

abbrev not_found : Serving World
not_found l r w = ((write_header 404 ∷ write "not found" ∷ [], returned), w)

not_found-IsRecovered : IsRecovered obs laws not_found
not_found-IsRecovered l r w = (inl refl, (refl, refl))

abbrev request : HttpRequest
request = record {
  method = "GET";
  path = "/nowhere";
  authorization = "";
  idempotency_key = "";
  x_forwarded_for = "";
  x_real_ip = "";
  remote_addr = "10.0.0.1:80";
  body = "";
  ctx = none;
}

abbrev start : World
start = record { time = 0; lines = []; seen = [] }

abbrev logged_and_observed : World
logged_and_observed = record {
  time = 8_000_000;
  lines =
      record { logger = request_fields obs request; status = 404; bytes = 9; duration_ms = 6 } ∷ [];
  seen =
      record { method = "GET"; path = "(unknown)"; status = "404"; nanoseconds = 2_000_000 } ∷ [];
}

is_logged :
    (request_logger obs (request_metrics obs not_found) none request start).1 ≡ logged_and_observed
unfolding request_logger request_metrics string_eq
is_logged = refl

no_player_gauges :
    gauges {F = ℕ} [] new_flags
    ≡ ("stagesync_room_connected_players", 0) ∷ ("stagesync_optimize_on", 0) ∷ []
unfolding gauges
no_player_gauges = refl

observed_once_lem_example :
    let ((ops, e), w') = request_logger obs (request_metrics obs not_found) none request start in
    ((request_logger obs (request_metrics obs not_found) none request start).0
      ≡ (write_header 404 ∷ write "not found" ∷ [], returned))
    × ((line : AccessLog) × (w'.lines ≡ line ∷ [])
        × (line.logger ≡ request_fields obs request)
        × (line.status ≡ status_of_ops ops))
    × (((e ≡ returned) × ObservedOnce obs laws request ops start w')
        ⊎ ((e ≡ aborted) × (w'.seen ≡ [])))
observed_once_lem_example =
    observed_once_lem obs laws not_found none request start not_found-IsRecovered
