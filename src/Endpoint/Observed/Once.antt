-- ===== src/Endpoint/Observed/Once.antt =====
-- internal/endpoint/middleware.go in the order of cmd/server/main.go: each request is logged once, and
-- observed once with the status that was logged, unless it was aborted.
use stage_sync.Base.{List, [], ◌∷◌, ◌++◌, Option, some, ◌≡◌, refl, ap, ◌∙◌, arith, ◌⊎◌, inl, inr}
use stage_sync.Runtime.{Time}
use stage_sync.Idempotency.Middleware.{WriteOp}
use stage_sync.Endpoint.Http.{HttpRequest}
use stage_sync.Endpoint.Observed.{
  Ending, returned, panicked, aborted, Serving, Logger, AccessLog, Observation, Observer,
  request_fields, request_logger, request_metrics, access_log, log_request, observation,
  observe_request,
}

-- The log and the histogram grow by what is told to them, and reading the clock changes neither.
pub record ObserverLaws {W : Type 0} (obs : Observer W) : Type 0 where
  pub lines : W → List AccessLog
  pub seen : W → List Observation
  pub now : (w : W) → (lines (obs.now w).1 ≡ lines w) × (seen (obs.now w).1 ≡ seen w)
  pub info :
      (l : AccessLog) (w : W)
      → (lines (obs.info l w) ≡ lines w ++ l ∷ []) × (seen (obs.info l w) ≡ seen w)
  pub observe :
      (o : Observation) (w : W)
      → (lines (obs.observe o w) ≡ lines w) × (seen (obs.observe o w) ≡ seen w ++ o ∷ [])

module _ {W : Type 0} (obs : Observer W) (laws : ObserverLaws obs) where
  -- The log and the histogram as they were.
  abbrev pub Unobserved : W → W → Type 0
  Unobserved w w' = (laws.lines w' ≡ laws.lines w) × (laws.seen w' ≡ laws.seen w)

  -- A handler that tells them nothing itself, and ends without a panic but for an abort.
  abbrev pub IsRecovered : Serving W → Type 0
  IsRecovered next =
      (l : Option Logger) (r : HttpRequest) (w : W)
      → let ((ops, e), w') = next l r w in ((e ≡ returned) ⊎ (e ≡ aborted)) × Unobserved w w'

  -- One more observation, with the labels of a request and the status of what was written.
  abbrev pub ObservedOnce : HttpRequest → List WriteOp → W → W → Type 0
  ObservedOnce r ops w w' =
      (o : Observation) × (laws.seen w' ≡ laws.seen w ++ o ∷ [])
      × (o.method ≡ r.method)
      × (o.status ≡ obs.itoa (obs.status ops))

  logged :
      (l : Logger) (start : Time) (ops : List WriteOp) (w : W)
      → (line : AccessLog) × (laws.lines (log_request obs l start ops w)
          ≡ laws.lines w ++ line ∷ [])
        × (line.logger ≡ l)
        × (line.status ≡ obs.status ops)
        × (laws.seen (log_request obs l start ops w) ≡ laws.seen w)
  logged l start ops w =
      let (end, w') = obs.now w in
      let line = access_log obs l start end ops in
      let told = laws.info line w' in
      (line, told.0 ∙ ap (λ x. x ++ line ∷ []) (laws.now w).0, refl, refl, told.1 ∙ (laws.now w).1)

  observed :
      (r : HttpRequest) (start : Time) (ops : List WriteOp) (e : Ending) (w : W)
      → (e ≡ returned) ⊎ (e ≡ aborted)
      → (laws.lines (observe_request obs r start ops e w) ≡ laws.lines w)
        × (((e ≡ returned) × ObservedOnce r ops w (observe_request obs r start ops e w))
            ⊎ ((e ≡ aborted) × (laws.seen (observe_request obs r start ops e w) ≡ laws.seen w)))
  observed r start ops returned w h =
      let (end, w') = obs.now w in
      let o = observation obs r start end ops (obs.route_pattern r w) in
      let told = laws.observe o w' in
      (
        told.0 ∙ (laws.now w).0,
        inl (refl, (o, told.1 ∙ ap (λ x. x ++ o ∷ []) (laws.now w).1, refl, refl)),
      )
  observed r start ops aborted w h = (refl, inr (refl, refl))
  observed r start ops (panicked v) w h = absurd (ground arith)

  -- The log and the metrics around a handler that recovers from panics: the client gets what the
  -- handler wrote; one line is logged, with the fields of the request and the status of that; and one
  -- observation is made, with its method and the same status, unless the handler aborted.
  pub observed_once_lem :
      (next : Serving W) (ctx : Option Logger) (r : HttpRequest) (w : W)
      → IsRecovered next
      → let ((ops, e), w') = request_logger obs (request_metrics obs next) ctx r w in
        ((ops, e) ≡ (next (some (request_fields obs r)) r (obs.now (obs.now w).1).1).0)
        × ((line : AccessLog) × (laws.lines w' ≡ laws.lines w ++ line ∷ [])
            × (line.logger ≡ request_fields obs r)
            × (line.status ≡ obs.status ops))
        × (((e ≡ returned) × ObservedOnce r ops w w')
            ⊎ ((e ≡ aborted) × (laws.seen w' ≡ laws.seen w)))
  unfolding request_logger request_metrics
  observed_once_lem next ctx r w recovered =
      let l = request_fields obs r in
      let (t0, w0) = obs.now w in
      let (t1, w1) = obs.now w0 in
      let ((ops, e), w2) = next (some l) r w1 in
      let (ends, quiet) = recovered (some l) r w1 in
      let w3 = observe_request obs r t1 ops e w2 in
      let (kept, seen) = observed r t1 ops e w2 ends in
      let (line, told, mine, status, unseen) = logged l t0 ops w3 in
      let lines2 = quiet.0 ∙ (laws.now w0).0 ∙ (laws.now w).0 in
      let seen2 = quiet.1 ∙ (laws.now w0).1 ∙ (laws.now w).1 in
      (
        refl,
        (line, told ∙ ap (λ x. x ++ line ∷ []) (kept ∙ lines2), mine, status),
        elim seen [
          | inl (done, (o, added, method, code)) ↦
              inl (done, (o, unseen ∙ added ∙ ap (λ x. x ++ o ∷ []) seen2, method, code))
          | inr (stopped, same) ↦ inr (stopped, unseen ∙ same ∙ seen2)
        ],
      )
