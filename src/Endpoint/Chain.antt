-- ===== src/Endpoint/Chain.antt =====
-- cmd/server/main.go: the middlewares in front of the handlers, from the outermost to the innermost.
use stage_sync.Base.{String, List, Option, ◌==◌, string_eq}
use stage_sync.Runtime.{Time}
use stage_sync.Auth.{Jwt, Validator, player_id_from}
use stage_sync.RateLimit.{Rate, Buckets, Limiter}
use stage_sync.Idempotency.{Store}
use stage_sync.Idempotency.Middleware.{WriteOp, Request, Response, written, serve}
use stage_sync.Endpoint.Http.{HttpRequest, Handler}
use stage_sync.Endpoint.Auth.{require_auth}
use stage_sync.Endpoint.RateLimit.{rate_limit}
pub mod Order
mod Tests

-- What the idempotency middleware reads of a request.
abbrev pub idempotency_request : HttpRequest → Request
idempotency_request r = record {
  method = r.method;
  key = r.idempotency_key;
  player = player_id_from r.ctx;
}

-- `Idempotency` in front of a handler.
abbrev pub idempotency :
    {S H : Type 0} → Option (Store S) → Handler H → HttpRequest → S × H → Response × (S × H)
idempotency store next r (s, h) =
    let (a, s', h') = serve (λ _. next r) store (idempotency_request r) (s, h) in (a, (s', h'))

module _ {F L S W H : Type 0} (rate : Rate F L) (split_host_port : String → Option String)
    (jwt : Jwt W) (lim : Option (Limiter F)) (store : Option (Store S))
    (validator : Option (Validator W)) where
  -- The routes that are public.
  unfoldable pub public_route :
      Handler H → Time → Time → HttpRequest → Buckets L × (S × H) → Response × (Buckets L × (S × H))
  public_route next seen at =
      rate_limit rate split_host_port written (idempotency store next) lim seen at

  -- The gacha routes, behind `RequireAuth`.
  unfoldable pub protected_route :
      Handler H
      → Time
      → Time
      → HttpRequest
      → Buckets L × (S × (W × H))
      → Response × (Buckets L × (S × (W × H)))
  unfolding rate_limit
  protected_route next seen at =
      rate_limit rate split_host_port written (idempotency store (require_auth jwt next validator))
        lim seen at
