-- ===== src/Endpoint/Http.antt =====
-- What the middlewares of internal/endpoint read of an `http.Request`, and an `http.Handler`: it
-- changes a state and makes calls of its `ResponseWriter`.
use stage_sync.Base.{String, List}
use stage_sync.Auth.{Context}
use stage_sync.Idempotency.Middleware.{WriteOp}

-- A header that is absent is "". `ctx` holds the claims that a middleware put there.
pub record HttpRequest : Type 0 where
  pub method : String
  pub path : String
  pub authorization : String
  pub idempotency_key : String
  pub x_forwarded_for : String
  pub x_real_ip : String
  pub remote_addr : String
  pub body : String
  pub ctx : Context

abbrev pub Handler : Type 0 → Type 0
Handler H = HttpRequest → H → List WriteOp × H

-- `r.WithContext(ctx)`
abbrev pub with_context : Context → HttpRequest → HttpRequest
with_context ctx r = record {
  method = r.method;
  path = r.path;
  authorization = r.authorization;
  idempotency_key = r.idempotency_key;
  x_forwarded_for = r.x_forwarded_for;
  x_real_ip = r.x_real_ip;
  remote_addr = r.remote_addr;
  body = r.body;
  ctx = ctx;
}

-- A request with an `Authorization` header.
abbrev pub with_authorization : String → HttpRequest → HttpRequest
with_authorization value r = record {
  method = r.method;
  path = r.path;
  authorization = value;
  idempotency_key = r.idempotency_key;
  x_forwarded_for = r.x_forwarded_for;
  x_real_ip = r.x_real_ip;
  remote_addr = r.remote_addr;
  body = r.body;
  ctx = r.ctx;
}
