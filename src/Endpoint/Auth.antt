-- ===== src/Endpoint/Auth.antt =====
-- internal/endpoint/auth.go: the login handler and the middleware that asks for a token.
pub mod Tokens
pub mod Tests
use stage_sync.Base.{
  ℕ, String, ◌<>◌, List, [], ◌∷◌, Option, none, some, ◌==◌, string_eq, if◌then◌else◌,
}
use stage_sync.Base.Header.{after_prefix, trim_space}
use stage_sync.Runtime.{GoError, other, ok, err, Result, Time}
use stage_sync.AppError.{internal, write_json}
use stage_sync.Auth.{Claims, Jwt, Issuer, Validator, issue, validate, inject_claims}
use stage_sync.Idempotency.Middleware.{WriteOp, write_header, write}
use stage_sync.Endpoint.{Reply, replied, refused, Body, with_body, answer, status_ok}
use stage_sync.Endpoint.Battle.{invalid_body}
use stage_sync.Endpoint.Http.{HttpRequest, Handler, with_context}

pub record LoginReq : Type 0 where
  pub player : String

pub record LoginResp : Type 0 where
  pub token : String
  pub expires_at : Time
  pub player_id : String

-- `http.StatusUnauthorized`
abbrev pub status_unauthorized : ℕ
status_unauthorized = 401

-- `writeUnauthorized`; the message needs no escapes.
abbrev pub write_unauthorized : String → List WriteOp
write_unauthorized msg =
    write_header status_unauthorized
    ∷ write ("{\"code\":\"UNAUTHORIZED\",\"message\":\"" <> msg <> "\"}\n")
    ∷ []

-- `bearerTokenFrom`, from the header on.
unfoldable pub bearer_token_from : String → Option String
bearer_token_from h = if h == "" then none else elim (after_prefix "bearer " h) [
  | none ↦ none
  | some rest ↦ let token = trim_space rest in if token == "" then none else some token
]

module _ {W : Type 0} (jwt : Jwt W) where
  -- `Login`; no issuer is a nil one.
  unfoldable pub login : Option (Issuer W) → Body LoginReq → W → Reply LoginResp × W
  login none body w = (
    refused (
        write_json (
          internal "auth not configured"
            (other "AUTH_SECRET is empty — server started in auth-disabled mode"))),
    w,
  )
  login (some i) body w =
      with_body invalid_body body
        (λ req.
          answer (internal "issue token")
            (λ (issued : String × Time).
              replied status_ok
                (record { token = issued.0; expires_at = issued.1; player_id = req.player }))
            (issue jwt i req.player))
        w

  module _ {H : Type 0} (next : Handler H) where
    -- After the token has been validated.
    abbrev pub with_claims : HttpRequest → Result Claims → W → H → List WriteOp × (W × H)
    with_claims r (err e) w h = (write_unauthorized "invalid or expired token", (w, h))
    with_claims r (ok claims) w h =
        let (ops, h') = next (with_context (inject_claims r.ctx claims) r) h in (ops, (w, h'))

    -- After the header has been read.
    abbrev pub with_token :
        Validator W → HttpRequest → Option String → W × H → List WriteOp × (W × H)
    with_token v r none (w, h) =
        (write_unauthorized "missing or malformed Authorization header", (w, h))
    with_token v r (some token) (w, h) =
        let (answer, w') = validate jwt v token w in with_claims r answer w' h

    -- `RequireAuth`; no validator is a nil one.
    unfoldable pub require_auth : Option (Validator W) → Handler (W × H)
    require_auth none r (w, h) = let (ops, h') = next r h in (ops, (w, h'))
    require_auth (some v) r s = with_token v r (bearer_token_from r.authorization) s
