-- ===== src/Endpoint/Auth/Tests.antt =====
-- Requests to a handler behind the middleware that asks for a token.
use stage_sync.Base.{
  String, ◌<>◌, suc, ℕ, [], ◌∷◌, true, false, none, some, ◌≡◌, refl, ◌⊎◌, ◌==◌, string_eq, arith,
}
use stage_sync.Runtime.{GoError, err, Time}
use stage_sync.Auth.{Claims, IsBefore, validate}
use stage_sync.Auth.Tests.{issuer, validator}
use stage_sync.Auth.Tests.Plain.{plain_jwt, plain_laws}
use stage_sync.Idempotency.Middleware.{write_header, write}
use stage_sync.Endpoint.{replied, decoded}
use stage_sync.Endpoint.Http.{HttpRequest, Handler, with_authorization}
use stage_sync.Endpoint.Auth.{login, require_auth, bearer_token_from, write_unauthorized}
use stage_sync.Endpoint.Auth.Tokens.{require_auth_lem, login_lem}

-- A handler that counts how often it runs.
abbrev pub counted : Handler ℕ
counted r h = (write_header 201 ∷ write r.body ∷ [], suc h)

abbrev pub post : HttpRequest
post = record {
  method = "POST";
  path = "/api/gacha/roll";
  authorization = "Bearer forged";
  idempotency_key = "k1";
  x_forwarded_for = "";
  x_real_ip = "";
  remote_addr = "10.0.0.1:80";
  body = "one";
  ctx = none;
}

require_auth_lem_example :
    ((msg : String) × (w' : Time) × ((bearer_token_from "Bearer forged" ≡ none)
        ⊎ ((t : String) × (e : GoError) × (bearer_token_from "Bearer forged" ≡ some t)
            × ((validate plain_jwt validator t 5).0 ≡ err e)))
      × (require_auth plain_jwt counted (some validator) post (5, 0)
          ≡ (write_unauthorized msg, (w', 0))))
    ⊎ ((t : String) × (c : Claims) × (w' : Time) × (bearer_token_from "Bearer forged" ≡ some t)
        × ((c.player_id == "") ≡ false)
        × ((plain_laws {W = Time}).verifies ("HS256" ∷ []) "key" t ≡ true)
        × ((plain_laws {W = Time}).claims_in t ≡ some c)
        × (c.issuer ≡ "stagesync")
        × IsBefore 5 c.expires_at
        × (require_auth plain_jwt counted (some validator) post (5, 0)
            ≡ (write_header 201 ∷ write "one" ∷ [], (w', 1))))
require_auth_lem_example = require_auth_lem plain_jwt plain_laws counted validator post 5 0

login_lem_example :
    (t : String) × (c : Claims) × (c.player_id ≡ "ann")
    × (login plain_jwt (some issuer) (decoded (record { player = "ann" })) 5
        ≡ (replied 200 (record { token = t; expires_at = 65; player_id = "ann" }), 5))
    × (require_auth plain_jwt counted
          (some validator)
          (with_authorization ("Bearer " <> t) post)
          (20, 0)
        ≡ (write_header 201 ∷ write "one" ∷ [], (20, 1)))
unfolding string_eq
login_lem_example =
    login_lem plain_jwt plain_laws counted issuer validator "ann" post 5 20 0 refl refl refl
      (omega arith) (omega arith)
