-- ===== src/Endpoint/Auth/Tokens.antt =====
-- What internal/endpoint/auth.go lets through to a handler.
use stage_sync.Base.{
  ◌+◌, ◌≤◌, ◌<◌, String, ◌<>◌, some, ◌≡◌, refl, ap, ◌∙◌, ◌⊎◌, inl, inr, ◌==◌, string_eq, nat_eq,
  eq_of_==, Bool-cases, true, false, none, [], ◌∷◌, Option-cases, arith,
}
use stage_sync.Base.Header.{after_prefix, after_prefix-append, trim_space}
use stage_sync.Runtime.{GoError, Result, ok, err, Time}
use stage_sync.AppError.{internal}
use stage_sync.Auth.{Claims, IsBefore, Jwt, JwtLaws, Issuer, Validator, validate, claims_at}
use stage_sync.Auth.RoundTrip.{validate_lem, issue-eq, signed_validate}
use stage_sync.Endpoint.{replied, decoded, answer_result}
use stage_sync.Endpoint.Http.{HttpRequest, Handler, with_context, with_authorization}
use stage_sync.Endpoint.Auth.{
  login, require_auth, with_token, with_claims, bearer_token_from, write_unauthorized,
}

header_prefix : (t : String) → after_prefix "bearer " ("Bearer " <> t) ≡ some t
unfolding after_prefix nat_eq
header_prefix t = after_prefix-append "bearer " "Bearer " t refl

header_nonempty : (t : String) → (("Bearer " <> t) == "") ≡ false
unfolding after_prefix
header_nonempty t = elim (Bool-cases (("Bearer " <> t) == "")) [
  | inl same ↦
      ground
        (arith, header_prefix t, ap (after_prefix "bearer ") (eq_of_== ("Bearer " <> t) "" same))
  | inr differs ↦ differs
]

-- The header that a client with a token sends.
bearer_token_lem :
    (t : String)
    → (t == "") ≡ false
    → trim_space t ≡ t
    → bearer_token_from ("Bearer " <> t) ≡ some t
unfolding bearer_token_from
bearer_token_lem t present trimmed =
    rw (bearer_token_from, header_nonempty t, header_prefix t, trimmed, present) refl

module _ {W H : Type 0} (jwt : Jwt W) (laws : JwtLaws jwt) (next : Handler H) where
  -- The middleware after a validator has answered.
  with_answer :
      (v : Validator W) (r : HttpRequest) (t : String) (w : W) (h : H) (a : Result Claims)
      → bearer_token_from r.authorization ≡ some t
      → (validate jwt v t w).0 ≡ a
      → require_auth jwt next (some v) r (w, h) ≡ with_claims jwt next r a (validate jwt v t w).1 h
  unfolding require_auth
  with_answer v r t w h a given answered =
      ap (λ g. with_token jwt next v r g (w, h)) given
      ∙ ap (λ b. with_claims jwt next r b (validate jwt v t w).1 h) answered

  -- With a validator, a request whose header has no bearer token, or one that the validator refuses, is
  -- answered 401 while the handler does not run. Any other request has a bearer token whose signature
  -- verifies under HS256 with the validator's secret, and the handler runs with the claims of that
  -- token in the request's context: they name a player, are under the validator's issuer and have not
  -- expired, if they have an expiry.
  pub require_auth_lem :
      (v : Validator W) (r : HttpRequest) (w : W) (h : H)
      → ((msg : String) × (w' : W) × ((bearer_token_from r.authorization ≡ none)
            ⊎ ((t : String) × (e : GoError) × (bearer_token_from r.authorization ≡ some t)
                × ((validate jwt v t w).0 ≡ err e)))
          × (require_auth jwt next (some v) r (w, h) ≡ (write_unauthorized msg, (w', h))))
        ⊎ ((t : String) × (c : Claims) × (w' : W) × (bearer_token_from r.authorization ≡ some t)
            × ((c.player_id == "") ≡ false)
            × (laws.verifies ("HS256" ∷ []) v.secret t ≡ true)
            × (laws.claims_in t ≡ some c)
            × (c.issuer ≡ v.issuer)
            × IsBefore (v.now w).0 c.expires_at
            × (require_auth jwt next (some v) r (w, h) ≡ (
              (next (with_context (some c) r) h).0,
              (w', (next (with_context (some c) r) h).1),
            )))
  unfolding require_auth
  require_auth_lem v r w h = elim (Option-cases (bearer_token_from r.authorization)) [
    | inl absent ↦ inl (
      "missing or malformed Authorization header",
      w,
      inl absent,
      ap (λ g. with_token jwt next v r g (w, h)) absent,
    )
    | inr (t, given) ↦ elim (validate_lem jwt laws v t w) [
      | inl (e, refused, _) ↦ inl (
        "invalid or expired token",
        (validate jwt v t w).1,
        inr (t, e, given, refused),
        with_answer v r t w h (err e) given refused,
      )
      | inr (c, accepted, _, named, signed, read, issued, alive) ↦ inr (
        t,
        c,
        (validate jwt v t w).1,
        given,
        named,
        signed,
        read,
        issued,
        alive,
        with_answer v r t w h (ok c) given accepted,
      )
    ]
  ]

  -- A login as a player with an ID that is not empty is replied with a token; with that token after
  -- "Bearer " in its header, a request runs the handler with the player's ID in its context, at a time
  -- not before the login and before the expiry that the token shows, where the validator has the
  -- secret and the issuer of the login's issuer.
  pub login_lem :
      (i : Issuer W) (v : Validator W) (player : String) (r : HttpRequest) (w w' : W) (h : H)
      → v.secret ≡ i.secret
      → v.issuer ≡ i.issuer
      → (player == "") ≡ false
      → (i.now w).0 ≤ (v.now w').0
      → (v.now w').0 < jwt.numeric_date ((i.now w).0 + i.ttl)
      → (t : String) × (c : Claims) × (c.player_id ≡ player)
        × (login jwt (some i) (decoded (record { player = player })) w ≡ (
          replied 200 (record { token = t; expires_at = (i.now w).0 + i.ttl; player_id = player }),
          (i.now w).1,
        ))
        × (require_auth jwt next (some v) (with_authorization ("Bearer " <> t) r) (w', h) ≡ (
          (next (with_context (some c) (with_authorization ("Bearer " <> t) r)) h).0,
          (
            (v.now w').1,
            (next (with_context (some c) (with_authorization ("Bearer " <> t) r)) h).1,
          ),
        ))
  unfolding login require_auth
  login_lem i v player r w w' h secret issuer named later alive =
      let c = claims_at jwt i player (i.now w).0 in
      let (t, signed) = laws.signs i.secret c in
      let bearer = "Bearer " <> t in
      let validated =
        signed_validate jwt laws i v player w w' secret issuer named later alive t signed in
      (
        t,
        c,
        refl,
        ap
            (λ (a : Result (String × Time) × W). (
              answer_result (internal "issue token")
                  (λ (issued : String × Time).
                    replied 200
                      (record { token = issued.0; expires_at = issued.1; player_id = player }))
                  a.0,
              a.1,
            ))
            (issue-eq jwt laws i player t w named signed),
        ap (λ g. with_token jwt next v (with_authorization bearer r) g (w', h))
              (bearer_token_lem t (laws.signed_nonempty i.secret c t signed)
                (laws.signed_trimmed i.secret c t signed))
            ∙ ap (λ a. with_claims jwt next (with_authorization bearer r) a.0 a.1 h) validated,
      )
