-- ===== src/Auth/RoundTrip.antt =====
-- internal/auth/auth.go: what the validator accepts, and that it accepts what is signed by the issuer.
use stage_sync.Base.{
  Option, ◌+◌, ◌≤◌, ◌<◌, String, ◌≡◌, refl, ap, true, false, none, some, ◌⊎◌, inl, inr, ◌==◌,
  string_eq, arith, Bool, Bool-cases, [], ◌∷◌,
}
use stage_sync.Runtime.{GoError, Result, ok, err, is_error, error_text}
use stage_sync.Auth.{
  Claims, Token, IsBefore, Jwt, JwtLaws, Issuer, Validator, issue, validate, check_token, claims_at,
  parser_of, invalid_token, err_invalid_token,
}

module _ {W : Type 0} (jwt : Jwt W) (laws : JwtLaws jwt) where
  pub issue-eq :
      (i : Issuer W) (player_id t : String) (w : W)
      → (player_id == "") ≡ false
      → jwt.signed_string i.secret (claims_at jwt i player_id (i.now w).0) ≡ ok t
      → issue jwt i player_id w ≡ (ok (t, (i.now w).0 + i.ttl), (i.now w).1)
  unfolding issue
  issue-eq i player_id t w named signed = rw (issue, named, signed) refl

  validate-eq :
      (v : Validator W) (c : Claims) (t : String) (w : W)
      → (t == "") ≡ false
      → (c.player_id == "") ≡ false
      → jwt.parse_with_claims (parser_of v) v.secret t w
        ≡ (ok (record { claims = some c; valid = true }), (v.now w).1)
      → validate jwt v t w ≡ (ok c, (v.now w).1)
  unfolding validate check_token
  validate-eq v c t w present named parsed = rw (validate, present, parsed, named) refl

  module _ (i : Issuer W) (v : Validator W) (player_id : String) (w w' : W)
      (secret : v.secret ≡ i.secret) (issuer : v.issuer ≡ i.issuer)
      (named : (player_id == "") ≡ false) (later : (i.now w).0 ≤ (v.now w').0)
      (alive : (v.now w').0 < jwt.numeric_date ((i.now w).0 + i.ttl)) where
    pub signed_validate :
        (t : String)
        → jwt.signed_string i.secret (claims_at jwt i player_id (i.now w).0) ≡ ok t
        → validate jwt v t w' ≡ (ok (claims_at jwt i player_id (i.now w).0), (v.now w').1)
    signed_validate t signed =
        let c = claims_at jwt i player_id (i.now w).0 in
        let start = jwt.numeric_date (i.now w).0 in
        validate-eq v c t w' (laws.signed_nonempty i.secret c t signed) named (
          rw (secret, issuer)
            (laws.parse_signed i.secret c t v.now start (jwt.numeric_date ((i.now w).0 + i.ttl)) w'
              signed refl refl (omega (arith, laws.numeric_date_le (i.now w).0, later)) alive))

-- The checks after the parser refuse its answer, or let through the claims of a valid token that
-- names a player.
abbrev Checked : Result Token → Type 0
Checked r =
    ((e : GoError) × (check_token r ≡ err e) × (is_error e "auth.ErrInvalidToken" ≡ true))
    ⊎ ((token : Token) × (c : Claims) × (r ≡ ok token)
        × (token.claims ≡ some c)
        × (token.valid ≡ true)
        × ((c.player_id == "") ≡ false)
        × (check_token r ≡ ok c))

check_claims :
    (c : Claims) (valid : Bool) → Checked (ok (record { claims = some c; valid = valid }))
unfolding check_token is_error string_eq
check_claims c false = inl (err_invalid_token, refl, refl)
check_claims c true = elim (Bool-cases (c.player_id == "")) [
  | inl h ↦ inl (invalid_token "empty player_id", rw (check_token, h) refl, refl)
  | inr h ↦ inr (_, c, refl, refl, refl, h, rw (check_token, h) refl)
]

check_answer :
    (claims : Option Claims) (valid : Bool)
    → Checked (ok (record { claims = claims; valid = valid }))
unfolding check_token is_error string_eq
check_answer none valid = inl (err_invalid_token, refl, refl)
check_answer (some c) valid = check_claims c valid

check_token_cases : (r : Result Token) → Checked r
unfolding check_token is_error string_eq
check_token_cases (err e) = inl (invalid_token (error_text e), refl, refl)
check_token_cases (ok token) = check_answer token.claims token.valid

-- `Validate` either refuses a token with an error that `errors.Is` recognises as ErrInvalidToken, or
-- returns the claims of the token, whose signature verifies under HS256 with the validator's secret:
-- claims that name a player, were issued under the validator's issuer, and have not expired, if they
-- have an expiry; an empty token is refused.
pub validate_lem :
    {W : Type 0} (jwt : Jwt W) (laws : JwtLaws jwt) (v : Validator W) (t : String) (w : W)
    → ((e : GoError) × ((validate jwt v t w).0 ≡ err e)
        × (is_error e "auth.ErrInvalidToken" ≡ true))
      ⊎ ((c : Claims) × ((validate jwt v t w).0 ≡ ok c)
          × ((t == "") ≡ false)
          × ((c.player_id == "") ≡ false)
          × (laws.verifies ("HS256" ∷ []) v.secret t ≡ true)
          × (laws.claims_in t ≡ some c)
          × (c.issuer ≡ v.issuer)
          × IsBefore (v.now w).0 c.expires_at)
unfolding validate is_error string_eq
validate_lem jwt laws v t w = elim (Bool-cases (t == "")) [
  | inl empty ↦ inl (err_invalid_token, rw (validate, empty) refl, refl)
  | inr present ↦
      let parsed = jwt.parse_with_claims (parser_of v) v.secret t w in
      elim (check_token_cases parsed.0) [
        | inl (e, refused, invalid) ↦ inl (e, rw (validate, present) refused, invalid)
        | inr (token, c, answered, claimed, valid, named, passed) ↦
            let (signed, read, issued, alive) =
              laws.parse_valid (parser_of v) v.secret t w parsed.1 token c
                (ap (λ r. (r, parsed.1)) answered) claimed valid in
            inr (c, rw (validate, present) passed, present, named, signed, read, issued, alive)
      ]
]
