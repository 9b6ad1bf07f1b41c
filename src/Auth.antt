-- ===== src/Auth.antt =====
-- internal/auth/auth.go: the issuer and the validator of tokens, and the claims in a context. The jwt
-- library is a parameter, an interface with what its documentation promises.
use stage_sync.Base.{
  ℕ, ◌+◌, ◌≤◌, ◌<◌, String, ◌<>◌, Bool, true, false, List, [], ◌∷◌, Option, none, some, ◌≡◌, ◌≢◌,
  ◌==◌, string_eq, if◌then◌else◌, not, ◌||◌,
}
use stage_sync.Base.Header.{trim_space}
use stage_sync.Base.Int.{ℤ, pos, leb_ℤ, pos_part}
use stage_sync.Runtime.{
  GoError, sentinel, other, wrap, noted, error_text, Result, ok, err, Action, Time,
}
pub mod RoundTrip
pub mod Tests

-- `Claims`; a time that a token lacks is none.
pub record Claims : Type 0 where
  pub player_id : String
  pub issuer : String
  pub subject : String
  pub issued_at : Option Time
  pub expires_at : Option Time
  pub not_before : Option Time

-- What a parsed token says: its claims, where they are `*Claims`, and `Valid`.
pub record Token : Type 0 where
  pub claims : Option Claims
  pub valid : Bool

-- The options of `jwt.NewParser`.
pub record Parser (W : Type 0) : Type 0 where
  pub valid_methods : List String
  pub issuer : String
  pub time_func : W → Time × W

-- `i.now`, `i.secret`, `i.ttl` and `i.issuer`
pub record Issuer (W : Type 0) : Type 0 where
  pub secret : String
  pub ttl : Time
  pub now : W → Time × W
  pub issuer : String

pub record Validator (W : Type 0) : Type 0 where
  pub secret : String
  pub now : W → Time × W
  pub issuer : String

-- `NewNumericDate`, `SignedString` under HS256 and `ParseWithClaims`.
pub record Jwt (W : Type 0) : Type 0 where
  pub numeric_date : Time → Time
  pub signed_string : String → Claims → Result String
  pub parse_with_claims : Parser W → String → String → Action W Token

-- A time is before an expiry, if there is one.
abbrev pub IsBefore : Time → Option Time → Type 0
IsBefore t none = Unit
IsBefore t (some stop) = t < stop

-- What the documentation promises: a numeric date is a time cut down to a precision; HS256 signs any
-- claims with any bytes, and a token is a text without spaces, not empty; a signed token parses, with
-- the same secret and issuer and HS256 allowed, from its `nbf` on and before its `exp`, to its claims;
-- and a valid token is signed with the parser's secret by one of its methods, shows the claims of its
-- payload, has the parser's issuer and is before its `exp`, if it has one. `verifies` says that a
-- token's signature is by one of the methods and with the secret; `claims_in` reads the payload.
pub record JwtLaws {W : Type 0} (jwt : Jwt W) : Type 0 where
  pub verifies : List String → String → String → Bool
  pub claims_in : String → Option Claims
  pub signed_verifies :
      (secret : String) (c : Claims) (t : String)
      → jwt.signed_string secret c ≡ ok t
      → (verifies ("HS256" ∷ []) secret t ≡ true) × (claims_in t ≡ some c)
  pub numeric_date_le : (t : Time) → jwt.numeric_date t ≤ t
  pub signs : (secret : String) (c : Claims) → (t : String) × (jwt.signed_string secret c ≡ ok t)
  pub signed_nonempty :
      (secret : String) (c : Claims) (t : String)
      → jwt.signed_string secret c ≡ ok t
      → (t == "") ≡ false
  pub signed_trimmed :
      (secret : String) (c : Claims) (t : String)
      → jwt.signed_string secret c ≡ ok t
      → trim_space t ≡ t
  pub parse_signed :
      (secret : String) (c : Claims) (t : String) (time_func : W → Time × W) (start stop : Time)
      (w : W)
      → jwt.signed_string secret c ≡ ok t
      → c.not_before ≡ some start
      → c.expires_at ≡ some stop
      → start ≤ (time_func w).0
      → (time_func w).0 < stop
      → jwt.parse_with_claims
          (record { valid_methods = "HS256" ∷ []; issuer = c.issuer; time_func = time_func })
          secret
          t
          w
        ≡ (ok (record { claims = some c; valid = true }), (time_func w).1)
  pub parse_valid :
      (p : Parser W) (secret t : String) (w w' : W) (token : Token) (c : Claims)
      → jwt.parse_with_claims p secret t w ≡ (ok token, w')
      → token.claims ≡ some c
      → token.valid ≡ true
      → (verifies p.valid_methods secret t ≡ true)
        × (claims_in t ≡ some c)
        × (c.issuer ≡ p.issuer)
        × IsBefore (p.time_func w).0 c.expires_at

abbrev pub err_invalid_token : GoError
err_invalid_token = sentinel "auth.ErrInvalidToken" "auth: invalid token"

abbrev pub invalid_token : String → GoError
invalid_token text = noted err_invalid_token text

-- Options are applied in order.
abbrev pub apply_options : {A : Type 0} → List (A → A) → A → A
apply_options [] a = a
apply_options (o ∷ os) a = apply_options os (o a)

-- The checks after the parser has answered.
unfoldable pub check_token : Result Token → Result Claims
check_token (err e) = err (invalid_token (error_text e))
check_token (ok token) = elim token.claims [
  | none ↦ err err_invalid_token
  | some claims ↦
      if not token.valid
      then err err_invalid_token
      else if claims.player_id == ""
      then err (invalid_token "empty player_id")
      else ok claims
]

module _ {W : Type 0} where
  -- `WithClock` and `WithIssuer`
  abbrev pub with_clock : (W → Time × W) → Issuer W → Issuer W
  with_clock now i = record { secret = i.secret; ttl = i.ttl; now = now; issuer = i.issuer }

  abbrev pub with_issuer : String → Issuer W → Issuer W
  with_issuer name i = record { secret = i.secret; ttl = i.ttl; now = i.now; issuer = name }

  -- `WithValidatorClock` and `WithValidatorIssuer`
  abbrev pub with_validator_clock : (W → Time × W) → Validator W → Validator W
  with_validator_clock now v = record { secret = v.secret; now = now; issuer = v.issuer }

  abbrev pub with_validator_issuer : String → Validator W → Validator W
  with_validator_issuer name v = record { secret = v.secret; now = v.now; issuer = name }

  -- `NewIssuer`; `now` is `time.Now`.
  unfoldable pub new_issuer :
      (W → Time × W) → String → ℤ → List (Issuer W → Issuer W) → Result (Issuer W)
  new_issuer now secret ttl opts =
      if secret == ""
      then err (other "auth: secret must not be empty")
      else if leb_ℤ ttl (pos 0)
      then err (other "auth: ttl must be > 0")
      else ok (
          apply_options opts
            (record { secret = secret; ttl = pos_part ttl; now = now; issuer = "stagesync" }))

  -- `NewValidator`
  unfoldable pub new_validator :
      (W → Time × W) → String → List (Validator W → Validator W) → Option (Validator W)
  new_validator now secret opts =
      if secret == ""
      then none
      else some (apply_options opts (record { secret = secret; now = now; issuer = "stagesync" }))

  abbrev pub parser_of : Validator W → Parser W
  parser_of v = record { valid_methods = "HS256" ∷ []; issuer = v.issuer; time_func = v.now }

  module _ (jwt : Jwt W) where
    abbrev pub claims_at : Issuer W → String → Time → Claims
    claims_at i player_id now = record {
      player_id = player_id;
      issuer = i.issuer;
      subject = player_id;
      issued_at = some (jwt.numeric_date now);
      expires_at = some (jwt.numeric_date (now + i.ttl));
      not_before = some (jwt.numeric_date now);
    }

    -- `Issue`
    unfoldable pub issue : Issuer W → String → Action W (String × Time)
    issue i player_id w =
        if player_id == ""
        then (err (other "auth: playerID must not be empty"), w)
        else let (now, w') = i.now w in
          (
            elim (jwt.signed_string i.secret (claims_at i player_id now)) [
              | ok signed ↦ ok (signed, now + i.ttl)
              | err e ↦ err (wrap "sign token" e)
            ],
            w',
          )

    -- `Validate`
    unfoldable pub validate : Validator W → String → Action W Claims
    unfolding check_token
    validate v token w =
        if token == ""
        then (err err_invalid_token, w)
        else let (r, w') = jwt.parse_with_claims (parser_of v) v.secret token w in
          (check_token r, w')

-- The claims that a request's context holds.
abbrev pub Context : Type 0
Context = Option Claims

-- `InjectClaims`
abbrev pub inject_claims : Context → Claims → Context
inject_claims ctx c = some c

-- `ClaimsFrom`
abbrev pub claims_from : Context → Option Claims
claims_from ctx = ctx

-- `PlayerIDFrom`
abbrev pub player_id_from : Context → Option String
player_id_from ctx = elim (claims_from ctx) [ none ↦ none | some c ↦ some c.player_id ]
