-- ===== src/Config/Bounds.antt =====
-- internal/config/config.go: the values that a loaded configuration can have, and that the server can
-- build its authentication from them.
use stage_sync.Base.{
  String, Bool, true, false, Option, none, some, ◌≡◌, refl, ap, sym, [], ◌∙◌, ◌==◌, string_eq,
  arith, ◌⊎◌, inl, inr, Bool-cases, if◌then◌else◌, not, eq_of_==,
}
use stage_sync.Base.Int.{ℤ, pos, negsuc, pos_part, ◌<ℤ◌, leb_ℤ}
use stage_sync.Runtime.{GoError, Result, ok, err, Time}
use stage_sync.Auth.{Issuer, Validator, new_issuer, new_validator}
use stage_sync.Config.{Config, Text, is_log_level, validate, read_config, load, build_auth}

-- The values that `validate` lets through.
pub record IsValid {F : Type 0} (text : Text F) (c : Config F) : Type 0 where
  pub level : is_log_level c.log_level ≡ true
  pub shutdown : pos 0 <ℤ c.shutdown_timeout
  pub request : pos 0 <ℤ c.request_timeout
  pub token : pos 0 <ℤ c.auth_token_ttl
  pub rate : text.is_negative c.rate_limit_rps ≡ false
  pub burst : pos 0 <ℤ c.rate_limit_burst
  pub idempotency : pos 0 <ℤ c.idempotency_ttl

-- A guard that gave no error.
passed :
    (failed : Bool) (e : GoError) (rest : Option GoError)
    → (if failed then some e else rest) ≡ none
    → (failed ≡ false) × (rest ≡ none)
passed true e rest h = ground arith
passed false e rest h = (refl, h)

test_passed : (b : Bool) → not b ≡ false → b ≡ true
test_passed true h = refl
test_passed false h = ground arith

is_positive : (a : ℤ) → leb_ℤ a (pos 0) ≡ false → pos 0 <ℤ a
is_positive a h = ground arith

validate-IsValid :
    {F : Type 0} (text : Text F) (c : Config F) → validate text c ≡ none → IsValid text c
unfolding validate
validate-IsValid text c h =
    let (level, h1) = passed (not (is_log_level c.log_level)) _ _ h in
    let (shutdown, h2) = passed (leb_ℤ c.shutdown_timeout (pos 0)) _ _ h1 in
    let (request, h3) = passed (leb_ℤ c.request_timeout (pos 0)) _ _ h2 in
    let (token, h4) = passed (leb_ℤ c.auth_token_ttl (pos 0)) _ _ h3 in
    let (rate, h5) = passed (text.is_negative c.rate_limit_rps) _ _ h4 in
    let (burst, h6) = passed (leb_ℤ c.rate_limit_burst (pos 0)) _ _ h5 in
    let (idempotency, h7) = passed (leb_ℤ c.idempotency_ttl (pos 0)) _ _ h6 in
    record {
      level = test_passed (is_log_level c.log_level) level;
      shutdown = is_positive c.shutdown_timeout shutdown;
      request = is_positive c.request_timeout request;
      token = is_positive c.auth_token_ttl token;
      rate = rate;
      burst = is_positive c.rate_limit_burst burst;
      idempotency = is_positive c.idempotency_ttl idempotency;
    }

module _ {W : Type 0} (now : W → Time × W) (secret : String) (ttl : ℤ) where
  -- The issuer and the validator that the server builds from a secret and a positive lifetime.
  validator_built :
      (secret == "") ≡ false
      → new_validator now secret []
        ≡ some (record { secret = secret; now = now; issuer = "stagesync" })
  unfolding new_validator
  validator_built present = rw (new_validator, present) refl

  built :
      (secret == "") ≡ false
      → leb_ℤ ttl (pos 0) ≡ false
      → build_auth now secret ttl
        ≡ ok (
          some (record { secret = secret; ttl = pos_part ttl; now = now; issuer = "stagesync" }),
          some (record { secret = secret; now = now; issuer = "stagesync" }),
        )
  unfolding build_auth new_issuer
  built present positive =
      rw (build_auth, new_issuer, present, positive)
        (ap
          (λ (v : Option (Validator W)). ok (
            some (record { secret = secret; ttl = pos_part ttl; now = now; issuer = "stagesync" }),
            v,
          ))
          (validator_built present))

  not_built : (secret == "") ≡ true → build_auth now secret ttl ≡ ok (none, none)
  unfolding build_auth
  not_built empty = rw (build_auth, empty) refl

-- The configuration that was read, where it passed.
loaded :
    {F : Type 0} (o : Option GoError) (d c : Config F)
    → (elim o as (λ _. Result (Config F)) [ some e ↦ err e | none ↦ ok d ]) ≡ ok c
    → (o ≡ none) × (d ≡ c)
loaded (some e) d c h = ground arith
loaded none d c h = (refl, ap (λ (r : Result (Config _)). elim r [ ok x ↦ x | err e ↦ d ]) h)

positive_parts : (a : ℤ) → pos 0 <ℤ a → (leb_ℤ a (pos 0) ≡ false) × (pos (pos_part a) ≡ a)
positive_parts (pos n) h = (ground arith, refl)
positive_parts (negsuc n) h = ground arith

-- A configuration that `Load` returns has one of the four log levels, a rate that is not negative, a
-- positive burst, and positive times; and with it `buildAuth` succeeds: without a secret it builds
-- nothing, and with one an issuer and a validator with the same secret and issuer, and the issuer's
-- tokens live as long as configured.
pub load_lem :
    {F W : Type 0} (text : Text F) (getenv : String → String) (now : W → Time × W) (c : Config F)
    → load text getenv ≡ ok c
    → IsValid text c
      × (((c.auth_secret ≡ "") × (build_auth now c.auth_secret c.auth_token_ttl ≡ ok (none, none)))
          ⊎ ((i : Issuer W) × (v : Validator W) × (build_auth now c.auth_secret c.auth_token_ttl
                ≡ ok (some i, some v))
              × (v.secret ≡ i.secret)
              × (v.issuer ≡ i.issuer)
              × (pos i.ttl ≡ c.auth_token_ttl)))
unfolding load
load_lem text getenv now c h =
    let (passes, same) =
      loaded (validate text (read_config text getenv)) (read_config text getenv) c h in
    let valid = validate-IsValid text c (sym (ap (validate text) same) ∙ passes) in
    let (positive, whole) = positive_parts c.auth_token_ttl valid.token in
    (
      valid,
      elim (Bool-cases (c.auth_secret == "")) [
        | inl empty ↦
            inl
              (eq_of_== c.auth_secret "" empty, not_built now c.auth_secret c.auth_token_ttl empty)
        | inr present ↦
            inr (_, _, built now c.auth_secret c.auth_token_ttl present positive, refl, refl, whole)
      ],
    )
