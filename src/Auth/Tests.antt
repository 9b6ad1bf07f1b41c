-- ===== src/Auth/Tests.antt =====
-- Tokens of a library that writes the claims out, and the theorems on them.
use stage_sync.Base.{
  ◌+◌, String, [], ◌∷◌, true, false, none, some, ◌≡◌, refl, ◌⊎◌, ◌==◌, string_eq, arith,
}
use stage_sync.Base.Int.{pos}
use stage_sync.Runtime.{GoError, ok, err, Time, is_error}
use stage_sync.Auth.{Claims, Issuer, Validator, IsBefore, new_issuer, new_validator, validate}
use stage_sync.Auth.RoundTrip.{validate_lem}
pub mod Written
pub mod Plain
use stage_sync.Auth.Tests.Plain.{plain_jwt, plain_laws}

-- The clock stands still.
abbrev pub clock : Time → Time × Time
clock w = (w, w)

abbrev pub issuer : Issuer Time
issuer = record { secret = "key"; ttl = 60; now = clock; issuer = "stagesync" }

abbrev pub validator : Validator Time
validator = record { secret = "key"; now = clock; issuer = "stagesync" }

new_issuer_made : new_issuer clock "key" (pos 60) [] ≡ ok issuer
unfolding new_issuer string_eq
new_issuer_made = refl

new_validator_made : new_validator clock "key" [] ≡ some validator
unfolding new_validator string_eq
new_validator_made = refl

abbrev forged : String
forged = "forged"

validate_lem_example :
    ((e : GoError) × ((validate plain_jwt validator forged 5).0 ≡ err e)
      × (is_error e "auth.ErrInvalidToken" ≡ true))
    ⊎ ((c : Claims) × ((validate plain_jwt validator forged 5).0 ≡ ok c)
        × ((forged == "") ≡ false)
        × ((c.player_id == "") ≡ false)
        × ((plain_laws {W = Time}).verifies ("HS256" ∷ []) "key" forged ≡ true)
        × ((plain_laws {W = Time}).claims_in forged ≡ some c)
        × (c.issuer ≡ "stagesync")
        × IsBefore 5 c.expires_at)
validate_lem_example = validate_lem plain_jwt plain_laws validator forged 5
