-- ===== src/Auth/Tests/Plain.antt =====
-- A library of tokens that keeps the laws of the jwt library, without any secrecy: a token is the
-- secret and the claims, written out.
use stage_sync.Base.{
  ◌≤◌, ◌<◌, String, Bool, true, false, List, [], ◌∷◌, Option, none, some, ◌≡◌, refl, ap, ◌∙◌, ◌==◌,
  string_eq, nat_eq, if◌then◌else◌, ◌&&◌, ◌||◌, leb, ltb, arith, subst, ==_refl, eq_of_==,
}
use stage_sync.Runtime.{other, ok, err, Result, Time}
use stage_sync.Auth.{Claims, Token, Parser, Jwt, JwtLaws, IsBefore}
use stage_sync.Auth.Tests.Written.{written, read, read-written, written-IsSolid, written-trimmed}

abbrev allows : List String → Bool
allows [] = false
allows (m ∷ ms) = (m == "HS256") || allows ms

abbrev is_before : Time → Option Time → Bool
is_before t none = true
is_before t (some stop) = ltb t stop

abbrev is_since : Time → Option Time → Bool
is_since t none = true
is_since t (some start) = leb start t

-- The checks of the parser: the secret, the method, the issuer and the times.
abbrev passes : {W : Type 0} → Parser W → String → Time → String × Claims → Bool
passes p secret now (by, c) =
    (by == secret)
    && allows p.valid_methods
    && (c.issuer == p.issuer)
    && is_before now c.expires_at
    && is_since now c.not_before

unfoldable pub parse_checked :
    {W : Type 0} → Parser W → String → Time → String × Claims → Result Token
parse_checked p secret now t =
    if passes p secret now t
    then ok (record { claims = some t.1; valid = true })
    else err (other "token is invalid")

abbrev pub plain_jwt : {W : Type 0} → Jwt W
plain_jwt = record {
  numeric_date = λ t. t;
  signed_string = λ secret c. ok (written secret c);
  parse_with_claims =
      λ p secret t w. (parse_checked p secret (p.time_func w).0 (read t), (p.time_func w).1);
}

signed_eq :
    (secret t : String) (c : Claims)
    → Path (Result String) (ok (written secret c)) (ok t)
    → written secret c ≡ t
signed_eq secret t c h =
    ap (λ (r : Result String). elim r as (λ _. String) [ ok s ↦ s | err e ↦ "" ]) h

parse_written :
    {W : Type 0} (secret : String) (c : Claims) (t : String) (time_func : W → Time × W)
    (start stop : Time) (w : W)
    → written secret c ≡ t
    → c.not_before ≡ some start
    → c.expires_at ≡ some stop
    → start ≤ (time_func w).0
    → (time_func w).0 < stop
    → parse_checked
        (record { valid_methods = "HS256" ∷ []; issuer = c.issuer; time_func = time_func })
        secret
        (time_func w).0
        (read t)
      ≡ ok (record { claims = some c; valid = true })
unfolding parse_checked
parse_written secret c t time_func start stop w signed from til began alive =
    rw (← signed, read-written secret c, from, til, ==_refl secret, ==_refl c.issuer) (ground arith)

before : (t : Time) (stop : Option Time) → is_before t stop ≡ true → IsBefore t stop
before t none h = tt
before t (some stop) h = ground arith

passes-before :
    {W : Type 0} (p : Parser W) (secret : String) (now : Time) (t : String × Claims)
    → passes p secret now t ≡ true
    → (allows p.valid_methods && (t.0 == secret) ≡ true)
      × (t.1.issuer ≡ p.issuer)
      × IsBefore now t.1.expires_at
passes-before p secret now (by, c) h = (
  ground arith,
  ground (arith, eq_of_== c.issuer p.issuer),
  before now c.expires_at (ground arith),
)

claims_of : Claims → Result Token → Claims
claims_of d (ok token) = elim token.claims [ none ↦ d | some c ↦ c ]
claims_of d (err e) = d

checked_claims :
    (b : Bool) (d c : Claims) (token : Token)
    → Path
        (Result Token)
        (if b
          then ok (record { claims = some d; valid = true })
          else err (other "token is invalid"))
        (ok token)
    → token.claims ≡ some c
    → (b ≡ true) × (d ≡ c)
unfolding claims_of
checked_claims true d c token h k =
    (refl, ap (claims_of d) h ∙ ap (λ (o : Option Claims). elim o [ none ↦ d | some c ↦ c ]) k)
checked_claims false d c token h k = ground arith

checked_valid :
    {W : Type 0} (p : Parser W) (secret : String) (now : Time) (t : String × Claims) (token : Token)
    (c : Claims)
    → parse_checked p secret now t ≡ ok token
    → token.claims ≡ some c
    → (allows p.valid_methods && (t.0 == secret) ≡ true)
      × (some t.1 ≡ some c)
      × (c.issuer ≡ p.issuer)
      × IsBefore now c.expires_at
unfolding parse_checked
checked_valid p secret now t token c answered claimed =
    let (passed, same) = checked_claims (passes p secret now t) t.1 c token answered claimed in
    let (checked, issued, alive) = passes-before p secret now t passed in
    let own = λ (d : Claims). (d.issuer ≡ p.issuer) × IsBefore now d.expires_at in
    let later = subst own same (issued, alive) in (checked, ap some same, later.0, later.1)

abbrev plain_verifies : List String → String → String → Bool
plain_verifies methods secret t = allows methods && ((read t).0 == secret)

abbrev plain_claims_in : String → Option Claims
plain_claims_in t = some (read t).1

pub plain_laws : {W : Type 0} → JwtLaws (plain_jwt {W = W})
unfolding string_eq
plain_laws = record {
  verifies = plain_verifies;
  claims_in = plain_claims_in;
  signed_verifies = λ secret c t h.
      rw (← signed_eq secret t c h, read-written secret c, ==_refl secret) (refl, refl);
  numeric_date_le = λ t. omega arith;
  signs = λ secret c. (written secret c, refl);
  signed_nonempty =
      λ secret c t h. rw (← signed_eq secret t c h) (written-IsSolid secret c).present;
  signed_trimmed = λ secret c t h. rw (← signed_eq secret t c h) (written-trimmed secret c);
  parse_signed = λ secret c t time_func start stop w signed from til began alive.
      ap (λ r. (r, (time_func w).1))
        (parse_written secret c t time_func start stop w (signed_eq secret t c signed) from til
          began alive);
  parse_valid = λ p secret t w w' token c answered claimed valid.
      checked_valid p secret (p.time_func w).0 (read t) token c (ap (λ x. x.0) answered) claimed;
}
