-- ===== src/Auth/Tests/Written.antt =====
-- A secret and claims, written out as a text that can be read back.
use Prim.Native.Char.{Char, code}
use stage_sync.Base.{
  ℕ, zero, suc, String, Bool, true, false, Option, none, some, ◌≡◌, refl, ap, ◌==◌, string_eq,
  nat_eq, if◌then◌else◌, arith, eq_of_==, Bool-cases, inl, inr,
}
use stage_sync.Base.Header.{trim_space, trim_left, trim_right}
use stage_sync.Runtime.{Time}
use stage_sync.Auth.{Claims}

-- A text is written with a mark before each character and another mark at its end; so is a number.
unfoldable pub write_text : String → String → String
write_text String.[] k = String.◌∷◌ ";" k
write_text (String.◌∷◌ c s) k = String.◌∷◌ "x" (String.◌∷◌ c (write_text s k))

unfoldable pub write_number : ℕ → String → String
write_number zero k = String.◌∷◌ ";" k
write_number (suc n) k = String.◌∷◌ "x" (write_number n k)

unfoldable pub write_time : Option Time → String → String
unfolding write_number
write_time none k = String.◌∷◌ ";" k
write_time (some t) k = String.◌∷◌ "x" (write_number t k)

unfoldable pub read_text : String → String × String
read_text String.[] = (String.[], String.[])
read_text (String.◌∷◌ m String.[]) = (String.[], String.[])
read_text (String.◌∷◌ m (String.◌∷◌ c k)) =
    let rest = read_text k in
    if code m == 120 then (String.◌∷◌ c rest.0, rest.1) else (String.[], String.◌∷◌ c k)

unfoldable pub read_number : String → ℕ × String
read_number String.[] = (0, String.[])
read_number (String.◌∷◌ m k) =
    let rest = read_number k in if code m == 120 then (suc rest.0, rest.1) else (0, k)

unfoldable pub read_time : String → Option Time × String
unfolding read_number
read_time String.[] = (none, String.[])
read_time (String.◌∷◌ m k) =
    let rest = read_number k in if code m == 120 then (some rest.0, rest.1) else (none, k)

read-write_text : (s k : String) → read_text (write_text s k) ≡ (s, k)
unfolding write_text read_text nat_eq
read-write_text String.[] String.[] = refl
read-write_text String.[] (String.◌∷◌ c k) = refl
read-write_text (String.◌∷◌ d s) k =
    ap (λ (r : String × String). (String.◌∷◌ d r.0, r.1)) (read-write_text s k)

read-write_number : (n : ℕ) (k : String) → read_number (write_number n k) ≡ (n, k)
unfolding write_number read_number nat_eq
read-write_number zero k = refl
read-write_number (suc n) k = ap (λ (r : ℕ × String). (suc r.0, r.1)) (read-write_number n k)

read-write_time : (t : Option Time) (k : String) → read_time (write_time t k) ≡ (t, k)
unfolding write_time read_time write_number read_number nat_eq
read-write_time none k = refl
read-write_time (some t) k = ap (λ (r : ℕ × String). (some r.0, r.1)) (read-write_number t k)

-- A text that is not empty and does not end in a space.
pub record IsSolid (s : String) : Type 0 where
  pub trimmed : trim_right s ≡ s
  pub present : (s == "") ≡ false

abbrev is_empty : String → Bool
is_empty String.[] = true
is_empty (String.◌∷◌ c s) = false

cons_nonempty : (c : Char) (s : String) → (String.◌∷◌ c s == "") ≡ false
cons_nonempty c s = elim (Bool-cases (String.◌∷◌ c s == "")) [
  | inl same ↦ ground (arith, ap is_empty (eq_of_== (String.◌∷◌ c s) "" same))
  | inr differs ↦ differs
]

cons-IsSolid : (c : Char) (s : String) → IsSolid s → IsSolid (String.◌∷◌ c s)
unfolding trim_right
cons-IsSolid c s h = record {
  trimmed = rw (h.trimmed, h.present) refl;
  present = cons_nonempty c s;
}

write_text-IsSolid : (s k : String) → IsSolid k → IsSolid (write_text s k)
unfolding write_text
write_text-IsSolid String.[] k h = cons-IsSolid ";" k h
write_text-IsSolid (String.◌∷◌ c s) k h =
    cons-IsSolid "x" (String.◌∷◌ c (write_text s k))
      (cons-IsSolid c (write_text s k) (write_text-IsSolid s k h))

write_number-IsSolid : (n : ℕ) (k : String) → IsSolid k → IsSolid (write_number n k)
unfolding write_number
write_number-IsSolid zero k h = cons-IsSolid ";" k h
write_number-IsSolid (suc n) k h = cons-IsSolid "x" (write_number n k) (write_number-IsSolid n k h)

write_time-IsSolid : (t : Option Time) (k : String) → IsSolid k → IsSolid (write_time t k)
unfolding write_time write_number
write_time-IsSolid none k h = cons-IsSolid ";" k h
write_time-IsSolid (some t) k h = cons-IsSolid "x" (write_number t k) (write_number-IsSolid t k h)

-- The token: its first character is a mark, its last one a bracket.
unfoldable pub written : String → Claims → String
unfolding write_text write_number write_time
written secret c = String.◌∷◌ "[" (
    write_text secret (
      write_text c.player_id (
        write_text c.issuer (
          write_text c.subject
            (write_time c.issued_at (write_time c.expires_at (write_time c.not_before "]")))))))

-- The secret and the claims of a token.
unfoldable pub read : String → String × Claims
unfolding read_text read_number read_time
read String.[] = (
  "",
  record {
    player_id = "";
    issuer = "";
    subject = "";
    issued_at = none;
    expires_at = none;
    not_before = none;
  },
)
read (String.◌∷◌ m k) =
    let secret = read_text k in
    let player_id = read_text secret.1 in
    let issuer = read_text player_id.1 in
    let subject = read_text issuer.1 in
    let issued_at = read_time subject.1 in
    let expires_at = read_time issued_at.1 in
    let not_before = read_time expires_at.1 in
    (
      secret.0,
      record {
        player_id = player_id.0;
        issuer = issuer.0;
        subject = subject.0;
        issued_at = issued_at.0;
        expires_at = expires_at.0;
        not_before = not_before.0;
      },
    )

pub read-written : (secret : String) (c : Claims) → read (written secret c) ≡ (secret, c)
unfolding read written
read-written secret c =
    let k6 = write_time c.not_before "]" in
    let k5 = write_time c.expires_at k6 in
    let k4 = write_time c.issued_at k5 in
    let k3 = write_text c.subject k4 in
    let k2 = write_text c.issuer k3 in
    let k1 = write_text c.player_id k2 in
    rw
      (
        read-write_text secret k1,
        read-write_text c.player_id k2,
        read-write_text c.issuer k3,
        read-write_text c.subject k4,
        read-write_time c.issued_at k5,
        read-write_time c.expires_at k6,
        read-write_time c.not_before "]",
      )
      refl

pub written-IsSolid : (secret : String) (c : Claims) → IsSolid (written secret c)
unfolding written trim_right string_eq nat_eq
written-IsSolid secret c = cons-IsSolid "[" _ (
    write_text-IsSolid secret _ (
      write_text-IsSolid c.player_id _ (
        write_text-IsSolid c.issuer _ (
          write_text-IsSolid c.subject _ (
            write_time-IsSolid c.issued_at _ (
              write_time-IsSolid c.expires_at _ (
                write_time-IsSolid c.not_before "]"
                  (record { trimmed = refl; present = refl }))))))))

pub written-trimmed :
    (secret : String) (c : Claims) → trim_space (written secret c) ≡ written secret c
unfolding trim_space trim_left written nat_eq
written-trimmed secret c = (written-IsSolid secret c).trimmed
