-- ===== src/Base/Header.antt =====
-- What the code does with texts in headers: `strings.EqualFold` with a prefix, `strings.TrimSpace`.
use Prim.Native.Nat.{ℕ, ◌+◌}
use Prim.Native.Char.{code}
use Prim.Native.String.{String, ◌++◌ as ◌<>◌}
use Prim.Native.String.append
use mathlib.Core.Path.{◌≡◌, ap, sym, ◌∙◌}
use mathlib.Core.Logic.{inl, inr}
use mathlib.Core.Bool.{Bool, true, false, ◌||◌, ◌&&◌}
use mathlib.Core.Option.{Option, none, some}
use native.Mathlib.Omega.{arith}
use stage_sync.Base.Tests.{leb, if◌then◌else◌, Bool-cases}
use stage_sync.Base.Equality.{◌==◌, eq_of_==, nat_eq, string_eq}

-- An ASCII letter is put in lower case.
abbrev lower : ℕ → ℕ
lower n = if leb 65 n && leb n 90 then n + 32 else n

-- What follows a prefix of ASCII characters other than `k` and `s`, which no other characters fold to,
-- in whichever case it is written.
unfoldable pub after_prefix : String → String → Option String
after_prefix String.[] s = some s
after_prefix (String.◌∷◌ c p) String.[] = none
after_prefix (String.◌∷◌ c p) (String.◌∷◌ d s) =
    let rest = after_prefix p s in if lower (code c) == lower (code d) then rest else none

-- `unicode.IsSpace`
abbrev pub is_space : ℕ → Bool
is_space n =
    leb 9 n && leb n 13
    || (n == 32)
    || (n == 133)
    || (n == 160)
    || (n == 5760)
    || leb 8192 n && leb n 8202
    || (n == 8232)
    || (n == 8233)
    || (n == 8239)
    || (n == 8287)
    || (n == 12288)

unfoldable pub trim_left : String → String
trim_left String.[] = String.[]
trim_left (String.◌∷◌ c s) =
    let rest = trim_left s in if is_space (code c) then rest else String.◌∷◌ c s

unfoldable pub trim_right : String → String
trim_right String.[] = String.[]
trim_right (String.◌∷◌ c s) =
    let rest = trim_right s in
    if (rest == String.[]) && is_space (code c) then String.[] else String.◌∷◌ c rest

-- `strings.TrimSpace`
unfoldable pub trim_space : String → String
unfolding trim_left trim_right
trim_space s = trim_right (trim_left s)

-- What is appended to a prefix follows it.
pub after_prefix-append :
    (p q t : String) → after_prefix p q ≡ some "" → after_prefix p (q <> t) ≡ some t
unfolding after_prefix
after_prefix-append String.[] q t h = cc (h, append.nil t)
after_prefix-append (String.◌∷◌ c p) String.[] t h = ground arith
after_prefix-append (String.◌∷◌ c p) (String.◌∷◌ d q) t h =
    rw (append.cons d q t) (ground (arith, after_prefix-append p q t))

abbrev pub starts : String → Bool
starts String.[] = false
starts (String.◌∷◌ c s) = true

-- What has a prefix that is not empty is not empty.
pub prefix_nonempty : (p s : String) → starts p ≡ true → (p <> s == "") ≡ false
prefix_nonempty String.[] s h = absurd (ground arith)
prefix_nonempty (String.◌∷◌ c p) s h = elim (Bool-cases (String.◌∷◌ c p <> s == "")) [
  | inl e ↦
      absurd (nonempty (ap starts (sym (append.cons c p s) ∙ eq_of_== (String.◌∷◌ c p <> s) "" e)))
  | inr e ↦ e
]
  where
    nonempty : ¬ (true ≡ false)
    nonempty e = ground arith
