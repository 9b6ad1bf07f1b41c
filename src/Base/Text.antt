-- ===== src/Base/Text.antt =====
-- Go's `<` on strings. The order of UTF-8 bytes is the order of the code points.
use Prim.Native.Char.{code}
use Prim.Native.String.{String}
use mathlib.Core.Path.{◌≡◌, refl, ap₂}
use mathlib.Core.Bool.{Bool, true, false, ◌||◌, ◌&&◌, not}
use native.Mathlib.Omega.{arith}
use stage_sync.Base.Tests.{ltb}
use text.Mathlib.TextEquality.{Char-path}

unfoldable pub text_lt : String → String → Bool
text_lt String.[] String.[] = false
text_lt String.[] (String.◌∷◌ d t) = true
text_lt (String.◌∷◌ c s) String.[] = false
text_lt (String.◌∷◌ c s) (String.◌∷◌ d t) =
    let rest = text_lt s t in ltb (code c) (code d) || not (ltb (code d) (code c)) && rest

pub text_lt_irrefl : (s : String) → text_lt s s ≡ false
unfolding text_lt
text_lt_irrefl String.[] = refl
text_lt_irrefl (String.◌∷◌ c s) = ground (arith, text_lt_irrefl s)

pub text_lt_trans : (s t u : String) → text_lt s t ≡ true → text_lt t u ≡ true → text_lt s u ≡ true
unfolding text_lt
text_lt_trans String.[] String.[] String.[] h k = h
text_lt_trans String.[] (String.◌∷◌ d t) String.[] h k = k
text_lt_trans String.[] t (String.◌∷◌ e u) h k = refl
text_lt_trans (String.◌∷◌ c s) String.[] u h k = ground arith
text_lt_trans (String.◌∷◌ c s) (String.◌∷◌ d t) String.[] h k = ground arith
text_lt_trans (String.◌∷◌ c s) (String.◌∷◌ d t) (String.◌∷◌ e u) h k =
    ground (arith, text_lt_trans s t u)

-- Two strings neither of which comes first are equal.
pub text_lt_tri : (s t : String) → text_lt s t ≡ false → text_lt t s ≡ false → s ≡ t
unfolding text_lt
text_lt_tri String.[] String.[] h k = refl
text_lt_tri String.[] (String.◌∷◌ d t) h k = ground arith
text_lt_tri (String.◌∷◌ c s) String.[] h k = ground arith
text_lt_tri (String.◌∷◌ c s) (String.◌∷◌ d t) h k =
    ap₂ (λ x y. String.◌∷◌ x y) (Char-path c d (ground arith))
      (text_lt_tri s t (ground arith) (ground arith))
