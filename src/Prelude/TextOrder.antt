-- ===== src/Prelude/TextOrder.antt =====
-- The order of Python's `str`: lexicographic by code point.
use Prim.Native.Char.{code}
use Prim.Native.String.{String}
use mathlib.Core.Path.{◌≡◌, refl, ap₂}
use mathlib.Core.Bool.{Bool, true, false}
use native.Mathlib.Omega.{arith}
use text.Mathlib.TextEquality.{Char-path}
use secure_swipe.Prelude.Tests.{ltb, nat_beq, if◌then◌else◌}

unfoldable pub str_leb : String → String → Bool
str_leb String.[] t = true
str_leb (String.◌∷◌ c s) String.[] = false
str_leb (String.◌∷◌ c s) (String.◌∷◌ d t) =
    let rest = str_leb s t in if nat_beq (code c) (code d) then rest else ltb (code c) (code d)

pub str_leb-total : (s t : String) → str_leb s t ≡ false → str_leb t s ≡ true
unfolding str_leb
str_leb-total String.[] t h = ground arith
str_leb-total (String.◌∷◌ c s) String.[] h = ground arith
str_leb-total (String.◌∷◌ c s) (String.◌∷◌ d t) h = ground (arith, str_leb-total s t)

pub str_leb_trans : (s t u : String) → str_leb s t ≡ true → str_leb t u ≡ true → str_leb s u ≡ true
unfolding str_leb
str_leb_trans String.[] t u h k = refl
str_leb_trans (String.◌∷◌ c s) String.[] u h k = ground arith
str_leb_trans (String.◌∷◌ c s) (String.◌∷◌ d t) String.[] h k = ground arith
str_leb_trans (String.◌∷◌ c s) (String.◌∷◌ d t) (String.◌∷◌ b u) h k =
    ground (arith, str_leb_trans s t u)

pub str_leb_antisymm : (s t : String) → str_leb s t ≡ true → str_leb t s ≡ true → s ≡ t
unfolding str_leb
str_leb_antisymm String.[] String.[] h k = refl
str_leb_antisymm String.[] (String.◌∷◌ d t) h k = ground arith
str_leb_antisymm (String.◌∷◌ c s) String.[] h k = ground arith
str_leb_antisymm (String.◌∷◌ c s) (String.◌∷◌ d t) h k =
    ap₂ String.◌∷◌ (Char-path c d (ground arith))
      (str_leb_antisymm s t (ground arith) (ground arith))
