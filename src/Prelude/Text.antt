-- ===== src/Prelude/Text.antt =====
-- Tests on the characters of a text: hexadecimal digests, ASCII, and bounded identifiers.
use Prim.Native.Char.{code}
use Prim.Native.String.{String}
use Prim.Native.Nat.{ℕ}
use mathlib.Core.Bool.{Bool, true, ◌&&◌, ◌||◌}
use mathlib.Core.List.{List, [], ◌∷◌}
use secure_swipe.Prelude.Tests.{ltb, leb, nat_beq}
use secure_swipe.Prelude.Lists.{length}

-- The code points of a text, which `len` counts.
unfoldable pub codes : String → List ℕ
codes String.[] = []
codes (String.◌∷◌ c s) = code c ∷ codes s

unfoldable pub every {ℓ} : {A : Type ℓ} → (A → Bool) → List A → Bool
every p [] = true
every p (x ∷ xs) = p x && every p xs

abbrev pub is_digit : ℕ → Bool
is_digit c = leb b'0' c && leb c b'9'

abbrev pub is_lower_hex : ℕ → Bool
is_lower_hex c = is_digit c || (leb b'a' c && leb c b'f')

-- 64 lowercase hexadecimal digits
unfoldable pub is_sha256 : String → Bool
unfolding codes every
is_sha256 s = nat_beq (length (codes s)) 64 && every is_lower_hex (codes s)

unfoldable pub is_ascii : String → Bool
unfolding codes every
is_ascii s = every (λ c. ltb c 128) (codes s)
