-- ===== src/Prelude/Value.antt =====
-- A value of Python's dynamic typing, as far as the modelled code looks at it: by `isinstance`
-- tests for `bool`, `int` and `str`. Every other type is `other`; the code never reads inside it.
use mathlib.Core.Bool.{Bool}
use Prim.Native.String.{String}
use secure_swipe.Prelude.Int.{ℤ}

pub data Value : Type 0 where
  boolean : Bool → Value
  integer : ℤ → Value
  text : String → Value
  other : Value
