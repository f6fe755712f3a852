-- ===== src/Prelude/Json.antt =====
-- A JSON document as Python decodes it: dictionaries keep their order. `F` is the type of floats.
use secure_swipe.Prelude.Equality.{string_eq}
use Prim.Native.String.{String}
use Prim.Native.Nat.{ℕ}
use mathlib.Core.Bool.{Bool, true, false}

mutual
  pub data Json (F : Type 0) : Type 0 where
    null : Json F
    boolean : Bool → Json F
    number : ℕ → Json F
    real : F → Json F
    text : String → Json F
    array : Items F → Json F
    object : Fields F → Json F

  pub data Items (F : Type 0) : Type 0 where
    none_left : Items F
    item : Json F → Items F → Items F

  pub data Fields (F : Type 0) : Type 0 where
    end : Fields F
    field : String → Json F → Fields F → Fields F

module _ {F : Type 0} where
  unfoldable pub is_object : Json F → Bool
  is_object (object fs) = true
  is_object _ = false
