-- ===== src/Base/Float.antt =====
-- What the code does with a `float64`: the constants 0 and 1, `<` and `==`. A float is a value of an
-- abstract type; NaN is a value that is not `==` itself.
use knowledge_mesh.Base.{ltb, nat_beq, ℕ, ◌≡◌, Bool, true, false, Option, some, arith}

pub record Float (F : Type 0) : Type 0 where
  pub nought : F
  pub one : F
  pub lt : F → F → Bool
  pub eq : F → F → Bool

abbrev pub IsNumber : {F : Type 0} ⦃f : Float F⦄ → F → Type 0
IsNumber ⦃f⦄ x = f.eq x x ≡ true

-- How IEEE 754 orders the floats that are not NaN. The two zeros are `==` and not identical.
pub record IsOrdered (F : Type 0) ⦃f : Float F⦄ : Type 0 where
  pub nought_number : IsNumber f.nought
  pub lt_asym : (x y : F) → IsNumber x → IsNumber y → f.lt x y ≡ true → f.lt y x ≡ false
  pub not_lt_trans :
      (x y z : F)
      → IsNumber x
      → IsNumber y
      → IsNumber z
      → f.lt x y ≡ false
      → f.lt y z ≡ false
      → f.lt x z ≡ false
  pub eq_of_not_lt :
      (x y : F) → IsNumber x → IsNumber y → f.lt x y ≡ false → f.lt y x ≡ false → f.eq x y ≡ true
  pub not_lt_of_eq : (x y : F) → f.eq x y ≡ true → (f.lt x y ≡ false) × (f.lt y x ≡ false)

-- The laws can be met: micro-units, with `none` for NaN.
abbrev pub Micros : Type 0
Micros = Option ℕ

abbrev pub on_numbers : (ℕ → ℕ → Bool) → Micros → Micros → Bool
on_numbers test (some a) (some b) = test a b
on_numbers test _ _ = false

instance abbrev pub micros_float : Float Micros
micros_float = record {
  nought = some 0;
  one = some 1000000;
  lt = on_numbers ltb;
  eq = on_numbers nat_beq;
}

pub Micros-IsOrdered : IsOrdered Micros
Micros-IsOrdered = ground arith
