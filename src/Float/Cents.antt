-- ===== src/Float/Cents.antt =====
-- The laws can be met: whole cents, with `none` for NaN.
use Prim.Native.Nat.{◌/◌}
use saga_market_order.Prelude.{ℕ, ◌+◌, ◌-◌, Bool, true, false, Option, none, some, arith, ltb, leb}
use saga_market_order.Float.Laws.{Float, IsFloat}

abbrev pub Cents : Type 0
Cents = Option ℕ

abbrev on_tests : (ℕ → ℕ → Bool) → Cents → Cents → Bool
on_tests f (some a) (some b) = f a b
on_tests f _ _ = false

abbrev on_numbers : (ℕ → ℕ → ℕ) → Cents → Cents → Cents
on_numbers f (some a) (some b) = some (f a b)
on_numbers f _ _ = none

abbrev is_number : Cents → Bool
is_number (some _) = true
is_number none = false

instance abbrev pub cents_float : Float Cents
cents_float = record {
  finite = is_number;
  nought = some 0;
  two = some 2;
  ten = some 10;
  lt = on_tests ltb;
  le = on_tests leb;
  add = on_numbers (λ a b. a + b);
  sub = on_numbers (λ a b. a - b);
  div = on_numbers (λ a b. a / b);
}

pub Cents-IsFloat : IsFloat Cents
Cents-IsFloat = record {
  le_refl = ground arith;
  le_trans = ground arith;
  le_total = ground arith;
  lt-eq-not-le = ground arith;
  sub_nonpos = ground arith;
  sub_pos = ground arith;
  sub_finite = ground arith;
  sub-le = ground arith;
}
