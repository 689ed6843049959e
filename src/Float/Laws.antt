-- ===== src/Float/Laws.antt =====
-- A `float64` and the facts of IEEE 754 that the proofs use.
use saga_market_order.Prelude.{◌≡◌, Bool, true, false, not}

pub record Float (W : Type 0) : Type 0 where
  -- Neither a NaN nor an infinity; no code calls it.
  pub finite : W → Bool
  pub nought : W
  pub two : W
  pub ten : W
  pub lt : W → W → Bool
  pub le : W → W → Bool
  pub add : W → W → W
  pub sub : W → W → W
  pub div : W → W → W

-- A difference of two values that are not equal is
-- not 0, because of the subnormal numbers.
pub record IsFloat (W : Type 0) ⦃f : Float W⦄ : Type 0 where
  pub le_refl : (x : W) → f.finite x ≡ true → f.le x x ≡ true
  pub le_trans :
      (x y z : W)
      → f.finite x ≡ true
      → f.finite y ≡ true
      → f.finite z ≡ true
      → f.le x y ≡ true
      → f.le y z ≡ true
      → f.le x z ≡ true
  pub le_total :
      (x y : W) → f.finite x ≡ true → f.finite y ≡ true → f.le x y ≡ false → f.le y x ≡ true
  pub lt-eq-not-le : (x y : W) → f.finite x ≡ true → f.finite y ≡ true → f.lt x y ≡ not (f.le y x)
  pub sub_nonpos :
      (x y : W)
      → f.finite x ≡ true
      → f.finite y ≡ true
      → f.le x y ≡ true
      → f.le (f.sub x y) f.nought ≡ true
  pub sub_pos :
      (x y : W)
      → f.finite x ≡ true
      → f.finite y ≡ true
      → f.lt x y ≡ true
      → f.le (f.sub y x) f.nought ≡ false
  -- The difference of two positive values is below the larger one.
  pub sub_finite :
      (x y : W)
      → f.finite x ≡ true
      → f.finite y ≡ true
      → f.le x f.nought ≡ false
      → f.lt x y ≡ true
      → f.finite (f.sub y x) ≡ true
  pub sub-le :
      (x y : W)
      → f.finite x ≡ true
      → f.finite y ≡ true
      → f.le x f.nought ≡ false
      → f.lt x y ≡ true
      → f.le (f.sub y x) y ≡ true
