-- ===== src/Prelude.antt =====
-- What the modules share: library names passed on, Boolean tests, lists over the native numbers,
-- and Go's 64-bit `int`.
mod Lists
pub mod Membership
pub mod Sorting
pub use Lists.*
pub use Prim.Native.Nat.{ℕ, zero, suc, ◌+◌, ◌-◌, ◌*◌, ◌%◌, ◌≤◌, ◌<◌}
pub use Prim.Native.String.{String}
pub use text.Mathlib.Text.{◌==◌}
pub use text.Mathlib.TextEquality.{eq_iff}
pub use mathlib.Core.Path.{◌≡◌, refl, sym, ap, ap₂, ◌∙◌, subst}
pub use mathlib.Core.Logic.{◌≢◌, ◌↔◌, ◌⊎◌, inl, inr}
pub use mathlib.Core.Bool.{Bool, true, false, not, ◌&&◌, ◌||◌}
pub use mathlib.Core.Option.{Option, none, some}
pub use mathlib.Core.List.{List, [], ◌∷◌, ◌++◌, map, append-nil, append_assoc, map-append, foldl}
pub use native.Mathlib.Omega.{arith}
use Prim.Native.Nat.{compare, Ordering}

infix 1 if◌then◌else◌
abbrev pub if◌then◌else◌ {ℓ} : {A : Type ℓ} → Bool → A → A → A
if true then x else _ = x
if false then _ else y = y

abbrev pub ltb : ℕ → ℕ → Bool
ltb a b = elim (compare a b) [ Ordering.lt ↦ true | _ ↦ false ]

abbrev pub leb : ℕ → ℕ → Bool
leb a b = elim (compare a b) [ Ordering.gt ↦ false | _ ↦ true ]

abbrev pub nat_eq : ℕ → ℕ → Bool
nat_eq a b = elim (compare a b) [ Ordering.eq ↦ true | _ ↦ false ]

-- To split on a computed test and keep the equation.
pub Bool-cases : (b : Bool) → (b ≡ true) ⊎ (b ≡ false)
Bool-cases true = inl refl
Bool-cases false = inr refl

pub Option-cases {ℓ} : {A : Type ℓ} (o : Option A) → (o ≡ none) ⊎ ((a : A) × (o ≡ some a))
Option-cases none = inl refl
Option-cases (some a) = inr (a, refl)

-- Go's `int` as its 64-bit pattern: `int_suc n` is `n + 1`, with the wrap-around. A pattern below
-- `int_max` stands for a number that is not negative.
abbrev pub int_mod : ℕ
int_mod = 18446744073709551616

abbrev pub int_max : ℕ
int_max = 9223372036854775807

abbrev pub int_suc : ℕ → ℕ
int_suc n = (n + 1) % int_mod

pub some_of_if {ℓ} :
    {A : Type ℓ} (b : Bool) (x : A) {y : A} → (if b then some x else none) ≡ some y → x ≡ y
some_of_if true x h = cc
some_of_if false x h = cc
