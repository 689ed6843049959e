-- ===== src/Result.antt =====
-- A call's result in the layers above the domain: the value, or a Go `error`.
use saga_market_order.Prelude.{String, ◌≡◌, refl, ◌⊎◌, inl, inr}
use saga_market_order.Order.Aggregate as OrderAggregate
use saga_market_order.Position.Aggregate as PositionAggregate

-- `text` is an `errors.New`, or the message of an error of a library; `wrap` is `fmt.Errorf` with
-- a `%w`; the others are the errors of the aggregates.
pub data Failure (W : Type 0) : Type 0 where
  text : String → Failure W
  wrap : String → Failure W → Failure W
  of_order : OrderAggregate.Error W → Failure W
  of_position : PositionAggregate.Error → Failure W

pub data Result (W : Type 0) (A : Type 0) : Type 0 where
  ok : A → Result W A
  err : Failure W → Result W A

-- How a handler of messages ends: it returns nil or an error, or dereferences nil.
pub data Ending (W : Type 0) : Type 0 where
  success : Ending W
  fails : Failure W → Ending W
  panics : Ending W

infixl 5 ◌>>=◌
abbrev pub ◌>>=◌ : {W : Type 0} {A B : Type 0} → Result W A → (A → Result W B) → Result W B
ok a >>= g = g a
err e >>= g = err e

-- `fmt.Errorf(context: %w, err)` on the error of a call.
abbrev pub within : {W : Type 0} {A : Type 0} → String → Result W A → Result W A
within context (ok a) = ok a
within context (err e) = err (wrap context e)

pub Result-cases :
    {W A : Type 0} (r : Result W A) → ((a : A) × (r ≡ ok a)) ⊎ ((e : Failure W) × (r ≡ err e))
Result-cases (ok a) = inl (a, refl)
Result-cases (err e) = inr (e, refl)

-- A chain that succeeds: its first call does, and what follows it.
pub >>=-eq-ok :
    {W A B : Type 0} (m : Result W A) (g : A → Result W B) {b : B}
    → (m >>= g) ≡ ok b
    → (a : A) × (m ≡ ok a) × (g a ≡ ok b)
>>=-eq-ok (ok a) g h = (a, refl, h)
>>=-eq-ok (err e) g h = cc

pub within_ok :
    {W A : Type 0} (context : String) (r : Result W A) {a : A} → within context r ≡ ok a → r ≡ ok a
within_ok context (ok a) h = h
within_ok context (err e) h = cc
