-- ===== src/Api/Members.antt =====
-- What the handlers find in the JSON of a stored event.
use saga_market_order.Prelude.{◌≡◌, refl, some, [], ◌∷◌, some_of_if}
use saga_market_order.Float.{Float}
use saga_market_order.Json.{Object}
use saga_market_order.Order.Events.{
  Fields, OrderAccepted, PriceQuoted, SwapExecuted, OrderCompleted, order_accepted, price_quoted,
  swap_executed, order_completed,
}
use saga_market_order.Order.Codec.{marshal}
use saga_market_order.Api.History.{float_at, string_at}

-- The members are known only once it is known if there is metadata.
module _ {W : Type 0} ⦃f : Float W⦄ where
  quoted_with :
      (m : Fields W) (e : PriceQuoted W) (o : Object W)
      → marshal (price_quoted (record e { base = record (e.base) { metadata = m } })) ≡ some o
      → (float_at "price" o ≡ some e.price) × (float_at "to_amount" o ≡ some e.to_amount)
  unfolding marshal
  quoted_with [] e o h = let made = some_of_if _ _ h in rw (← made) (refl, refl)
  quoted_with (x ∷ m) e o h = let made = some_of_if _ _ h in rw (← made) (refl, refl)

  pub quoted_members :
      (e : PriceQuoted W) (o : Object W)
      → marshal (price_quoted e) ≡ some o
      → (float_at "price" o ≡ some e.price) × (float_at "to_amount" o ≡ some e.to_amount)
  quoted_members e o h = quoted_with e.base.metadata e o h

  accepted_with :
      (m : Fields W) (e : OrderAccepted W) (o : Object W)
      → marshal (order_accepted (record e { base = record (e.base) { metadata = m } })) ≡ some o
      → (string_at "user_id" o ≡ some e.user_id)
        × (float_at "from_amount" o ≡ some e.from_amount)
        × (string_at "from_currency" o ≡ some e.from_currency)
        × (string_at "to_currency" o ≡ some e.to_currency)
        × (string_at "order_type" o ≡ some e.order_type)
  unfolding marshal
  accepted_with [] e o h = let made = some_of_if _ _ h in rw (← made) (refl, refl, refl, refl, refl)
  accepted_with (x ∷ m) e o h =
      let made = some_of_if _ _ h in rw (← made) (refl, refl, refl, refl, refl)

  pub accepted_members :
      (e : OrderAccepted W) (o : Object W)
      → marshal (order_accepted e) ≡ some o
      → (string_at "user_id" o ≡ some e.user_id)
        × (float_at "from_amount" o ≡ some e.from_amount)
        × (string_at "from_currency" o ≡ some e.from_currency)
        × (string_at "to_currency" o ≡ some e.to_currency)
        × (string_at "order_type" o ≡ some e.order_type)
  accepted_members e o h = accepted_with e.base.metadata e o h

  executed_with :
      (m : Fields W) (e : SwapExecuted W) (o : Object W)
      → marshal (swap_executed (record e { base = record (e.base) { metadata = m } })) ≡ some o
      → (float_at "to_amount" o ≡ some e.to_amount)
        × (float_at "executed_price" o ≡ some e.executed_price)
  unfolding marshal
  executed_with [] e o h = let made = some_of_if _ _ h in rw (← made) (refl, refl)
  executed_with (x ∷ m) e o h = let made = some_of_if _ _ h in rw (← made) (refl, refl)

  pub executed_members :
      (e : SwapExecuted W) (o : Object W)
      → marshal (swap_executed e) ≡ some o
      → (float_at "to_amount" o ≡ some e.to_amount)
        × (float_at "executed_price" o ≡ some e.executed_price)
  executed_members e o h = executed_with e.base.metadata e o h

  completed_with :
      (m : Fields W) (e : OrderCompleted W) (o : Object W)
      → marshal (order_completed (record e { base = record (e.base) { metadata = m } })) ≡ some o
      → (float_at "from_amount" o ≡ some e.from_amount)
        × (float_at "to_amount" o ≡ some e.to_amount)
        × (float_at "executed_price" o ≡ some e.executed_price)
  unfolding marshal
  completed_with [] e o h = let made = some_of_if _ _ h in rw (← made) (refl, refl, refl)
  completed_with (x ∷ m) e o h = let made = some_of_if _ _ h in rw (← made) (refl, refl, refl)

  pub completed_members :
      (e : OrderCompleted W) (o : Object W)
      → marshal (order_completed e) ≡ some o
      → (float_at "from_amount" o ≡ some e.from_amount)
        × (float_at "to_amount" o ≡ some e.to_amount)
        × (float_at "executed_price" o ≡ some e.executed_price)
  completed_members e o h = completed_with e.base.metadata e o h
