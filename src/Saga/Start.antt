-- ===== src/Saga/Start.antt =====
-- application/saga/order_saga_refactored.go: `Start`, and which handler each subscription has.
use saga_market_order.Prelude.{String, Option, List, [], ◌∷◌}
use saga_market_order.Messaging.RabbitMq.{RabbitMq, Subscribing, subscribe_all}
use saga_market_order.Result.{Failure}
use saga_market_order.Saga.Steps.{Step}

-- The event type that a step is subscribed to.
abbrev pub subscription : {W : Type 0} → Step W → String
subscription (Step.accept _) = "OrderAccepted"
subscription (Step.price _) = "PriceQuoted"
subscription (Step.swap _) = "PositionCreatedForOrder"
subscription (Step.complete _) = "SwapExecuted"

abbrev pub subscriptions : List String
subscriptions = "OrderAccepted" ∷ "PriceQuoted" ∷ "PositionCreatedForOrder" ∷ "SwapExecuted" ∷ []

unfoldable pub start : {W : Type 0} → (String → Subscribing) → RabbitMq W → Option (Failure W)
unfolding subscribe_all
start s r = subscribe_all s subscriptions r
