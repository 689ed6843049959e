-- ===== src/Notification/Start.antt =====
-- application/notification/service.go: `Start`.
use saga_market_order.Prelude.{String, Option, List, [], ◌∷◌}
use saga_market_order.Messaging.RabbitMq.{RabbitMq, Subscribing, subscribe_all}
use saga_market_order.Result.{Failure}

abbrev pub subscriptions : List String
subscriptions = "OrderCompleted" ∷ "OrderFailed" ∷ []

unfoldable pub start : {W : Type 0} → (String → Subscribing) → RabbitMq W → Option (Failure W)
unfolding subscribe_all
start s r = subscribe_all s subscriptions r
