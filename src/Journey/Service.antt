-- ===== src/Journey/Service.antt =====
-- cmd/main.go: the service at work. The HTTP server, the saga, the notification service and the
-- outbox publisher run side by side; what they do is a list of operations, in any order, each with
-- what its calls meet.
use saga_market_order.Prelude.{String, List, [], ◌∷◌}
use saga_market_order.Float.{Float}
use saga_market_order.Json.{Object}
use saga_market_order.EventStore.Postgres.{Link}
use saga_market_order.Order.Commands.{Stamp}
use saga_market_order.Messaging.RabbitMq.{RabbitMq}
use saga_market_order.Outbox.Publisher.{Tick, publish_pending_events}
use saga_market_order.Notification.Service.{Notification}
use saga_market_order.Notification.Delivery as Notifications
use saga_market_order.Saga.World.{World}
use saga_market_order.Saga.Steps.{Step, handle}
use saga_market_order.Api.Create.{HttpRequest}
use saga_market_order.Wiring.Routes.{serve}

-- What the saga acts on, the publisher's connection, and the notifications sent.
pub record Service (W : Type 0) : Type 0 where
  pub world : World W
  pub bus : RabbitMq W
  pub told : List (Notification W)

-- A request to a path, a delivery to a step of the saga or to the notification service, or a tick
-- of the outbox publisher.
pub data Operation (W : Type 0) : Type 0 where
  request : Link → Stamp → String → String → HttpRequest W → Operation W
  delivery : Step W → Object W → Operation W
  notice : Notifications.Delivery W → Operation W
  tick : Tick W → Operation W

module _ {W : Type 0} ⦃f : Float W⦄ where
  unfoldable pub operate : Operation W → Service W → Service W
  unfolding serve handle publish_pending_events
  operate (request link s new_id path r) x =
      let db = (serve link s new_id path r x.world.database).0 in
      record x { world = record (x.world) { database = db } }
  operate (delivery step event_data) x = record x { world = (handle step event_data x.world).0 }
  operate (notice d) x =
      let desk =
        (Notifications.deliver d (record { database = x.world.database; sent = x.told })).0 in
      record x { world = record (x.world) { database = desk.database }; told = desk.sent }
  operate (tick t) x =
      let (db, bus, _) = publish_pending_events t (x.world.database, x.bus) in
      record x { world = record (x.world) { database = db }; bus = bus }

  unfoldable pub operate_all : List (Operation W) → Service W → Service W
  unfolding operate
  operate_all [] x = x
  operate_all (o ∷ os) x = operate_all os (operate o x)
