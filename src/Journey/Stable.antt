-- ===== src/Journey/Stable.antt =====
-- What no change of the tables takes away from the database, no operation of the service takes away.
use saga_market_order.Prelude.{
  String, inl, inr, List, [], ◌∷◌, ◌==◌, Bool, true, false, if◌then◌else◌, Option-cases,
}
use saga_market_order.Float.{Float}
use saga_market_order.EventStore.Postgres.{Database, Link}
use saga_market_order.Order.Commands.{Stamp}
use saga_market_order.Order.Validity.{Terms}
use saga_market_order.AggregateStore.Saves.{save_order-OrderSaves}
use saga_market_order.UseCases.Create.{create_order}
use saga_market_order.UseCases.Accepted.{accepted, created_accepted, create_order-unchanged}
use saga_market_order.Messaging.RabbitMq.{RabbitMq}
use saga_market_order.Outbox.Publisher.{Tick, publish_pending_events}
use saga_market_order.Outbox.Ticks.{publish_pending_events-Ticks}
use saga_market_order.Notification.Keeps.{deliver-Keeps}
use saga_market_order.Saga.Keeps.{IsStable, order_saved-Keeps, handle-Keeps}
use saga_market_order.Api.Create.{HttpRequest, terms_for, handle_create_order}
use saga_market_order.Api.Responses.{Response, http_error, health_check}
use saga_market_order.Api.Path.{behind}
use saga_market_order.Api.History.{handle_get_order_history}
use saga_market_order.Api.Created.{handle-cases}
use saga_market_order.Wiring.Routes.{is_some, serve}
use saga_market_order.Journey.Service.{
  Service, Operation, request, delivery, notice, tick, operate, operate_all,
}

module _ {W : Type 0} ⦃f : Float W⦄ (P : Database W → Type 0) (stable : IsStable P) where
  create-Keeps :
      (link : Link) (s : Stamp) (t : Terms W) (db : Database W)
      → P db
      → P (create_order link s t db).0
  create-Keeps link s t db h = elim (Option-cases (create_order link s t db).1) [
    | inr (x, fails) ↦ rw (create_order-unchanged link s t db fails) h
    | inl done ↦
        let (_, _, same) = created_accepted link s t db done in
        rw same (order_saved-Keeps P stable (save_order-OrderSaves link (accepted s t).0 db) h)
  ]

  handle_create-Keeps :
      (link : Link) (s : Stamp) (order_id : String) (r : HttpRequest W) (db : Database W)
      → P db
      → P (handle_create_order link s order_id r db).0
  handle_create-Keeps link s order_id r db h = elim (handle-cases link s order_id r db) [
    | inl a ↦ rw (a.creates.stored) (create-Keeps link s (terms_for order_id a.req) db h)
    | inr (_, same) ↦ rw same h
  ]

  if-Keeps :
      (test : Bool) (a b : Database W × Response W) → P a.0 → P b.0 → P (if test then a else b).0
  if-Keeps true a b h k = h
  if-Keeps false a b h k = k

  serve-Keeps :
      (link : Link) (s : Stamp) (new_id path : String) (r : HttpRequest W) (db : Database W)
      → P db
      → P (serve link s new_id path r db).0
  unfolding serve
  serve-Keeps link s new_id path r db h =
      if-Keeps (path == "/health") (db, health_check) _ h
        (if-Keeps (path == "/orders") (handle_create_order link s new_id r db) _
          (handle_create-Keeps link s new_id r db h)
          (if-Keeps (is_some (behind "/orders/" path))
            (db, handle_get_order_history link r.method path db)
            (db, http_error "404 page not found" 404) h h))

  tick-Keeps :
      (t : Tick W) (db : Database W) (bus : RabbitMq W)
      → P db
      → P (publish_pending_events t (db, bus)).0
  tick-Keeps t db bus h = elim ((publish_pending_events-Ticks t db bus).effect) [
    | inl same ↦ rw same h
    | inr changed ↦ rw changed (stable.updated _ db h)
  ]

  operate-Keeps :
      (o : Operation W) (x : Service W) → P x.world.database → P (operate o x).world.database
  unfolding operate
  operate-Keeps (request link s new_id path r) x h =
      serve-Keeps link s new_id path r x.world.database h
  operate-Keeps (delivery step event_data) x h = handle-Keeps P stable step event_data x.world h
  operate-Keeps (notice d) x h =
      deliver-Keeps P stable d (record { database = x.world.database; sent = x.told }) h
  operate-Keeps (tick t) x h = tick-Keeps t x.world.database x.bus h

  pub operate_all-Keeps :
      (os : List (Operation W)) (x : Service W)
      → P x.world.database
      → P (operate_all os x).world.database
  unfolding operate_all
  operate_all-Keeps [] x h = h
  operate_all-Keeps (o ∷ os) x h = operate_all-Keeps os (operate o x) (operate-Keeps o x h)
