-- ===== src/Tests/NotificationRuns.antt =====
-- The notification service's handlers.
use saga_market_order.Prelude.{◌≡◌, refl, ◌⊎◌, none, some, List, [], ◌∷◌, String}
use saga_market_order.Format.{Piece}
use saga_market_order.Float.Cents.{Cents, cents_float}
use saga_market_order.Json.{Object}
use saga_market_order.EventStore.Serializer.{serialize_event}
use saga_market_order.EventStore.Postgres.{
  clashes, save, save_events, insert_event, select, insert_by_version, load,
}
use saga_market_order.Order.Aggregate.{Order, new_order, when, apply}
use saga_market_order.Order.Codec.{marshal, deserialize, unmarshal_order_completed}
use saga_market_order.Order.Events.{BaseEvent, Event, OrderCompleted}
use saga_market_order.Order.Run.{execute, execute_all}
use saga_market_order.AggregateStore.Store.{replay_order, save_order_aggregate}
use saga_market_order.Repository.Store.{get_order}
use saga_market_order.Messaging.Consumer.{consume}
use saga_market_order.Notification.Service.{
  Desk, Env, notify, handle_order_completed, completed_text,
}
use saga_market_order.Saga.World.{has_row}
use saga_market_order.Notification.Delivery.{Kind, Delivery, reads, deliver, Ends, deliver-Ends}
use saga_market_order.Notification.Once.{notified_once}
use saga_market_order.Result.{success, fails, text}
use saga_market_order.Tests.Samples.{link}
use saga_market_order.Tests.StoreRuns.{first_db}

abbrev base : String → BaseEvent Cents
base type = record {
  event_id = "event-5";
  aggregate_id = "order-1";
  aggregate_type = "Order";
  event_type = type;
  version = 5;
  timestamp = 100;
  metadata = [];
}

abbrev completion : OrderCompleted Cents
completion = record {
  base = base "OrderCompleted";
  from_amount = some 25;
  to_amount = some 5;
  executed_price = some 5;
  status = "completed";
}

pub completed_message : (o : Object Cents) × (marshal (Event.order_completed completion) ≡ some o)
unfolding marshal
completed_message = (_, refl)

abbrev env : Env
env = record { check = none; load = link; send = none; mark = none }

abbrev pub delivery : Delivery Cents
delivery = (Kind.completes, env, completed_message.0)

delivery-reads : reads delivery ≡ some (base "OrderCompleted", completed_text)
unfolding reads completed_message marshal unmarshal_order_completed
delivery-reads = refl

abbrev desk : Desk Cents
desk = record { database = first_db; sent = [] }

deliver-Ends_example :
    ((reads delivery ≡ none) × (deliver delivery desk ≡ (desk, fails (text "invalid JSON"))))
    ⊎ ((e : BaseEvent Cents) × (message : Order Cents → List (Piece Cents)) × (reads delivery
          ≡ some (e, message))
        × Ends env e message desk (deliver delivery desk))
deliver-Ends_example = deliver-Ends delivery desk

first_ending : (deliver delivery desk).1 ≡ success
unfolding deliver handle_order_completed completed_message marshal unmarshal_order_completed notify
    get_order has_row load select insert_by_version replay_order deserialize when apply new_order
    save_order_aggregate save save_events insert_event serialize_event clashes execute_all execute
first_ending = refl

-- In between, the event is delivered again while the database does not answer.
abbrev others : List (Delivery Cents)
others = (Kind.completes, record env { check = some "timeout" }, completed_message.0) ∷ []

notified_once_example :
    let desk' = (consume deliver others (deliver delivery desk).0).0 in
    deliver delivery desk' ≡ (desk', success)
notified_once_example =
    notified_once delivery delivery (base "OrderCompleted") (base "OrderCompleted") completed_text
      completed_text desk (deliver delivery desk).0 others delivery-reads delivery-reads refl refl
      (λ i. ((deliver delivery desk).0, first_ending i))
