-- ===== src/Tests/UseCaseRuns.antt =====
-- The use cases, and a position that cannot be loaded.
use mathlib.Core.List.{Memᴰ}
use saga_market_order.Prelude.{◌≡◌, ◌≢◌, refl, none, some, [], ◌∷◌}
use saga_market_order.Float.Cents.{Cents, cents_float}
use saga_market_order.EventStore.Serializer.{serialize_event}
use saga_market_order.EventStore.Postgres.{
  Database, Row, clashes, save, save_events, insert_event, select, row_of,
}
use saga_market_order.Order.Aggregate.{Order, new_order, when, apply}
use saga_market_order.Order.Codec.{marshal}
use saga_market_order.AggregateStore.Store.{
  load_order_aggregate, load_position_aggregate, save_order_aggregate, save_position_aggregate,
}
use saga_market_order.Order.Events.{Event, order_cancelled}
use saga_market_order.AggregateStore.UnloadableOrders.{unstored_unloadable}
use saga_market_order.AggregateStore.Unloadable.{updated_unloadable}
use saga_market_order.AggregateStore.Reloads.{accepted_then}
use saga_market_order.Order.Run.{Command}
use saga_market_order.Position.Aggregate.{create_position, new_position}
use saga_market_order.UseCases.Create.{create_order}
use saga_market_order.UseCases.Complete.{
  SwapResult, Calls, prepare, complete_order_and_update_position,
}
use saga_market_order.UseCases.Completion.{Ends, complete-Ends}
use saga_market_order.Result.{ok}
use saga_market_order.Tests.Samples.{
  at, position_at, market_terms, pending_order, link, empty, position,
}

pub market_order_created : (create_order link (at "event-1") market_terms empty).1 ≡ none
unfolding create_order save_order_aggregate save save_events insert_event serialize_event marshal
    apply when new_order clashes
market_order_created = refl

pub no_events : select "order-1" empty.events ≡ []
unfolding select
no_events = refl

abbrev calls : Calls
calls = record {
  load_order = link;
  load_position = link;
  save_order = link;
  save_position = link;
  order_stamp = at "event-5";
  position_stamp = position_at "event-6";
}

abbrev swap : SwapResult Cents
swap = record {
  transaction_hash = "hash-1";
  from_amount = some 25;
  to_amount = some 5;
  executed_price = some 5;
  fees = some 1;
  slippage = some 0;
}

-- The order's swap is recorded, and its position is open.
abbrev swapped_order : Order Cents
swapped_order = accepted_then (at "event-1") market_terms (
    (Command.quote_price (some 5) (some 5), at "event-2")
    ∷ (Command.start_swap_execution "key-1", at "event-3")
    ∷ (
      Command.record_swap_execution "hash-1" (some 25) (some 5) (some 5) (some 1) (some 0),
      at "event-4",
    )
    ∷ [])

abbrev swapped_db : Database Cents
swapped_db =
    (save_position_aggregate link
      (create_position (position_at "event-7") "position-1" "user-1" new_position).0
      (save_order_aggregate link swapped_order empty).1).1

complete-Ends_example :
    Ends swapped_db
      (prepare calls "order-1" "position-1" swap swapped_db)
      (complete_order_and_update_position calls "order-1" "position-1" swap swapped_db)
complete-Ends_example = complete-Ends calls "order-1" "position-1" swap swapped_db

abbrev updated_row : Row Cents
updated_row = row_of (
  [],
  record {
    event_id = "event-6";
    aggregate_id = "position-1";
    aggregate_type = "Position";
    event_type = "PositionUpdated";
    version = 2;
    timestamp = 100;
  },
)

updated_unloadable_example :
    load_position_aggregate link "position-1" (record empty { events = updated_row ∷ [] })
    ≢ ok position
updated_unloadable_example =
    updated_unloadable link "position-1" updated_row (record empty { events = updated_row ∷ [] })
      position (Memᴰ.head refl) refl refl

abbrev cancelled : Event Cents
cancelled = order_cancelled record {
  base = record {
    event_id = "event-2";
    aggregate_id = "order-1";
    aggregate_type = "Order";
    event_type = "OrderCancelled";
    version = 2;
    timestamp = 100;
    metadata = [];
  };
  reason = "by the user";
  cancelled_at = 101;
}

abbrev cancelled_row : Row Cents
cancelled_row = record updated_row { aggregate_id = "order-1"; event_type = "OrderCancelled" }

unstored_unloadable_example :
    load_order_aggregate link "order-1" (record empty { events = cancelled_row ∷ [] })
    ≢ ok pending_order
unstored_unloadable_example =
    unstored_unloadable link "order-1" cancelled cancelled_row
      (record empty { events = cancelled_row ∷ [] }) pending_order refl (Memᴰ.head refl) refl refl
