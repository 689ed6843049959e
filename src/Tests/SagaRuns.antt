-- ===== src/Tests/SagaRuns.antt =====
-- The saga's steps.
use saga_market_order.Prelude.{◌≡◌, refl, ◌⊎◌, none, some, [], ◌∷◌, List}
use saga_market_order.Float.Cents.{Cents, cents_float}
use saga_market_order.Json.{Object}
use saga_market_order.EventStore.Serializer.{serialize_event}
use saga_market_order.EventStore.Postgres.{
  clashes, clashes_outbox, save, save_events, insert_event, select, insert_by_version, load,
}
use saga_market_order.Order.Events.{
  Event, price_quoted, position_created_for_order, PositionCreatedForOrder,
}
use saga_market_order.Order.Aggregate.{new_order, when, apply}
use saga_market_order.Order.Codec.{
  marshal, deserialize, unmarshal_price_quoted, unmarshal_position_created_for_order,
}
use saga_market_order.Position.Aggregate as PositionAggregate
use saga_market_order.Position.Codec as PositionCodec
use saga_market_order.AggregateStore.Store.{
  load_order_aggregate, replay_order, save_order_aggregate, save_position_aggregate,
}
use saga_market_order.UseCases.Create.{create_order}
use saga_market_order.Saga.World.{World, success, panics, on_ok, on_saved, has_row, is_processed}
use saga_market_order.Saga.Compensation.{Compensation}
use saga_market_order.Saga.Price as Price
use saga_market_order.Saga.Price.{handle_price_quoted}
use saga_market_order.Saga.Swap as Swap
use saga_market_order.Saga.Swap.{swapped, handle_position_created}
use saga_market_order.Saga.Panics.{LosesSwap, panics_in_swap}
use saga_market_order.Order.Commands.{start_swap_execution}
use saga_market_order.Saga.Steps.{Step, id_of, handle}
use saga_market_order.Messaging.Consumer.{consume}
use saga_market_order.Saga.Once.{Delivery, deliver, acknowledged_once}
use saga_market_order.Saga.Request.{Requested, swap_requests}
use saga_market_order.Tests.Samples.{at, position_at, market_terms, link, empty}

-- A created order.
abbrev pub world : World Cents
world = record {
  database = (create_order link (at "event-1") market_terms empty).0;
  published = [];
  calls = [];
}

abbrev quoted_event : Event Cents
quoted_event = price_quoted record {
  base = record {
    event_id = "event-2";
    aggregate_id = "order-1";
    aggregate_type = "Order";
    event_type = "PriceQuoted";
    version = 2;
    timestamp = 100;
    metadata = [];
  };
  price = some 5;
  to_amount = some 5;
  quote_timestamp = 101;
}

quoted_message : (o : Object Cents) × (marshal quoted_event ≡ some o)
unfolding marshal
quoted_message = (_, refl)

abbrev price_env : Price.Env
price_env = record {
  check = none;
  load = link;
  position_id = "position-1";
  stamp = position_at "event-7";
  save = link;
  message_id = "event-8";
  send = none;
  mark = none;
}

quoted_id : id_of (Step.price price_env) quoted_message.0 ≡ some "event-2"
unfolding id_of quoted_message marshal unmarshal_price_quoted
quoted_id = refl

first_ending : (handle (Step.price price_env) quoted_message.0 world).1 ≡ success
unfolding handle handle_price_quoted quoted_message marshal unmarshal_price_quoted on_ok on_saved
    is_processed has_row load_order_aggregate load select insert_by_version replay_order deserialize
    when apply new_order create_order save_order_aggregate save save_events insert_event
    serialize_event clashes clashes_outbox save_position_aggregate PositionCodec.marshal
    PositionAggregate.create_position PositionAggregate.when PositionAggregate.apply
    PositionAggregate.new_position
first_ending = refl

first_delivery :
    handle (Step.price price_env) quoted_message.0 world
    ≡ ((handle (Step.price price_env) quoted_message.0 world).0, success)
first_delivery = λ i. ((handle (Step.price price_env) quoted_message.0 world).0, first_ending i)

abbrev position_created : PositionCreatedForOrder Cents
position_created = record {
  base = record {
    event_id = "event-8";
    aggregate_id = "order-1";
    aggregate_type = "Order";
    event_type = "PositionCreatedForOrder";
    version = 3;
    timestamp = 100;
    metadata = [];
  };
  position_id = "position-1";
  user_id = "user-1";
}

created_message :
    (o : Object Cents) × (marshal (position_created_for_order position_created) ≡ some o)
unfolding marshal
created_message = (_, refl)

created_decodes : unmarshal_position_created_for_order created_message.0 ≡ some position_created
unfolding unmarshal_position_created_for_order created_message marshal
created_decodes = refl

abbrev pub compensation : Compensation
compensation = record {
  load_order = link;
  save_order = link;
  order_stamp = at "event-20";
  load_position = link;
  save_position = link;
  position_stamp = position_at "event-21";
}

abbrev swap_env : Swap.Env Cents
swap_env = record {
  check = none;
  load = link;
  start_stamp = at "event-3";
  save_start = link;
  half = some 0;
  execute_swap = λ req. swapped (record {
    transaction_hash = "hash-1";
    to_amount = some 5;
    executed_price = some 5;
    fees = some 1;
    slippage = some 0;
  });
  reload = link;
  record_stamp = at "event-4";
  save_swap = link;
  message_id = "event-9";
  send = none;
  mark = none;
  compensation = compensation;
}

-- Two deliveries in between: another message, and the same one with a check that fails.
abbrev others : List (Delivery Cents)
others =
    (Step.price (record price_env { check = some "connection reset" }), quoted_message.0)
    ∷ (Step.swap swap_env, created_message.0)
    ∷ []

acknowledged_once_example :
    let w' = (handle (Step.price price_env) quoted_message.0 world).0 in
    let w'' = (consume deliver others w').0 in
    handle (Step.price price_env) quoted_message.0 w'' ≡ (w'', success)
acknowledged_once_example =
    acknowledged_once (Step.price price_env) (Step.price price_env) quoted_message.0 world
      (handle (Step.price price_env) quoted_message.0 world).0 "event-2" others tt quoted_id
      quoted_id refl refl refl first_delivery

swap_requests_example :
    let w' = (handle_position_created swap_env created_message.0 world).0 in
    (w'.calls ≡ []) ⊎ Requested swap_env position_created world w'
swap_requests_example =
    swap_requests swap_env created_message.0 position_created world created_decodes

-- The database is gone when the order is loaded again.
abbrev cut_env : Swap.Env Cents
cut_env = record swap_env { reload = record link { query = some "connection reset" } }

cut_ending : (handle (Step.swap cut_env) created_message.0 world).1 ≡ panics
unfolding handle handle_position_created created_message marshal
    unmarshal_position_created_for_order on_ok on_saved is_processed has_row load_order_aggregate
    load select insert_by_version replay_order deserialize when apply new_order create_order
    save_order_aggregate save save_events insert_event serialize_event clashes clashes_outbox
    start_swap_execution
cut_ending = refl

panics_in_swap_example :
    LosesSwap cut_env created_message.0 world (handle (Step.swap cut_env) created_message.0 world).0
panics_in_swap_example = panics_in_swap (Step.swap cut_env) created_message.0 world cut_ending
