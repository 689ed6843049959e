-- ===== src/Tests/QuoteRuns.antt =====
-- STEP 1, on a stored order and behind the creation of one.
use saga_market_order.Prelude.{◌≡◌, refl, false, arith, none, some, []}
use saga_market_order.Float.Cents.{Cents, cents_float}
use saga_market_order.Json.{Object}
use saga_market_order.EventStore.Serializer.{serialize_event}
use saga_market_order.EventStore.Postgres.{clashes, save, save_events, insert_event}
use saga_market_order.Order.Events.{order_accepted, OrderAccepted}
use saga_market_order.Order.Run.{execute, execute_all}
use saga_market_order.Order.Emits.{strip}
use saga_market_order.AggregateStore.Orders.{Holds}
use saga_market_order.Saga.Accept as Accept
use saga_market_order.Saga.Accept.{handle_order_accepted}
use saga_market_order.Saga.Quote.{quoted, quotes}
use saga_market_order.Tests.StoreRuns.{first_db, pending_order-Holds}
use saga_market_order.Order.Aggregate.{Order, pending, new_order, when, apply}
use saga_market_order.Order.Codec.{marshal, unmarshal_order_accepted}
use saga_market_order.AggregateStore.Store.{load_order_aggregate, save_order_aggregate}
use saga_market_order.UseCases.Create.{create_order}
use saga_market_order.Saga.World.{World, success, has_row, is_processed}
use saga_market_order.Journey.Quoted.{created_order, created_then_quoted}
use saga_market_order.UseCases.Accepted.{acceptance}
use saga_market_order.Order.Validity.{terms_of}
use saga_market_order.Result.{ok}
use saga_market_order.Tests.UseCaseRuns.{market_order_created, no_events}
use saga_market_order.Tests.Samples.{at, market_terms, pending_order, link, empty}
use saga_market_order.Tests.SagaRuns.{world, compensation}

abbrev accepted_evt : OrderAccepted Cents
accepted_evt = record {
  base = record {
    event_id = "event-1";
    aggregate_id = "order-1";
    aggregate_type = "Order";
    event_type = "OrderAccepted";
    version = 1;
    timestamp = 100;
    metadata = [];
  };
  user_id = "user-1";
  from_amount = some 25;
  from_currency = "USD";
  to_currency = "BTC";
  order_type = "market";
}

accepted_message : (o : Object Cents) × (marshal (order_accepted accepted_evt) ≡ some o)
unfolding marshal
accepted_message = (_, refl)

accepted_decodes : unmarshal_order_accepted accepted_message.0 ≡ some accepted_evt
unfolding unmarshal_order_accepted accepted_message marshal
accepted_decodes = refl

abbrev pub accept_env : Accept.Env Cents
accept_env = record {
  check = none;
  price = λ from to. some (some 5);
  load = link;
  stamp = at "event-2";
  save = link;
  mark = none;
  compensation = compensation;
}

abbrev first_world : World Cents
first_world = record { database = first_db; published = []; calls = [] }

first_world_new : is_processed none "event-1" first_world ≡ false
unfolding is_processed has_row save_order_aggregate save save_events insert_event serialize_event
    marshal execute_all execute apply when new_order clashes
first_world_new = refl

quote_saved :
    (save_order_aggregate link (quoted accept_env accepted_evt (some 5) pending_order) first_db).2
    ≡ none
unfolding save_order_aggregate save save_events insert_event serialize_event marshal execute_all
    execute apply when new_order clashes
quote_saved = refl

quotes_example :
    let (w', end) = handle_order_accepted accept_env accepted_message.0 first_world in
    let o' = strip (quoted accept_env accepted_evt (some 5) pending_order) in
    (end ≡ success)
    × Holds "order-1" o' w'.database
    × (o'.status ≡ pending)
    × (o'.executed_price ≡ some 5)
    × (o'.to_amount ≡ some 5)
    × (o'.version ≡ 2)
quotes_example =
    quotes accept_env accepted_message.0 accepted_evt (some 5) pending_order first_world
      accepted_decodes first_world_new refl refl refl refl refl refl (omega arith) (omega arith)
      pending_order-Holds (record { query = refl; scan = refl; rows = refl }) quote_saved

pub announced_message :
    (o : Object Cents) × (marshal (order_accepted (acceptance (at "event-1") market_terms))
      ≡ some o)
unfolding marshal
announced_message = (_, refl)

announced_decodes :
    unmarshal_order_accepted announced_message.0 ≡ some (acceptance (at "event-1") market_terms)
unfolding unmarshal_order_accepted announced_message marshal
announced_decodes = refl

world_new : is_processed none "event-1" world ≡ false
unfolding is_processed has_row create_order save_order_aggregate save save_events insert_event
    serialize_event marshal when apply new_order clashes
world_new = refl

created_quote_saved :
    (save_order_aggregate link
      (quoted accept_env
        (acceptance (at "event-1") market_terms)
        (some 5)
        (created_order (at "event-1") market_terms))
      world.database).2
    ≡ none
unfolding create_order save_order_aggregate save save_events insert_event serialize_event marshal
    execute_all execute apply when new_order clashes
created_quote_saved = refl

created_then_quoted_example :
    let (w', end) = handle_order_accepted accept_env announced_message.0 world in
    (end ≡ success)
    × ((o : Order Cents) × (load_order_aggregate link "order-1" w'.database ≡ ok o)
        × (o.status ≡ pending)
        × (terms_of o ≡ market_terms)
        × (o.executed_price ≡ some 5)
        × (o.to_amount ≡ some 5)
        × (o.version ≡ 2))
created_then_quoted_example =
    created_then_quoted link (at "event-1") market_terms empty accept_env announced_message.0
      (some 5) world no_events market_order_created refl announced_decodes world_new refl refl refl
      (record { query = refl; scan = refl; rows = refl })
      (record { query = refl; scan = refl; rows = refl }) created_quote_saved
