-- ===== src/Tests/RepositoryRuns.antt =====
-- The repositories.
use saga_market_order.Prelude.{◌≡◌, refl, some, []}
use saga_market_order.Float.Cents.{Cents, cents_float}
use saga_market_order.EventStore.Serializer.{serialize_event}
use saga_market_order.EventStore.Postgres.{
  Database, clashes, clashes_outbox, save, save_events, insert_event, insert_by_version, select,
  load,
}
use saga_market_order.Position.Aggregate.{
  Position, status_open, create_position, new_position, when, apply,
}
use saga_market_order.Position.Codec.{marshal, deserialize}
use saga_market_order.AggregateStore.Store.{
  load_position_aggregate, save_position_aggregate, replay_position,
}
use saga_market_order.Repository.Store.{get_position}
use saga_market_order.Repository.Agreement.{load-get_position}
use saga_market_order.Result.{ok}
use saga_market_order.Tests.Samples.{position_at, link, empty}

abbrev position_db : Database Cents
position_db =
    (save_position_aggregate link
      (create_position (position_at "event-7") "position-1" "user-1" new_position).0 empty).1

abbrev open_position : Position Cents
open_position = record {
  id = "position-1";
  user_id = "user-1";
  order_ids = [];
  remaining_amount = some 0;
  total_value = some 0;
  pnl = some 0;
  status = status_open;
  version = 1;
  created_at = 100;
  updated_at = 100;
  changes = [];
}

position_loads : load_position_aggregate link "position-1" position_db ≡ ok open_position
unfolding load_position_aggregate load select insert_by_version replay_position deserialize
    create_position new_position when apply save_position_aggregate save save_events insert_event
    serialize_event clashes clashes_outbox marshal
position_loads = refl

load-get_position_example : get_position link "position-1" position_db ≡ ok open_position
load-get_position_example =
    load-get_position link "position-1" position_db open_position position_loads
