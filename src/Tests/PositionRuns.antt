-- ===== src/Tests/PositionRuns.antt =====
-- Positions.
use saga_market_order.Prelude.{◌≡◌, refl, some, List, [], ◌∷◌, map}
use saga_market_order.Float.Cents.{Cents, cents_float}
use saga_market_order.EventSourcing.{run_all}
use saga_market_order.Position.Events.{Event, position_updated}
use saga_market_order.Position.Aggregate.{Stamp, status_open}
use saga_market_order.Position.Codec.{marshal}
use saga_market_order.Position.Run.{execute}
use saga_market_order.Position.Orders.{Joining, join, add_orders, closed_is_final}
use saga_market_order.Tests.Samples.{position, closed_position, position_at}

abbrev joining : List (Joining Cents × Stamp)
joining =
    (
      record { order_id = "order-1"; to_amount = some 5; total_value = some 25; pnl = some 0 },
      position_at "e2",
    )
    ∷ (
      record { order_id = "order-2"; to_amount = some 3; total_value = some 15; pnl = some 1 },
      position_at "e3",
    )
    ∷ []

add_orders_example :
    let p' = run_all execute (map join joining) position in
    (p'.status ≡ status_open)
    × (p'.order_ids ≡ "order-1" ∷ "order-2" ∷ [])
    × (p'.remaining_amount ≡ some 8)
add_orders_example = add_orders joining position refl

closed_is_final_example : run_all execute (map join joining) closed_position ≡ closed_position
closed_is_final_example = closed_is_final (map join joining) closed_position (refl, (refl, tt)) refl

abbrev update : Event Cents
update = position_updated record {
  base = record {
    event_id = "e2";
    aggregate_id = "position-1";
    aggregate_type = "Position";
    event_type = "PositionUpdated";
    version = 2;
    timestamp = 100;
  };
  added_order_id = "order-1";
  remaining_amount = some 5;
  total_value = some 25;
  pnl = some 0;
}

update_stored : (o : _) × (marshal update ≡ some o)
unfolding marshal
update_stored = (_, refl)

-- The aggregate store does not read the event back.
