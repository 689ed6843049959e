-- ===== src/Saga/Price.antt =====
-- application/saga/price.go: STEP 2.
use saga_market_order.Prelude.{String, Option, [], ◌∷◌, if◌then◌else◌, int_suc}
use saga_market_order.Float.{Float}
use saga_market_order.Json.{Object}
use saga_market_order.EventStore.Postgres.{Link}
use saga_market_order.Order.Codec.{marshal, unmarshal_price_quoted}
use saga_market_order.Order.Events.{Event, PriceQuoted, position_created_for_order, text}
use saga_market_order.Position.Aggregate as PositionAggregate
use saga_market_order.Position.Aggregate.{new_position}
use saga_market_order.AggregateStore.Store.{
  position_applied, load_order_aggregate, save_position_aggregate,
}
use saga_market_order.Saga.World.{
  World, Outcome, success, on_ok, on_saved, decoded, is_processed, mark_as_processed, publish,
}

-- The two ids are what `pkguuid.New` returns.
pub record Env : Type 0 where
  pub check : Option String
  pub load : Link
  pub position_id : String
  pub stamp : PositionAggregate.Stamp
  pub save : Link
  pub message_id : String
  pub send : Option String
  pub mark : Option String

module _ {W : Type 0} ⦃f : Float W⦄ where
  -- The event that triggers STEP 3; `user_id` is the order's.
  abbrev pub created_message : Env → PriceQuoted W → String → Event W
  created_message env evt user_id = position_created_for_order record {
    base = record {
      event_id = env.message_id;
      aggregate_id = evt.aggregate_id;
      aggregate_type = "Order";
      event_type = "PositionCreatedForOrder";
      version = int_suc evt.version;
      timestamp = evt.timestamp;
      metadata = ("position_id", text env.position_id) ∷ [];
    };
    position_id = env.position_id;
    user_id = user_id;
  }

  unfoldable pub handle_price_quoted : Env → Object W → World W → Outcome W
  unfolding PositionAggregate.create_position new_position is_processed mark_as_processed publish
      unmarshal_price_quoted marshal
  handle_price_quoted env event_data w =
      on_ok (decoded (unmarshal_price_quoted event_data)) w λ evt.
        if is_processed env.check evt.event_id w
        then (w, success)
        else on_ok (load_order_aggregate env.load evt.aggregate_id w.database) w λ o.
          on_ok
            (position_applied
              (PositionAggregate.create_position env.stamp env.position_id o.user_id new_position))
            w
            λ p. on_saved (save_position_aggregate env.save p w.database) w λ _ w'.
              let sent =
                publish env.send "PositionCreatedForOrder"
                  (marshal (created_message env evt o.user_id)) w' in
              (mark_as_processed env.mark evt.base "order-saga-step2" sent, success)
