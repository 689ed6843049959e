-- ===== src/Saga/Complete.antt =====
-- application/saga/complete.go: STEP 4.
use saga_market_order.Prelude.{String, Option, none, some, [], ◌∷◌, ◌==◌, if◌then◌else◌, int_suc}
use saga_market_order.Float.{Float}
use saga_market_order.Json.{Object}
use saga_market_order.EventStore.Postgres.{Database}
use saga_market_order.Order.Codec.{marshal, unmarshal_swap_executed}
use saga_market_order.Order.Events.{Event, SwapExecuted, position_linked_to_order, Value, Fields}
use saga_market_order.UseCases.Complete.{Calls, SwapResult, complete_order_and_update_position}
use saga_market_order.Result as Results
use saga_market_order.Result.{Failure, Result, ok, err}
use saga_market_order.Saga.World.{
  World, Outcome, success, fails, on_ok, decoded, is_processed, mark_as_processed, publish,
}

pub record Env : Type 0 where
  pub check : Option String
  pub calls : Calls
  pub message_id : String
  pub send : Option String
  pub mark : Option String

module _ {W : Type 0} where
  -- `evt.Metadata["position_id"].(string)`
  abbrev as_text : Value W → Result W String
  as_text (Value.text s) = ok s
  as_text _ = err (Results.text "position_id not found in event metadata")

  unfoldable pub position_id_of : Fields W → Result W String
  position_id_of [] = err (Results.text "position_id not found in event metadata")
  position_id_of ((key, value) ∷ fields) =
      let rest = position_id_of fields in if key == "position_id" then as_text value else rest

module _ {W : Type 0} ⦃f : Float W⦄ where
  abbrev pub swap_result : SwapExecuted W → SwapResult W
  swap_result evt = record {
    transaction_hash = evt.transaction_hash;
    from_amount = evt.from_amount;
    to_amount = evt.to_amount;
    executed_price = evt.executed_price;
    fees = evt.fees;
    slippage = evt.slippage;
  }

  abbrev pub linked_message : Env → SwapExecuted W → String → Event W
  linked_message env evt position_id = position_linked_to_order record {
    base = record {
      event_id = env.message_id;
      aggregate_id = evt.aggregate_id;
      aggregate_type = "Order";
      event_type = "PositionLinkedToOrder";
      version = int_suc evt.version;
      timestamp = evt.timestamp;
      metadata = [];
    };
    position_id = position_id;
    order_id = evt.aggregate_id;
  }

  -- Behind the use case.
  abbrev pub completed :
      Env → SwapExecuted W → String → Database W × Option (Failure W) → World W → Outcome W
  completed env evt position_id (db, some e) w = (record w { database = db }, fails e)
  completed env evt position_id (db, none) w =
      let sent =
        publish env.send "PositionLinkedToOrder" (marshal (linked_message env evt position_id))
          (record w { database = db }) in
      (mark_as_processed env.mark evt.base "order-saga-step4" sent, success)

  unfoldable pub handle_swap_executed : Env → Object W → World W → Outcome W
  unfolding is_processed mark_as_processed publish unmarshal_swap_executed marshal position_id_of
      complete_order_and_update_position
  handle_swap_executed env event_data w =
      on_ok (decoded (unmarshal_swap_executed event_data)) w λ evt.
        if is_processed env.check evt.event_id w
        then (w, success)
        else on_ok (position_id_of evt.metadata) w λ position_id.
          completed env evt position_id
            (complete_order_and_update_position env.calls evt.aggregate_id position_id
              (swap_result evt) w.database)
            w
