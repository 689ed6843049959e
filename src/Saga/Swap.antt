-- ===== src/Saga/Swap.antt =====
-- application/saga/swap.go and types.go: STEP 3.
use Prim.Native.String as Text
use saga_market_order.Prelude.{String, Option, [], ◌∷◌, ◌++◌, if◌then◌else◌}
use saga_market_order.Float.{Float}
use saga_market_order.Json.{Object}
use saga_market_order.EventStore.Postgres.{Link}
use saga_market_order.Order.Codec.{marshal, unmarshal_position_created_for_order}
use saga_market_order.Order.Events.{Event, PositionCreatedForOrder, swap_executed, text}
use saga_market_order.Order.Aggregate.{Order}
use saga_market_order.Order.Commands as OrderCommands
use saga_market_order.AggregateStore.Store.{
  order_applied, load_order_aggregate, save_order_aggregate,
}
use saga_market_order.Result.{Result, ok, err}
use saga_market_order.Saga.World.{
  SwapRequest, World, Outcome, success, panics, on_ok, on_saved, decoded, is_processed,
  mark_as_processed, publish,
}
use saga_market_order.Saga.Compensation.{Compensation, compensate_swap_failed}

pub record SwapResponse (W : Type 0) : Type 0 where
  pub transaction_hash : String
  pub to_amount : W
  pub executed_price : W
  pub fees : W
  pub slippage : W

-- What `ExecuteSwap` returns: an error, by its text, or a response.
pub data Answer (W : Type 0) : Type 0 where
  refused : String → Answer W
  swapped : SwapResponse W → Answer W

-- `execute_swap` is `ExecuteSwap` of the `TradeWorker`; `half` is the constant 0.5.
pub record Env (W : Type 0) : Type 0 where
  pub check : Option String
  pub load : Link
  pub start_stamp : OrderCommands.Stamp
  pub save_start : Link
  pub half : W
  pub execute_swap : SwapRequest W → Answer W
  pub reload : Link
  pub record_stamp : OrderCommands.Stamp
  pub save_swap : Link
  pub message_id : String
  pub send : Option String
  pub mark : Option String
  pub compensation : Compensation

unfoldable pub generate_idempotency_key : String → String
generate_idempotency_key order_id = Text.◌++◌ "swap-" order_id

module _ {W : Type 0} ⦃f : Float W⦄ where
  unfoldable pub swap_request : Env W → PositionCreatedForOrder W → Order W → SwapRequest W
  unfolding generate_idempotency_key
  swap_request env evt o = record {
    idempotency_key = generate_idempotency_key evt.aggregate_id;
    from_currency = o.from_currency;
    to_currency = o.to_currency;
    from_amount = o.from_amount;
    slippage = env.half;
  }

  -- The event that triggers STEP 4.
  abbrev pub swap_message : Env W → PositionCreatedForOrder W → SwapResponse W → Order W → Event W
  swap_message env evt resp o = swap_executed record {
    base = record {
      event_id = env.message_id;
      aggregate_id = evt.aggregate_id;
      aggregate_type = "Order";
      event_type = "SwapExecuted";
      version = o.version;
      timestamp = o.updated_at;
      metadata = ("position_id", text evt.position_id) ∷ [];
    };
    transaction_hash = resp.transaction_hash;
    from_amount = o.from_amount;
    to_amount = resp.to_amount;
    executed_price = resp.executed_price;
    fees = resp.fees;
    slippage = resp.slippage;
  }

  -- Behind the reload, whose error is dropped: the order is nil then, and is dereferenced. The
  -- error of `RecordSwapExecution` is dropped too.
  abbrev pub record_swap :
      Env W → PositionCreatedForOrder W → SwapResponse W → Result W (Order W) → World W → Outcome W
  record_swap env evt resp (err e) w = (w, panics)
  record_swap env evt resp (ok o) w =
      let recorded =
        OrderCommands.record_swap_execution env.record_stamp resp.transaction_hash o.from_amount
          resp.to_amount resp.executed_price resp.fees resp.slippage o in
      on_saved (save_order_aggregate env.save_swap recorded.0 w.database) w λ o' w'.
        let sent = publish env.send "SwapExecuted" (marshal (swap_message env evt resp o')) w' in
        (mark_as_processed env.mark evt.base "order-saga-step3" sent, success)

  abbrev pub answered : Env W → PositionCreatedForOrder W → Answer W → World W → Outcome W
  answered env evt (refused reason) w =
      compensate_swap_failed env.compensation evt.aggregate_id evt.position_id reason w
  answered env evt (swapped resp) w =
      record_swap env evt resp (load_order_aggregate env.reload evt.aggregate_id w.database) w

  -- The call of the worker, which is recorded, and what follows it.
  abbrev pub ask : Env W → PositionCreatedForOrder W → SwapRequest W → World W → Outcome W
  ask env evt req w =
      answered env evt (env.execute_swap req)
        (record w { calls = w.calls ++ record { request = req; found = w.database } ∷ [] })

  -- Behind the idempotency check.
  abbrev pub start : Env W → PositionCreatedForOrder W → World W → Outcome W
  start env evt w = on_ok (load_order_aggregate env.load evt.aggregate_id w.database) w λ o.
      on_ok
        (order_applied (
          OrderCommands.start_swap_execution env.start_stamp
            (generate_idempotency_key evt.aggregate_id) o))
        w
        λ o'.
          on_saved (save_order_aggregate env.save_start o' w.database) w
            λ o'' w'. ask env evt (swap_request env evt o'') w'

  unfoldable pub handle_position_created : Env W → Object W → World W → Outcome W
  unfolding OrderCommands.start_swap_execution OrderCommands.record_swap_execution is_processed
      mark_as_processed publish unmarshal_position_created_for_order marshal swap_request
      generate_idempotency_key compensate_swap_failed
  handle_position_created env event_data w =
      on_ok (decoded (unmarshal_position_created_for_order event_data)) w
        λ evt. if is_processed env.check evt.event_id w then (w, success) else start env evt w
