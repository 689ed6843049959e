-- ===== src/Order/Codec.antt =====
-- The JSON of an order's events (the struct tags of domain/order/events.go), and the type switch of
-- `deserializeOrderEvent`, which application/aggregates/aggregate_store.go and
-- infrastructure/repository/order_repository.go have alike.
use saga_market_order.Prelude.{
  String, Option, none, some, List, [], ◌∷◌, ◌++◌, ◌&&◌, ◌==◌, if◌then◌else◌,
}
use saga_market_order.Float.{Float}
use saga_market_order.Json.{
  Object, string, float, int, time, object, ◌>>=◌, get_string, get_int, get_time, get_object,
  get_float, omit_empty, all_finite, fields_finite,
}
use saga_market_order.Order.Events.{
  BaseEvent, OrderAccepted, PriceQuoted, SwapExecuting, SwapExecuted, OrderCompleted, OrderFailed,
  PositionCreatedForOrder, Event, order_accepted, price_quoted, swap_executing, swap_executed,
  order_completed, order_failed, order_initialized, limit_price_set, order_updated, order_cancelled,
  balance_check_passed, balance_check_failed, order_placed_in_book, order_partially_filled,
  position_created_for_order, position_linked_to_order,
}

module _ {W : Type 0} ⦃f : Float W⦄ where
  abbrev base_members : BaseEvent W → Object W
  base_members b =
      ("event_id", string b.event_id)
      ∷ ("aggregate_id", string b.aggregate_id)
      ∷ ("aggregate_type", string b.aggregate_type)
      ∷ ("event_type", string b.event_type)
      ∷ ("version", int b.version)
      ∷ ("timestamp", time b.timestamp)
      ∷ omit_empty "metadata" b.metadata

  -- The members of an event, unless one of its floats has no JSON.
  abbrev encode : BaseEvent W → List W → Object W → Option (Object W)
  encode b floats members =
      if all_finite floats && fields_finite b.metadata
      then some (members ++ base_members b)
      else none

  -- `json.Marshal` of an event.
  unfoldable pub marshal : Event W → Option (Object W)
  marshal (order_accepted e) = encode e.base (e.from_amount ∷ []) (
      ("user_id", string e.user_id)
      ∷ ("from_amount", float e.from_amount)
      ∷ ("from_currency", string e.from_currency)
      ∷ ("to_currency", string e.to_currency)
      ∷ ("order_type", string e.order_type)
      ∷ [])
  marshal (price_quoted e) = encode e.base (e.price ∷ e.to_amount ∷ []) (
      ("price", float e.price)
      ∷ ("to_amount", float e.to_amount)
      ∷ ("quote_timestamp", time e.quote_timestamp)
      ∷ [])
  marshal (swap_executing e) = encode e.base [] (("idempotency_key", string e.idempotency_key) ∷ [])
  marshal (swap_executed e) =
      encode e.base (e.from_amount ∷ e.to_amount ∷ e.executed_price ∷ e.fees ∷ e.slippage ∷ []) (
        ("transaction_hash", string e.transaction_hash)
        ∷ ("from_amount", float e.from_amount)
        ∷ ("to_amount", float e.to_amount)
        ∷ ("executed_price", float e.executed_price)
        ∷ ("fees", float e.fees)
        ∷ ("slippage", float e.slippage)
        ∷ [])
  marshal (order_completed e) =
      encode e.base (e.from_amount ∷ e.to_amount ∷ e.executed_price ∷ []) (
        ("from_amount", float e.from_amount)
        ∷ ("to_amount", float e.to_amount)
        ∷ ("executed_price", float e.executed_price)
        ∷ ("status", string e.status)
        ∷ [])
  marshal (order_failed e) =
      encode e.base [] (("reason", string e.reason) ∷ ("failed_at", time e.failed_at) ∷ [])
  marshal (order_initialized e) = encode e.base [] []
  marshal (limit_price_set e) =
      encode e.base (e.limit_price ∷ []) (("limit_price", float e.limit_price) ∷ [])
  marshal (order_updated e) =
      if fields_finite e.updated_fields
      then encode e.base [] (("updated_fields", object e.updated_fields) ∷ [])
      else none
  marshal (order_cancelled e) =
      encode e.base [] (("reason", string e.reason) ∷ ("cancelled_at", time e.cancelled_at) ∷ [])
  marshal (balance_check_passed e) =
      encode e.base (e.available_amount ∷ [])
        (("available_amount", float e.available_amount) ∷ ("currency", string e.currency) ∷ [])
  marshal (balance_check_failed e) = encode e.base (e.required_amount ∷ e.available_amount ∷ []) (
      ("required_amount", float e.required_amount)
      ∷ ("available_amount", float e.available_amount)
      ∷ ("currency", string e.currency)
      ∷ [])
  marshal (order_placed_in_book e) =
      encode e.base []
        (("order_book_id", string e.order_book_id) ∷ ("placed_at", time e.placed_at) ∷ [])
  marshal (order_partially_filled e) = encode e.base (e.filled_amount ∷ e.executed_price ∷ []) (
      ("filled_amount", float e.filled_amount)
      ∷ ("executed_price", float e.executed_price)
      ∷ ("transaction_hash", string e.transaction_hash)
      ∷ ("filled_at", time e.filled_at)
      ∷ [])
  marshal (position_created_for_order e) =
      encode e.base [] (("position_id", string e.position_id) ∷ ("user_id", string e.user_id) ∷ [])
  marshal (position_linked_to_order e) =
      encode e.base []
        (("position_id", string e.position_id) ∷ ("order_id", string e.order_id) ∷ [])

  -- `json.Unmarshal` into the struct of each event that is read.
  abbrev unmarshal_base : Object W → Option (BaseEvent W)
  unmarshal_base o = do
    event_id ← get_string "event_id" o
    aggregate_id ← get_string "aggregate_id" o
    aggregate_type ← get_string "aggregate_type" o
    event_type ← get_string "event_type" o
    version ← get_int "version" o
    timestamp ← get_time "timestamp" o
    metadata ← get_object "metadata" o
    some (record {
      event_id = event_id;
      aggregate_id = aggregate_id;
      aggregate_type = aggregate_type;
      event_type = event_type;
      version = version;
      timestamp = timestamp;
      metadata = metadata;
    })

  unfoldable pub unmarshal_order_accepted : Object W → Option (OrderAccepted W)
  unmarshal_order_accepted o = do
    base ← unmarshal_base o
    user_id ← get_string "user_id" o
    from_amount ← get_float "from_amount" o
    from_currency ← get_string "from_currency" o
    to_currency ← get_string "to_currency" o
    order_type ← get_string "order_type" o
    some (record {
      base = base;
      user_id = user_id;
      from_amount = from_amount;
      from_currency = from_currency;
      to_currency = to_currency;
      order_type = order_type;
    })

  unfoldable pub unmarshal_price_quoted : Object W → Option (PriceQuoted W)
  unmarshal_price_quoted o = do
    base ← unmarshal_base o
    price ← get_float "price" o
    to_amount ← get_float "to_amount" o
    quote_timestamp ← get_time "quote_timestamp" o
    some (record {
      base = base;
      price = price;
      to_amount = to_amount;
      quote_timestamp = quote_timestamp;
    })

  unfoldable pub unmarshal_swap_executing : Object W → Option (SwapExecuting W)
  unmarshal_swap_executing o = do
    base ← unmarshal_base o
    idempotency_key ← get_string "idempotency_key" o
    some (record { base = base; idempotency_key = idempotency_key })

  unfoldable pub unmarshal_swap_executed : Object W → Option (SwapExecuted W)
  unmarshal_swap_executed o = do
    base ← unmarshal_base o
    transaction_hash ← get_string "transaction_hash" o
    from_amount ← get_float "from_amount" o
    to_amount ← get_float "to_amount" o
    executed_price ← get_float "executed_price" o
    fees ← get_float "fees" o
    slippage ← get_float "slippage" o
    some (record {
      base = base;
      transaction_hash = transaction_hash;
      from_amount = from_amount;
      to_amount = to_amount;
      executed_price = executed_price;
      fees = fees;
      slippage = slippage;
    })

  unfoldable pub unmarshal_order_completed : Object W → Option (OrderCompleted W)
  unmarshal_order_completed o = do
    base ← unmarshal_base o
    from_amount ← get_float "from_amount" o
    to_amount ← get_float "to_amount" o
    executed_price ← get_float "executed_price" o
    status ← get_string "status" o
    some (record {
      base = base;
      from_amount = from_amount;
      to_amount = to_amount;
      executed_price = executed_price;
      status = status;
    })

  unfoldable pub unmarshal_order_failed : Object W → Option (OrderFailed W)
  unmarshal_order_failed o = do
    base ← unmarshal_base o
    reason ← get_string "reason" o
    failed_at ← get_time "failed_at" o
    some (record { base = base; reason = reason; failed_at = failed_at })

  unfoldable pub unmarshal_position_created_for_order :
      Object W → Option (PositionCreatedForOrder W)
  unmarshal_position_created_for_order o = do
    base ← unmarshal_base o
    position_id ← get_string "position_id" o
    user_id ← get_string "user_id" o
    some (record { base = base; position_id = position_id; user_id = user_id })

  -- A stored event of one of six types is read; any other type is an error.
  unfoldable pub deserialize : String → Object W → Option (Event W)
  unfolding unmarshal_order_accepted unmarshal_price_quoted unmarshal_swap_executing
      unmarshal_swap_executed unmarshal_order_completed unmarshal_order_failed
  deserialize kind o =
      if kind == "OrderAccepted"
      then (do e ← unmarshal_order_accepted o; some (order_accepted e))
      else if kind == "PriceQuoted"
      then (do e ← unmarshal_price_quoted o; some (price_quoted e))
      else if kind == "SwapExecuting"
      then (do e ← unmarshal_swap_executing o; some (swap_executing e))
      else if kind == "SwapExecuted"
      then (do e ← unmarshal_swap_executed o; some (swap_executed e))
      else if kind == "OrderCompleted"
      then (do e ← unmarshal_order_completed o; some (order_completed e))
      else if kind == "OrderFailed"
      then (do e ← unmarshal_order_failed o; some (order_failed e))
      else none
