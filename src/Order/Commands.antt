-- ===== src/Order/Commands.antt =====
-- domain/order/aggregate.go: the commands. Each checks the order and its arguments, and applies one
-- event. What `generateUUID` and the two calls of `time.Now` return is the argument `Stamp`.
use saga_market_order.Prelude.{
  String, Bool, none, some, [], ◌∷◌, true, false, not, ◌&&◌, ◌||◌, ◌==◌, if◌then◌else◌, int_suc,
}
use saga_market_order.Float.{Float}
use saga_market_order.Order.Events.{
  text, Fields, Time, BaseEvent, order_accepted, price_quoted, swap_executing, swap_executed,
  order_completed, order_failed, order_initialized, limit_price_set, order_updated, order_cancelled,
  balance_check_passed, balance_check_failed, order_placed_in_book, order_partially_filled,
}
use saga_market_order.Order.Aggregate.{
  OrderStatus, pending, executing, completed, failed, message, bad_status, Order, Outcome, apply,
}

pub record Stamp : Type 0 where
  pub uuid : String
  pub now : Time
  pub later : Time

abbrev pub is_pending : OrderStatus → Bool
is_pending pending = true
is_pending _ = false

abbrev pub is_executing : OrderStatus → Bool
is_executing executing = true
is_executing _ = false

abbrev pub is_completed : OrderStatus → Bool
is_completed completed = true
is_completed _ = false

abbrev pub is_failed : OrderStatus → Bool
is_failed failed = true
is_failed _ = false

module _ {W : Type 0} ⦃f : Float W⦄ where
  open f use {nought, ten, lt, le}

  -- The `BaseEvent` literal of every command but `AcceptOrder`.
  abbrev pub next_base : Stamp → Order W → String → BaseEvent W
  next_base s o event_type = record {
    event_id = s.uuid;
    aggregate_id = o.id;
    aggregate_type = "Order";
    event_type = event_type;
    version = int_suc o.version;
    timestamp = s.now;
    metadata = [];
  }

  unfoldable pub accept_order :
      Stamp → String → String → W → String → String → String → Order W → Outcome W
  accept_order s order_id user_id from_amount from_currency to_currency order_type o =
      if le from_amount nought
      then (o, some (message "from_amount must be positive"))
      else if lt from_amount ten
      then (o, some (message "minimum order amount is 10"))
      else if not (order_type == "market") && not (order_type == "limit")
      then (o, some (message "order_type must be 'market' or 'limit'"))
      else apply
          (order_accepted record {
            base = record {
              event_id = s.uuid;
              aggregate_id = order_id;
              aggregate_type = "Order";
              event_type = "OrderAccepted";
              version = 1;
              timestamp = s.now;
              metadata = ("user_agent", text "api-v1") ∷ [];
            };
            user_id = user_id;
            from_amount = from_amount;
            from_currency = from_currency;
            to_currency = to_currency;
            order_type = order_type;
          })
          o

  unfoldable pub quote_price : Stamp → W → W → Order W → Outcome W
  quote_price s price to_amount o =
      if not (is_pending o.status)
      then (o, some (bad_status "cannot quote price" o.status))
      else if le price nought || le to_amount nought
      then (o, some (message "price and toAmount must be positive"))
      else apply
          (price_quoted (record {
            base = next_base s o "PriceQuoted";
            price = price;
            to_amount = to_amount;
            quote_timestamp = s.later;
          }))
          o

  unfoldable pub start_swap_execution : Stamp → String → Order W → Outcome W
  start_swap_execution s idempotency_key o =
      if not (is_pending o.status)
      then (o, some (bad_status "cannot start execution" o.status))
      else apply
          (swap_executing
            (record { base = next_base s o "SwapExecuting"; idempotency_key = idempotency_key }))
          o

  unfoldable pub record_swap_execution : Stamp → String → W → W → W → W → W → Order W → Outcome W
  record_swap_execution s tx_hash from_amount to_amount executed_price fees slippage o =
      if not (is_executing o.status)
      then (o, some (bad_status "cannot record execution" o.status))
      else apply
          (swap_executed (record {
            base = next_base s o "SwapExecuted";
            transaction_hash = tx_hash;
            from_amount = from_amount;
            to_amount = to_amount;
            executed_price = executed_price;
            fees = fees;
            slippage = slippage;
          }))
          o

  -- A completed order is left as it is, without an error.
  unfoldable pub complete_order : Stamp → Order W → Outcome W
  complete_order s o =
      if is_completed o.status
      then (o, none)
      else if not (is_executing o.status)
      then (o, some (bad_status "cannot complete order" o.status))
      else apply
          (order_completed (record {
            base = next_base s o "OrderCompleted";
            from_amount = o.from_amount;
            to_amount = o.to_amount;
            executed_price = o.executed_price;
            status = "completed";
          }))
          o

  unfoldable pub fail_order : Stamp → String → Order W → Outcome W
  fail_order s reason o =
      if is_failed o.status
      then (o, none)
      else if is_completed o.status
      then (o, some (message "cannot fail completed order"))
      else apply
          (order_failed
            (record { base = next_base s o "OrderFailed"; reason = reason; failed_at = s.later }))
          o

  unfoldable pub initialize_order : Stamp → Order W → Outcome W
  initialize_order s o =
      if not (is_pending o.status)
      then (o, some (bad_status "cannot initialize" o.status))
      else apply (order_initialized (record { base = next_base s o "OrderInitialized" })) o

  unfoldable pub set_limit_price : Stamp → W → Order W → Outcome W
  set_limit_price s limit_price o =
      if not (o.order_type == "limit")
      then (o, some (message "cannot set limit price: order is not a limit order"))
      else if not (is_pending o.status)
      then (o, some (bad_status "cannot set limit price" o.status))
      else if le limit_price nought
      then (o, some (message "limit price must be positive"))
      else apply
          (limit_price_set
            (record { base = next_base s o "LimitPriceSet"; limit_price = limit_price }))
          o

  unfoldable pub update_order : Stamp → Fields W → Order W → Outcome W
  update_order s params o =
      if is_completed o.status
      then (o, some (message "cannot update completed order"))
      else if is_failed o.status
      then (o, some (message "cannot update failed order"))
      else apply
          (order_updated (record { base = next_base s o "OrderUpdated"; updated_fields = params }))
          o

  unfoldable pub cancel_order : Stamp → String → Order W → Outcome W
  cancel_order s reason o =
      if is_failed o.status
      then (o, none)
      else if is_completed o.status
      then (o, some (message "cannot cancel completed order"))
      else if is_executing o.status
      then (o, some (message "cannot cancel executing order"))
      else apply
          (order_cancelled (record {
            base = next_base s o "OrderCancelled";
            reason = reason;
            cancelled_at = s.later;
          }))
          o

  unfoldable pub check_balances : Stamp → W → Order W → Outcome W
  check_balances s available_balance o =
      if not (is_pending o.status)
      then (o, some (bad_status "cannot check balances" o.status))
      else if lt available_balance o.from_amount
      then apply
          (balance_check_failed (record {
            base = next_base s o "BalanceCheckFailed";
            required_amount = o.from_amount;
            available_amount = available_balance;
            currency = o.from_currency;
          }))
          o
      else apply
          (balance_check_passed (record {
            base = next_base s o "BalanceCheckPassed";
            available_amount = available_balance;
            currency = o.from_currency;
          }))
          o

  unfoldable pub place_in_order_book : Stamp → String → Order W → Outcome W
  place_in_order_book s order_book_id o =
      if not (o.order_type == "limit")
      then (o, some (message "only limit orders can be placed in order book"))
      else if not (is_pending o.status)
      then (o, some (bad_status "cannot place in order book" o.status))
      else apply
          (order_placed_in_book (record {
            base = next_base s o "OrderPlacedInBook";
            order_book_id = order_book_id;
            placed_at = s.later;
          }))
          o

  unfoldable pub partially_fill : Stamp → W → W → String → Order W → Outcome W
  partially_fill s filled_amount executed_price transaction_hash o =
      if not (is_executing o.status)
      then (o, some (bad_status "cannot partially fill" o.status))
      else if le filled_amount nought || lt o.from_amount filled_amount
      then (o, some (message "invalid filled amount"))
      else apply
          (order_partially_filled (record {
            base = next_base s o "OrderPartiallyFilled";
            filled_amount = filled_amount;
            executed_price = executed_price;
            transaction_hash = transaction_hash;
            filled_at = s.later;
          }))
          o
