-- ===== src/Order/Events.antt =====
-- domain/order/events.go: the events of an order. A time is a number of ticks; a `map` is a list of
-- its entries.
use saga_market_order.Prelude.{ℕ, String, List}

-- A value of a `map[string]interface{}`: the code looks only for strings and float64 values. `other`
-- is any other value; as JSON it is read back as it was, which is right of a Boolean or a nil, and
-- not of an int, which becomes a float64. The program writes only strings into metadata, and the
-- store reads no `OrderUpdated` back.
pub data Value (W : Type 0) : Type 0 where
  text : String → Value W
  number : W → Value W
  other : Value W

abbrev pub Fields : Type 0 → Type 0
Fields W = List (String × Value W)

abbrev pub Time : Type 0
Time = ℕ

pub record BaseEvent (W : Type 0) : Type 0 where
  pub event_id : String
  pub aggregate_id : String
  pub aggregate_type : String
  pub event_type : String
  pub version : ℕ
  pub timestamp : Time
  pub metadata : Fields W

pub record OrderAccepted (W : Type 0) : Type 0 where
  pub base : BaseEvent W
  pub open base use *
  pub user_id : String
  pub from_amount : W
  pub from_currency : String
  pub to_currency : String
  pub order_type : String

pub record PriceQuoted (W : Type 0) : Type 0 where
  pub base : BaseEvent W
  pub open base use *
  pub price : W
  pub to_amount : W
  pub quote_timestamp : Time

pub record SwapExecuting (W : Type 0) : Type 0 where
  pub base : BaseEvent W
  pub open base use *
  pub idempotency_key : String

pub record SwapExecuted (W : Type 0) : Type 0 where
  pub base : BaseEvent W
  pub open base use *
  pub transaction_hash : String
  pub from_amount : W
  pub to_amount : W
  pub executed_price : W
  pub fees : W
  pub slippage : W

pub record OrderCompleted (W : Type 0) : Type 0 where
  pub base : BaseEvent W
  pub open base use *
  pub from_amount : W
  pub to_amount : W
  pub executed_price : W
  pub status : String

pub record OrderFailed (W : Type 0) : Type 0 where
  pub base : BaseEvent W
  pub open base use *
  pub reason : String
  pub failed_at : Time

pub record OrderInitialized (W : Type 0) : Type 0 where
  pub base : BaseEvent W
  pub open base use *

pub record LimitPriceSet (W : Type 0) : Type 0 where
  pub base : BaseEvent W
  pub open base use *
  pub limit_price : W

pub record OrderUpdated (W : Type 0) : Type 0 where
  pub base : BaseEvent W
  pub open base use *
  pub updated_fields : Fields W

pub record OrderCancelled (W : Type 0) : Type 0 where
  pub base : BaseEvent W
  pub open base use *
  pub reason : String
  pub cancelled_at : Time

pub record BalanceCheckPassed (W : Type 0) : Type 0 where
  pub base : BaseEvent W
  pub open base use *
  pub available_amount : W
  pub currency : String

pub record BalanceCheckFailed (W : Type 0) : Type 0 where
  pub base : BaseEvent W
  pub open base use *
  pub required_amount : W
  pub available_amount : W
  pub currency : String

pub record OrderPlacedInBook (W : Type 0) : Type 0 where
  pub base : BaseEvent W
  pub open base use *
  pub order_book_id : String
  pub placed_at : Time

pub record OrderPartiallyFilled (W : Type 0) : Type 0 where
  pub base : BaseEvent W
  pub open base use *
  pub filled_amount : W
  pub executed_price : W
  pub transaction_hash : String
  pub filled_at : Time

-- The saga's own two events.
pub record PositionCreatedForOrder (W : Type 0) : Type 0 where
  pub base : BaseEvent W
  pub open base use *
  pub position_id : String
  pub user_id : String

pub record PositionLinkedToOrder (W : Type 0) : Type 0 where
  pub base : BaseEvent W
  pub open base use *
  pub position_id : String
  pub order_id : String

-- The `interface{}` that holds an event of this package.
pub data Event (W : Type 0) : Type 0 where
  order_accepted : OrderAccepted W → Event W
  price_quoted : PriceQuoted W → Event W
  swap_executing : SwapExecuting W → Event W
  swap_executed : SwapExecuted W → Event W
  order_completed : OrderCompleted W → Event W
  order_failed : OrderFailed W → Event W
  order_initialized : OrderInitialized W → Event W
  limit_price_set : LimitPriceSet W → Event W
  order_updated : OrderUpdated W → Event W
  order_cancelled : OrderCancelled W → Event W
  balance_check_passed : BalanceCheckPassed W → Event W
  balance_check_failed : BalanceCheckFailed W → Event W
  order_placed_in_book : OrderPlacedInBook W → Event W
  order_partially_filled : OrderPartiallyFilled W → Event W
  position_created_for_order : PositionCreatedForOrder W → Event W
  position_linked_to_order : PositionLinkedToOrder W → Event W

-- The embedded `BaseEvent`, which every event's `GetBaseEvent` reads.
abbrev pub base_of : {W : Type 0} → Event W → BaseEvent W
base_of (order_accepted e) = e.base
base_of (price_quoted e) = e.base
base_of (swap_executing e) = e.base
base_of (swap_executed e) = e.base
base_of (order_completed e) = e.base
base_of (order_failed e) = e.base
base_of (order_initialized e) = e.base
base_of (limit_price_set e) = e.base
base_of (order_updated e) = e.base
base_of (order_cancelled e) = e.base
base_of (balance_check_passed e) = e.base
base_of (balance_check_failed e) = e.base
base_of (order_placed_in_book e) = e.base
base_of (order_partially_filled e) = e.base
base_of (position_created_for_order e) = e.base
base_of (position_linked_to_order e) = e.base

-- The name of the event's type, which the commands write into `EventType`.
abbrev pub type_name : {W : Type 0} → Event W → String
type_name (order_accepted _) = "OrderAccepted"
type_name (price_quoted _) = "PriceQuoted"
type_name (swap_executing _) = "SwapExecuting"
type_name (swap_executed _) = "SwapExecuted"
type_name (order_completed _) = "OrderCompleted"
type_name (order_failed _) = "OrderFailed"
type_name (order_initialized _) = "OrderInitialized"
type_name (limit_price_set _) = "LimitPriceSet"
type_name (order_updated _) = "OrderUpdated"
type_name (order_cancelled _) = "OrderCancelled"
type_name (balance_check_passed _) = "BalanceCheckPassed"
type_name (balance_check_failed _) = "BalanceCheckFailed"
type_name (order_placed_in_book _) = "OrderPlacedInBook"
type_name (order_partially_filled _) = "OrderPartiallyFilled"
type_name (position_created_for_order _) = "PositionCreatedForOrder"
type_name (position_linked_to_order _) = "PositionLinkedToOrder"
