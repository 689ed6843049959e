-- ===== src/Order/Aggregate.antt =====
-- domain/order/aggregate.go: the order, `NewOrder`, `When` and `Apply`. A method that mutates
-- `*Order` returns the new record and the error.
use saga_market_order.Prelude.{
  ℕ, String, Option, none, some, List, [], ◌∷◌, ◌++◌, ◌==◌, if◌then◌else◌,
}
use saga_market_order.Float.{Float}
use saga_market_order.Order.Events.{
  Value, text, number, other, Fields, Time, BaseEvent, Event, order_accepted, price_quoted,
  swap_executing, swap_executed, order_completed, order_failed, order_initialized, limit_price_set,
  order_updated, order_cancelled, balance_check_passed, balance_check_failed, order_placed_in_book,
  order_partially_filled, position_created_for_order, position_linked_to_order,
}

-- `OrderStatus`; `unset` is the empty string of a new order.
pub data OrderStatus : Type 0 where
  unset pending executing completed failed : OrderStatus

-- The text that the constant stands for.
abbrev pub status_text : OrderStatus → String
status_text unset = ""
status_text pending = "pending"
status_text executing = "executing"
status_text completed = "completed"
status_text failed = "failed"

-- The message of `errors.New`, or of `fmt.Errorf` with the status or the event put in.
pub data Error (W : Type 0) : Type 0 where
  message : String → Error W
  bad_status : String → OrderStatus → Error W
  unknown_event : Event W → Error W

pub record Order (W : Type 0) : Type 0 where
  pub id : String
  pub user_id : String
  pub from_amount : W
  pub from_currency : String
  pub to_currency : String
  pub to_amount : W
  pub executed_price : W
  pub order_type : String
  pub status : OrderStatus
  pub version : ℕ
  pub created_at : Time
  pub updated_at : Time
  pub changes : List (Event W)

-- What a method leaves: the order and the error, if any.
abbrev pub Outcome : Type 0 → Type 0
Outcome W = Order W × Option (Error W)

module _ {W : Type 0} ⦃f : Float W⦄ where
  open f use {nought, add}

  unfoldable pub new_order : Order W
  new_order = record {
    id = "";
    user_id = "";
    from_amount = nought;
    from_currency = "";
    to_currency = "";
    to_amount = nought;
    executed_price = nought;
    order_type = "";
    status = unset;
    version = 0;
    created_at = 0;
    updated_at = 0;
    changes = [];
  }

  -- The body of the loop over `UpdatedFields`; a value that is no float64 is passed over.
  abbrev pub update_field : String → Value W → Order W → Order W
  update_field key (number v) o =
      if key == "from_amount"
      then record o { from_amount = v }
      else if key == "to_amount"
      then record o { to_amount = v }
      else o
  update_field key (text _) o = o
  update_field key other o = o

  unfoldable pub update_fields : Fields W → Order W → Order W
  update_fields [] o = o
  update_fields ((key, value) ∷ fields) o = update_fields fields (update_field key value o)

  -- `o.Version = e.Version; o.UpdatedAt = e.Timestamp`, the end of every case of `When`.
  abbrev pub touch : BaseEvent W → Order W → Order W
  touch e o = record o { version = e.version; updated_at = e.timestamp }

  unfoldable pub when : Event W → Order W → Outcome W
  when (order_accepted e) o = (
    touch e.base (record o {
      id = e.aggregate_id;
      user_id = e.user_id;
      from_amount = e.from_amount;
      from_currency = e.from_currency;
      to_currency = e.to_currency;
      order_type = e.order_type;
      status = pending;
      created_at = e.timestamp;
    }),
    none,
  )
  when (price_quoted e) o =
      (touch e.base (record o { to_amount = e.to_amount; executed_price = e.price }), none)
  when (swap_executing e) o = (touch e.base (record o { status = executing }), none)
  when (swap_executed e) o =
      (touch e.base (record o { to_amount = e.to_amount; executed_price = e.executed_price }), none)
  when (order_completed e) o = (
    touch e.base (record o {
      status = completed;
      from_amount = e.from_amount;
      to_amount = e.to_amount;
      executed_price = e.executed_price;
    }),
    none,
  )
  when (order_failed e) o = (touch e.base (record o { status = failed }), none)
  when (order_initialized e) o = (touch e.base o, none)
  when (limit_price_set e) o = (touch e.base (record o { executed_price = e.limit_price }), none)
  when (order_updated e) o = (touch e.base (update_fields e.updated_fields o), none)
  when (order_cancelled e) o = (touch e.base (record o { status = failed }), none)
  when (balance_check_passed e) o = (touch e.base o, none)
  when (balance_check_failed e) o = (touch e.base o, none)
  when (order_placed_in_book e) o = (touch e.base o, none)
  when (order_partially_filled e) o = (
    touch e.base (record o {
      to_amount = add o.to_amount e.filled_amount;
      executed_price = e.executed_price;
    }),
    none,
  )
  when (position_created_for_order e) o = (o, some (unknown_event (position_created_for_order e)))
  when (position_linked_to_order e) o = (o, some (unknown_event (position_linked_to_order e)))

  -- The end of `Apply`: after an error of `When` it returns, else it appends to `Changes`.
  abbrev pub record_change : Event W → Outcome W → Outcome W
  record_change e (o, some err) = (o, some err)
  record_change e (o, none) = (record o { changes = o.changes ++ e ∷ [] }, none)

  unfoldable pub apply : Event W → Order W → Outcome W
  apply e o = record_change e (when e o)
