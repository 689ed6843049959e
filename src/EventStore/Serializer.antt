-- ===== src/EventStore/Serializer.antt =====
-- infrastructure/eventstore/serializer.go: an event's JSON and its base fields.
use mathlib.Core.Option
use saga_market_order.Prelude.{ℕ, String, Option, none, some, List, [], ◌∷◌, if◌then◌else◌}
use saga_market_order.Float.{Float}
use saga_market_order.Json.{Object, all_finite}
use saga_market_order.Order.Codec as OrderCodec
use saga_market_order.Order.Events as OrderEvents
use saga_market_order.Position.Codec as PositionCodec
use saga_market_order.Position.Events as PositionEvents
use saga_market_order.OrderBook.Events as BookEvents
use saga_market_order.Result.{Result, text, ok, err}

pub record BaseFields : Type 0 where
  pub event_id : String
  pub aggregate_id : String
  pub aggregate_type : String
  pub event_type : String
  pub version : ℕ
  pub timestamp : ℕ

-- The `interface{}` that `Save` takes.
pub data Any (W : Type 0) : Type 0 where
  order_event : OrderEvents.Event W → Any W
  position_event : PositionEvents.Event W → Any W
  book_event : BookEvents.Event W → Any W

-- `GetBaseFields` of the order's and of the position's `BaseEvent`.
abbrev pub order_fields : {W : Type 0} → OrderEvents.BaseEvent W → BaseFields
order_fields b = record {
  event_id = b.event_id;
  aggregate_id = b.aggregate_id;
  aggregate_type = b.aggregate_type;
  event_type = b.event_type;
  version = b.version;
  timestamp = b.timestamp;
}

abbrev pub position_fields : PositionEvents.BaseEvent → BaseFields
position_fields b = record {
  event_id = b.event_id;
  aggregate_id = b.aggregate_id;
  aggregate_type = b.aggregate_type;
  event_type = b.event_type;
  version = b.version;
  timestamp = b.timestamp;
}

-- The float64 fields of an order book's event.
abbrev book_floats : {W : Type 0} → BookEvents.Event W → List W
book_floats (BookEvents.limit_order_added e) = e.price ∷ e.amount ∷ []
book_floats (BookEvents.orders_matched e) = e.matched_price ∷ e.matched_amount ∷ []
book_floats (BookEvents.price_updated e) = e.new_price ∷ e.old_price ∷ []
book_floats _ = []

-- The type assertion to `BaseFieldsProvider`: `GetBaseEvent` of an order book's event returns that
-- package's own `BaseFields`, so the assertion fails on it.
abbrev pub provided : {W : Type 0} → Any W → Option BaseFields
provided (order_event e) = some (order_fields (OrderEvents.base_of e))
provided (position_event e) = Option.map position_fields (PositionEvents.base_of e)
provided (book_event e) = none

module _ {W : Type 0} ⦃f : Float W⦄ where
  -- `json.Marshal` of the event.
  abbrev pub marshal : Any W → Option (Object W)
  marshal (order_event e) = OrderCodec.marshal e
  marshal (position_event e) = PositionCodec.marshal e
  marshal (book_event e) = if all_finite (book_floats e) then some [] else none

  abbrev with_fields : Object W → Option BaseFields → Result W (Object W × BaseFields)
  with_fields o none = err (text "event must implement BaseFieldsProvider interface")
  with_fields o (some b) = ok (o, b)

  abbrev with_object : Any W → Option (Object W) → Result W (Object W × BaseFields)
  with_object e none = err (text "json: unsupported value")
  with_object e (some o) = with_fields o (provided e)

  unfoldable pub serialize_event : Any W → Result W (Object W × BaseFields)
  serialize_event e = with_object e (marshal e)
