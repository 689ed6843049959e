-- ===== src/OrderBook/Events.antt =====
-- domain/orderbook/events.go: the events of an order book.
use saga_market_order.Prelude.{ℕ, String}

abbrev pub Time : Type 0
Time = ℕ

pub record BaseEvent : Type 0 where
  pub event_id : String
  pub aggregate_id : String
  pub aggregate_type : String
  pub event_type : String
  pub version : ℕ
  pub timestamp : Time

pub record OrderBookCreated : Type 0 where
  pub base : BaseEvent
  pub open base use *
  pub trading_pair : String

pub record LimitOrderAdded (W : Type 0) : Type 0 where
  pub base : BaseEvent
  pub open base use *
  pub order_id : String
  pub user_id : String
  pub price : W
  pub amount : W
  pub side : String
  pub placed_at : Time

pub record OrdersMatched (W : Type 0) : Type 0 where
  pub base : BaseEvent
  pub open base use *
  pub buy_order_id : String
  pub sell_order_id : String
  pub matched_price : W
  pub matched_amount : W
  pub matched_at : Time

pub record LimitOrderCancelled : Type 0 where
  pub base : BaseEvent
  pub open base use *
  pub order_id : String
  pub side : String
  pub cancelled_at : Time

pub record PriceUpdated (W : Type 0) : Type 0 where
  pub base : BaseEvent
  pub open base use *
  pub new_price : W
  pub old_price : W
  pub source : String
  pub updated_at : Time

-- The `interface{}` that holds an event of this package; `unknown` is a value of any other type,
-- with the type's name.
pub data Event (W : Type 0) : Type 0 where
  order_book_created : OrderBookCreated → Event W
  limit_order_added : LimitOrderAdded W → Event W
  orders_matched : OrdersMatched W → Event W
  limit_order_cancelled : LimitOrderCancelled → Event W
  price_updated : PriceUpdated W → Event W
  unknown : String → Event W
