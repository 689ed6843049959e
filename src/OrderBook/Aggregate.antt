-- ===== src/OrderBook/Aggregate.antt =====
-- domain/orderbook/aggregate.go: the book, `NewOrderBook`, `When`, `Apply` and the helper methods.
use saga_market_order.Prelude.{
  ℕ, String, Bool, Option, none, some, List, [], ◌∷◌, ◌++◌, ◌==◌, if◌then◌else◌,
}
use saga_market_order.Prelude.Sorting.{SortSlice}
use saga_market_order.Float.{Float}
use saga_market_order.OrderBook.Events.{
  Time, BaseEvent, Event, order_book_created, limit_order_added, orders_matched,
  limit_order_cancelled, price_updated, unknown,
}

-- `OrderBookStatus`; `unset` is the empty string of a new book.
pub data OrderBookStatus : Type 0 where
  unset active suspended closed : OrderBookStatus

pub record LimitOrder (W : Type 0) : Type 0 where
  pub order_id : String
  pub user_id : String
  pub price : W
  pub amount : W
  pub side : String
  pub placed_at : Time
  pub remaining_amount : W

pub record OrderBook (W : Type 0) : Type 0 where
  pub id : String
  pub trading_pair : String
  pub buy_orders : List (LimitOrder W)
  pub sell_orders : List (LimitOrder W)
  pub last_price : W
  pub status : OrderBookStatus
  pub version : ℕ
  pub created_at : Time
  pub updated_at : Time
  pub changes : List (Event W)

pub data Error : Type 0 where
  message : String → Error
  book_is : OrderBookStatus → Error
  unknown_event : String → Error

abbrev pub Outcome : Type 0 → Type 0
Outcome W = OrderBook W × Option Error

module _ {W : Type 0} ⦃f : Float W⦄ where
  open f use {nought, lt, le, sub}

  unfoldable pub new_order_book : OrderBook W
  new_order_book = record {
    id = "";
    trading_pair = "";
    buy_orders = [];
    sell_orders = [];
    last_price = nought;
    status = unset;
    version = 0;
    created_at = 0;
    updated_at = 0;
    changes = [];
  }

  -- The comparisons that the two lists are sorted by.
  abbrev pub dearer : LimitOrder W → LimitOrder W → Bool
  dearer a b = lt b.price a.price

  abbrev pub cheaper : LimitOrder W → LimitOrder W → Bool
  cheaper a b = lt a.price b.price

  -- `removeOrUpdateOrder` on the list of its side: the first order with the id.
  unfoldable pub take_from : String → W → List (LimitOrder W) → List (LimitOrder W)
  take_from id matched [] = []
  take_from id matched (o ∷ os) =
      if o.order_id == id
      then (if le (sub o.remaining_amount matched) nought
          then os
          else record o { remaining_amount = sub o.remaining_amount matched } ∷ os)
      else o ∷ take_from id matched os

  -- `removeOrder` on the list of its side.
  unfoldable pub drop_order : String → List (LimitOrder W) → List (LimitOrder W)
  drop_order id [] = []
  drop_order id (o ∷ os) = if o.order_id == id then os else o ∷ drop_order id os

  unfoldable pub remove_or_update_order : String → W → String → OrderBook W → OrderBook W
  unfolding take_from
  remove_or_update_order id matched side b =
      if side == "buy"
      then record b { buy_orders = take_from id matched b.buy_orders }
      else record b { sell_orders = take_from id matched b.sell_orders }

  unfoldable pub remove_order : String → String → OrderBook W → OrderBook W
  unfolding drop_order
  remove_order id side b =
      if side == "buy"
      then record b { buy_orders = drop_order id b.buy_orders }
      else record b { sell_orders = drop_order id b.sell_orders }

  -- `ob.Version = e.Version; ob.UpdatedAt = e.Timestamp`, the end of every case of `When`.
  abbrev pub touch : BaseEvent → OrderBook W → OrderBook W
  touch e b = record b { version = e.version; updated_at = e.timestamp }

  module _ ⦃sorter : SortSlice (LimitOrder W)⦄ where
    -- The append and the sort of a side that a new order joins.
    abbrev pub place : LimitOrder W → String → OrderBook W → OrderBook W
    place o side b =
        if side == "buy"
        then record b { buy_orders = sorter.sort dearer (b.buy_orders ++ o ∷ []) }
        else record b { sell_orders = sorter.sort cheaper (b.sell_orders ++ o ∷ []) }

    unfoldable pub when : Event W → OrderBook W → Outcome W
    unfolding remove_or_update_order remove_order
    when (order_book_created e) b = (
      touch e.base (record b {
        id = e.aggregate_id;
        trading_pair = e.trading_pair;
        status = active;
        created_at = e.timestamp;
      }),
      none,
    )
    when (limit_order_added e) b = (
      touch e.base (
          place
            (record {
              order_id = e.order_id;
              user_id = e.user_id;
              price = e.price;
              amount = e.amount;
              side = e.side;
              placed_at = e.placed_at;
              remaining_amount = e.amount;
            })
            e.side b),
      none,
    )
    when (orders_matched e) b =
        let bought = remove_or_update_order e.buy_order_id e.matched_amount "buy" b in
        let sold = remove_or_update_order e.sell_order_id e.matched_amount "sell" bought in
        (touch e.base (record sold { last_price = e.matched_price }), none)
    when (limit_order_cancelled e) b = (touch e.base (remove_order e.order_id e.side b), none)
    when (price_updated e) b = (touch e.base (record b { last_price = e.new_price }), none)
    when (unknown kind) b = (b, some (unknown_event kind))

    abbrev pub record_change : Event W → Outcome W → Outcome W
    record_change e (b, some err) = (b, some err)
    record_change e (b, none) = (record b { changes = b.changes ++ e ∷ [] }, none)

    unfoldable pub apply : Event W → OrderBook W → Outcome W
    apply e b = record_change e (when e b)
