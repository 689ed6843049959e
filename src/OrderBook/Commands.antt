-- ===== src/OrderBook/Commands.antt =====
-- domain/orderbook/aggregate.go: the commands. What `generateUUID` and the two calls of `time.Now`
-- return is the argument `Stamp`.
use saga_market_order.Prelude.{
  String, Bool, true, false, none, some, List, [], ◌∷◌, not, ◌&&◌, ◌||◌, ◌==◌, if◌then◌else◌,
  int_suc,
}
use saga_market_order.Prelude.Sorting.{SortSlice}
use saga_market_order.Float.{Float}
use saga_market_order.OrderBook.Events.{
  Time, BaseEvent, order_book_created, limit_order_added, orders_matched, limit_order_cancelled,
  price_updated,
}
use saga_market_order.OrderBook.Aggregate.{
  OrderBookStatus, active, message, book_is, LimitOrder, OrderBook, Outcome, apply,
}

pub record Stamp : Type 0 where
  pub uuid : String
  pub now : Time
  pub later : Time

abbrev pub is_active : OrderBookStatus → Bool
is_active active = true
is_active _ = false

-- The search loop of `CancelLimitOrder`.
unfoldable pub contains : {W : Type 0} → String → List (LimitOrder W) → Bool
contains id [] = false
contains id (o ∷ os) = if o.order_id == id then true else contains id os

module _ {W : Type 0} ⦃f : Float W⦄ where
  open f use {nought, two, lt, le, add, div}

  -- The package's `min`.
  abbrev pub min : W → W → W
  min a b = if lt a b then a else b

  abbrev pub next_base : Stamp → OrderBook W → String → BaseEvent
  next_base s b event_type = record {
    event_id = s.uuid;
    aggregate_id = b.id;
    aggregate_type = "OrderBook";
    event_type = event_type;
    version = int_suc b.version;
    timestamp = s.now;
  }

  module _ ⦃sorter : SortSlice (LimitOrder W)⦄ where
    unfoldable pub create_order_book : Stamp → String → String → OrderBook W → Outcome W
    create_order_book s order_book_id trading_pair b =
        apply
          (order_book_created record {
            base = record {
              event_id = s.uuid;
              aggregate_id = order_book_id;
              aggregate_type = "OrderBook";
              event_type = "OrderBookCreated";
              version = 1;
              timestamp = s.now;
            };
            trading_pair = trading_pair;
          })
          b

    unfoldable pub add_limit_order :
        Stamp → String → String → W → W → String → OrderBook W → Outcome W
    add_limit_order s order_id user_id price amount side b =
        if not (is_active b.status)
        then (b, some (book_is b.status))
        else if not (side == "buy") && not (side == "sell")
        then (b, some (message "side must be 'buy' or 'sell'"))
        else if le price nought || le amount nought
        then (b, some (message "price and amount must be positive"))
        else apply
            (limit_order_added record {
              base = next_base s b "LimitOrderAdded";
              order_id = order_id;
              user_id = user_id;
              price = price;
              amount = amount;
              side = side;
              placed_at = s.later;
            })
            b

    -- `MatchOrders` behind its test of the status, on the two lists.
    abbrev pub match_best :
        Stamp → List (LimitOrder W) → List (LimitOrder W) → OrderBook W → Outcome W
    match_best s [] sells b = (b, none)
    match_best s (buy ∷ buys) [] b = (b, none)
    match_best s (buy ∷ buys) (sell ∷ sells) b =
        if le sell.price buy.price
        then apply
            (orders_matched record {
              base = next_base s b "OrdersMatched";
              buy_order_id = buy.order_id;
              sell_order_id = sell.order_id;
              matched_price = div (add buy.price sell.price) two;
              matched_amount = min buy.remaining_amount sell.remaining_amount;
              matched_at = s.later;
            })
            b
        else (b, none)

    unfoldable pub match_orders : Stamp → OrderBook W → Outcome W
    match_orders s b =
        if not (is_active b.status)
        then (b, some (book_is b.status))
        else match_best s b.buy_orders b.sell_orders b

    unfoldable pub cancel_limit_order : Stamp → String → String → OrderBook W → Outcome W
    unfolding contains
    cancel_limit_order s order_id side b =
        if not (is_active b.status)
        then (b, some (book_is b.status))
        else if not (
            if side == "buy"
            then contains order_id b.buy_orders
            else contains order_id b.sell_orders)
        then (b, some (message "order not found in order book"))
        else apply
            (limit_order_cancelled record {
              base = next_base s b "LimitOrderCancelled";
              order_id = order_id;
              side = side;
              cancelled_at = s.later;
            })
            b

    unfoldable pub update_price : Stamp → W → String → OrderBook W → Outcome W
    update_price s new_price source b =
        if le new_price nought
        then (b, some (message "price must be positive"))
        else apply
            (price_updated record {
              base = next_base s b "PriceUpdated";
              new_price = new_price;
              old_price = b.last_price;
              source = source;
              updated_at = s.later;
            })
            b
