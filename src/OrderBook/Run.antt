-- ===== src/OrderBook/Run.antt =====
-- The commands of an order book as data, and a command's run.
use saga_market_order.Prelude.{String}
use saga_market_order.Prelude.Sorting.{SortSlice}
use saga_market_order.Float.{Float}
use saga_market_order.OrderBook.Aggregate.{LimitOrder, OrderBook, Outcome}
use saga_market_order.OrderBook.Commands

pub data Command (W : Type 0) : Type 0 where
  create_order_book : String → String → Command W
  add_limit_order : String → String → W → W → String → Command W
  match_orders : Command W
  cancel_limit_order : String → String → Command W
  update_price : W → String → Command W

module _ {W : Type 0} ⦃f : Float W⦄ ⦃sorter : SortSlice (LimitOrder W)⦄ where
  unfoldable pub execute : Command W × Commands.Stamp → OrderBook W → Outcome W
  unfolding Commands.create_order_book Commands.add_limit_order Commands.match_orders
      Commands.cancel_limit_order Commands.update_price
  execute (create_order_book id pair, s) = Commands.create_order_book s id pair
  execute (add_limit_order id user price amount side, s) =
      Commands.add_limit_order s id user price amount side
  execute (match_orders, s) = Commands.match_orders s
  execute (cancel_limit_order id side, s) = Commands.cancel_limit_order s id side
  execute (update_price price source, s) = Commands.update_price s price source
