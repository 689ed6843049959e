-- ===== src/Order/Run.antt =====
-- The commands of an order as data, a command's run, and a run of several. An error does not stop
-- a run: the caller keeps the order that the command left.
use saga_market_order.Prelude.{String, List, [], ◌∷◌}
use saga_market_order.Float.{Float}
use saga_market_order.Order.Events.{Fields}
use saga_market_order.Order.Aggregate.{Order, Outcome}
use saga_market_order.Order.Commands

pub data Command (W : Type 0) : Type 0 where
  accept_order : String → String → W → String → String → String → Command W
  quote_price : W → W → Command W
  start_swap_execution : String → Command W
  record_swap_execution : String → W → W → W → W → W → Command W
  complete_order : Command W
  fail_order : String → Command W
  initialize_order : Command W
  set_limit_price : W → Command W
  update_order : Fields W → Command W
  cancel_order : String → Command W
  check_balances : W → Command W
  place_in_order_book : String → Command W
  partially_fill : W → W → String → Command W

module _ {W : Type 0} ⦃f : Float W⦄ where
  unfoldable pub execute : Command W → Commands.Stamp → Order W → Outcome W
  unfolding Commands.accept_order Commands.quote_price Commands.start_swap_execution
      Commands.record_swap_execution Commands.complete_order Commands.fail_order
      Commands.initialize_order Commands.set_limit_price Commands.update_order Commands.cancel_order
      Commands.check_balances Commands.place_in_order_book Commands.partially_fill
  execute (accept_order id user amount from to kind) s =
      Commands.accept_order s id user amount from to kind
  execute (quote_price price to_amount) s = Commands.quote_price s price to_amount
  execute (start_swap_execution key) s = Commands.start_swap_execution s key
  execute (record_swap_execution hash from to price fees slippage) s =
      Commands.record_swap_execution s hash from to price fees slippage
  execute complete_order s = Commands.complete_order s
  execute (fail_order reason) s = Commands.fail_order s reason
  execute initialize_order s = Commands.initialize_order s
  execute (set_limit_price price) s = Commands.set_limit_price s price
  execute (update_order params) s = Commands.update_order s params
  execute (cancel_order reason) s = Commands.cancel_order s reason
  execute (check_balances available) s = Commands.check_balances s available
  execute (place_in_order_book book) s = Commands.place_in_order_book s book
  execute (partially_fill amount price hash) s = Commands.partially_fill s amount price hash

  unfoldable pub execute_all : List (Command W × Commands.Stamp) → Order W → Order W
  execute_all [] o = o
  execute_all ((c, s) ∷ cs) o = execute_all cs (execute c s o).0
