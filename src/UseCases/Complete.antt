-- ===== src/UseCases/Complete.antt =====
-- application/usecases/complete_order_and_update_position.go: `Execute` loads both aggregates,
-- gives a command to each, and saves them one after the other.
use mathlib.Core.Option
use saga_market_order.Prelude.{String, Option, none, some}
use saga_market_order.Float.{Float}
use saga_market_order.EventStore.Postgres.{Database, Link}
use saga_market_order.Order.Aggregate.{Order}
use saga_market_order.Order.Commands as OrderCommands
use saga_market_order.Position.Aggregate as PositionAggregate
use saga_market_order.Position.Aggregate.{Position}
use saga_market_order.AggregateStore.Store.{
  load_order_aggregate, load_position_aggregate, save_order_aggregate, save_position_aggregate,
  order_applied, position_applied,
}
use saga_market_order.Result.{Failure, Result, wrap, ok, err, ◌>>=◌, within}

pub record SwapResult (W : Type 0) : Type 0 where
  pub transaction_hash : String
  pub from_amount : W
  pub to_amount : W
  pub executed_price : W
  pub fees : W
  pub slippage : W

-- What the four calls of the database meet, and what the two commands read of the clock.
pub record Calls : Type 0 where
  pub load_order : Link
  pub load_position : Link
  pub save_order : Link
  pub save_position : Link
  pub order_stamp : OrderCommands.Stamp
  pub position_stamp : PositionAggregate.Stamp

module _ {W : Type 0} ⦃f : Float W⦄ where
  open f use {nought}

  -- Steps 1 to 4: the order completed, and the position with the order.
  unfoldable pub prepare :
      Calls → String → String → SwapResult W → Database W → Result W (Order W × Position W)
  unfolding OrderCommands.complete_order PositionAggregate.add_order
  prepare c order_id position_id swap db = do
    o ← within "failed to load order aggregate" (load_order_aggregate c.load_order order_id db)
    o' ←
        within "failed to complete order"
          (order_applied (OrderCommands.complete_order c.order_stamp o))
    p ←
        within "failed to load position aggregate"
          (load_position_aggregate c.load_position position_id db)
    p' ← within "failed to update position" (
        position_applied (
          PositionAggregate.add_order c.position_stamp order_id swap.to_amount swap.from_amount
            nought p))
    ok (o', p')

  -- Step 6.
  abbrev pub save_second : Link → Position W → Database W → Database W × Option (Failure W)
  save_second link p db =
      let (_, db', e) = save_position_aggregate link p db in
      (db', Option.map (wrap "failed to save position events") e)

  -- Behind step 5.
  abbrev pub after_first :
      Link
      → Position W
      → Order W × Database W × Option (Failure W)
      → Database W × Option (Failure W)
  after_first link p (_, db, some e) = (db, some (wrap "failed to save order events" e))
  after_first link p (_, db, none) = save_second link p db

  abbrev pub save_both :
      Calls → Result W (Order W × Position W) → Database W → Database W × Option (Failure W)
  save_both c (err e) db = (db, some e)
  save_both c (ok (o, p)) db =
      after_first c.save_position p (save_order_aggregate c.save_order o db)

  unfoldable pub complete_order_and_update_position :
      Calls → String → String → SwapResult W → Database W → Database W × Option (Failure W)
  complete_order_and_update_position c order_id position_id swap db =
      save_both c (prepare c order_id position_id swap db) db
