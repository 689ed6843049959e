-- ===== src/Saga/Compensation.antt =====
-- application/saga/order_saga_refactored.go: the compensations.
use saga_market_order.Prelude.{String}
use saga_market_order.Float.{Float}
use saga_market_order.EventStore.Postgres.{Link}
use saga_market_order.Order.Commands as OrderCommands
use saga_market_order.Position.Aggregate as PositionAggregate
use saga_market_order.AggregateStore.Store.{
  order_applied, position_applied, load_order_aggregate, load_position_aggregate,
  save_order_aggregate, save_position_aggregate,
}
use saga_market_order.Saga.World.{World, Outcome, success, fails, panics, on_ok, on_saved}

-- What the calls of the database meet, and what the commands read of the clock.
pub record Compensation : Type 0 where
  pub load_order : Link
  pub save_order : Link
  pub order_stamp : OrderCommands.Stamp
  pub load_position : Link
  pub save_position : Link
  pub position_stamp : PositionAggregate.Stamp

module _ {W : Type 0} ⦃f : Float W⦄ where
  unfoldable pub compensate_order_failed : Compensation → String → String → World W → Outcome W
  unfolding OrderCommands.fail_order
  compensate_order_failed c order_id reason w =
      on_ok (load_order_aggregate c.load_order order_id w.database) w λ o.
        on_ok (order_applied (OrderCommands.fail_order c.order_stamp reason o)) w
          λ o'. on_saved (save_order_aggregate c.save_order o' w.database) w λ _ w'. (w', success)

  -- Behind the failing of the order.
  abbrev pub close_position : Compensation → String → Outcome W → Outcome W
  close_position c position_id (w, fails e) = (w, fails e)
  close_position c position_id (w, panics) = (w, panics)
  close_position c position_id (w, success) =
      on_ok (load_position_aggregate c.load_position position_id w.database) w λ p.
        on_ok
          (position_applied (PositionAggregate.close_position c.position_stamp "order_failed" p)) w
          λ p'.
            on_saved (save_position_aggregate c.save_position p' w.database) w λ _ w'. (w', success)

  unfoldable pub compensate_swap_failed :
      Compensation → String → String → String → World W → Outcome W
  unfolding compensate_order_failed PositionAggregate.close_position
  compensate_swap_failed c order_id position_id reason w =
      close_position c position_id (compensate_order_failed c order_id reason w)
