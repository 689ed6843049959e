-- ===== src/Position/Run.antt =====
-- The commands of a position as data, and a command's run.
use saga_market_order.Prelude.{String}
use saga_market_order.Float.{Float}
use saga_market_order.Position.Aggregate
use saga_market_order.Position.Aggregate.{Position, Outcome, Stamp}

pub data Command (W : Type 0) : Type 0 where
  create_position : String → String → Command W
  add_order : String → W → W → W → Command W
  close_position : String → Command W

module _ {W : Type 0} ⦃f : Float W⦄ where
  unfoldable pub execute : Command W × Stamp → Position W → Outcome W
  unfolding Aggregate.create_position Aggregate.add_order Aggregate.close_position
  execute (create_position id user, s) = Aggregate.create_position s id user
  execute (add_order order amount value pnl, s) = Aggregate.add_order s order amount value pnl
  execute (close_position reason, s) = Aggregate.close_position s reason
