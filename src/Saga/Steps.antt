-- ===== src/Saga/Steps.antt =====
-- The saga's four steps as data, and a step's run on a delivered message.
use mathlib.Core.Option
use saga_market_order.Prelude.{String, Option, none, ◌≢◌}
use saga_market_order.Float.{Float}
use saga_market_order.Json.{Object}
use saga_market_order.Order.Codec.{
  unmarshal_order_accepted, unmarshal_price_quoted, unmarshal_position_created_for_order,
  unmarshal_swap_executed,
}
use saga_market_order.Saga.World.{World, Outcome}
use saga_market_order.Saga.Accept
use saga_market_order.Saga.Price
use saga_market_order.Saga.Swap
use saga_market_order.Saga.Swap.{Answer, refused}
use saga_market_order.Saga.Complete

pub data Step (W : Type 0) : Type 0 where
  accept : Accept.Env W → Step W
  price : Price.Env → Step W
  swap : Swap.Env W → Step W
  complete : Complete.Env → Step W

module _ {W : Type 0} where
  -- What the calls of `IsProcessed` and of `MarkAsProcessed` meet.
  abbrev pub check_of : Step W → Option String
  check_of (accept env) = env.check
  check_of (price env) = env.check
  check_of (swap env) = env.check
  check_of (complete env) = env.check

  abbrev pub mark_of : Step W → Option String
  mark_of (accept env) = env.mark
  mark_of (price env) = env.mark
  mark_of (swap env) = env.mark
  mark_of (complete env) = env.mark

  -- The price service and the trade worker do not fail.
  abbrev pub IsServed : Step W → Type 0
  IsServed (accept env) = (from to : String) → env.price from to ≢ none
  IsServed (swap env) = (req : _) (reason : String) → env.execute_swap req ≢ refused reason
  IsServed _ = Unit

module _ {W : Type 0} ⦃f : Float W⦄ where
  -- The id of the event that the message decodes to.
  unfoldable pub id_of : Step W → Object W → Option String
  unfolding unmarshal_order_accepted unmarshal_price_quoted unmarshal_position_created_for_order
      unmarshal_swap_executed
  id_of (accept _) o = Option.map (λ e. e.event_id) (unmarshal_order_accepted o)
  id_of (price _) o = Option.map (λ e. e.event_id) (unmarshal_price_quoted o)
  id_of (swap _) o = Option.map (λ e. e.event_id) (unmarshal_position_created_for_order o)
  id_of (complete _) o = Option.map (λ e. e.event_id) (unmarshal_swap_executed o)

  unfoldable pub handle : Step W → Object W → World W → Outcome W
  unfolding Accept.handle_order_accepted Price.handle_price_quoted Swap.handle_position_created
      Complete.handle_swap_executed
  handle (accept env) = Accept.handle_order_accepted env
  handle (price env) = Price.handle_price_quoted env
  handle (swap env) = Swap.handle_position_created env
  handle (complete env) = Complete.handle_swap_executed env
