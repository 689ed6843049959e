-- ===== src/Saga/Skips.antt =====
-- Idempotence: an event that is marked as processed is skipped.
use mathlib.Core.Option
use saga_market_order.Prelude.{String, ◌≡◌, refl, true, Option, none, some, if◌then◌else◌}
use saga_market_order.Float.{Float}
use saga_market_order.Json.{Object}
use saga_market_order.Order.Codec.{
  unmarshal_order_accepted, unmarshal_price_quoted, unmarshal_position_created_for_order,
  unmarshal_swap_executed,
}
use saga_market_order.Saga.World.{World, Outcome, success, on_ok, decoded, is_processed}
use saga_market_order.Saga.Accept.{handle_order_accepted}
use saga_market_order.Saga.Price.{handle_price_quoted}
use saga_market_order.Saga.Swap.{handle_position_created}
use saga_market_order.Saga.Complete.{handle_swap_executed}
use saga_market_order.Saga.Steps.{Step, check_of, id_of, handle}

module _ {W : Type 0} ⦃f : Float W⦄ where
  -- The beginning of every handler.
  skip_lem :
      {E : Type 0} (d : Option E) (id_of_event : E → String) (check : Option String) (w : World W)
      (k : E → Outcome W) {id : String}
      → Option.map id_of_event d ≡ some id
      → is_processed check id w ≡ true
      → on_ok
          (decoded d)
          w
          (λ e. if is_processed check (id_of_event e) w then (w, success) else k e)
        ≡ (w, success)
  unfolding on_ok
  skip_lem none g check w k h p = cc
  skip_lem (some e) g check w k {id} h p = let same : g e ≡ id = cc in rw (same, p) refl

  -- In each of the four steps, a message that decodes, and whose event the check finds marked as
  -- processed, changes nothing, publishes nothing and asks for no swap: the handler returns nil.
  pub processed_skipped :
      (step : Step W) (event_data : Object W) (w : World W) (id : String)
      → id_of step event_data ≡ some id
      → is_processed (check_of step) id w ≡ true
      → handle step event_data w ≡ (w, success)
  unfolding handle id_of handle_order_accepted handle_price_quoted handle_position_created
      handle_swap_executed
  processed_skipped (Step.accept env) o w id h p =
      skip_lem (unmarshal_order_accepted o) (λ e. e.event_id) env.check w _ h p
  processed_skipped (Step.price env) o w id h p =
      skip_lem (unmarshal_price_quoted o) (λ e. e.event_id) env.check w _ h p
  processed_skipped (Step.swap env) o w id h p =
      skip_lem (unmarshal_position_created_for_order o) (λ e. e.event_id) env.check w _ h p
  processed_skipped (Step.complete env) o w id h p =
      skip_lem (unmarshal_swap_executed o) (λ e. e.event_id) env.check w _ h p
