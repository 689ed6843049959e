-- ===== src/Saga/Accept.antt =====
-- application/saga/accept.go: STEP 1.
use saga_market_order.Prelude.{String, Option, none, some, if◌then◌else◌}
use saga_market_order.Float.{Float}
use saga_market_order.Json.{Object}
use saga_market_order.EventStore.Postgres.{Link}
use saga_market_order.Order.Codec.{unmarshal_order_accepted}
use saga_market_order.Order.Events.{OrderAccepted}
use saga_market_order.Order.Commands as OrderCommands
use saga_market_order.AggregateStore.Store.{
  order_applied, load_order_aggregate, save_order_aggregate,
}
use saga_market_order.Saga.World.{
  World, Outcome, success, on_ok, on_saved, decoded, is_processed, mark_as_processed,
}
use saga_market_order.Saga.Compensation.{Compensation, compensate_order_failed}

-- `price` is `GetMarketPrice` of the `PriceService`, with `none` for an error.
pub record Env (W : Type 0) : Type 0 where
  pub check : Option String
  pub price : String → String → Option W
  pub load : Link
  pub stamp : OrderCommands.Stamp
  pub save : Link
  pub mark : Option String
  pub compensation : Compensation

module _ {W : Type 0} ⦃f : Float W⦄ where
  open f use {div}

  abbrev pub quote_order : Env W → OrderAccepted W → Option W → World W → Outcome W
  quote_order env evt none w =
      compensate_order_failed env.compensation evt.aggregate_id "price_unavailable" w
  quote_order env evt (some price) w =
      on_ok (load_order_aggregate env.load evt.aggregate_id w.database) w λ o.
        on_ok
          (order_applied (OrderCommands.quote_price env.stamp price (div evt.from_amount price) o))
          w
          λ o'.
            on_saved (save_order_aggregate env.save o' w.database) w
              λ _ w'. (mark_as_processed env.mark evt.base "order-saga-step1" w', success)

  unfoldable pub handle_order_accepted : Env W → Object W → World W → Outcome W
  unfolding compensate_order_failed OrderCommands.quote_price is_processed mark_as_processed
      unmarshal_order_accepted
  handle_order_accepted env event_data w =
      on_ok (decoded (unmarshal_order_accepted event_data)) w λ evt.
        if is_processed env.check evt.event_id w
        then (w, success)
        else quote_order env evt (env.price evt.from_currency evt.to_currency) w
