-- ===== src/Saga/Redelivery.antt =====
-- A message that is delivered again, as the broker may, finds its event marked.
use mathlib.Core.Option
use text.Mathlib.TextPositions.{eq_refl}
use saga_market_order.Prelude.{
  String, ◌≡◌, ◌≢◌, refl, ap, inl, inr, true, Option, none, some, List, [], ◌∷◌, ◌++◌, arith,
  if◌then◌else◌, Bool-cases,
}
use saga_market_order.Float.{Float}
use saga_market_order.Json.{Object}
use saga_market_order.Order.Events.{BaseEvent, OrderAccepted}
use saga_market_order.EventStore.Postgres.{Processed, Database}
use saga_market_order.Order.Codec.{
  unmarshal_order_accepted, unmarshal_price_quoted, unmarshal_position_created_for_order,
  unmarshal_swap_executed,
}
use saga_market_order.Result.{Failure, Result, ok, err}
use saga_market_order.Saga.World.{
  World, Outcome, success, on_ok, on_saved, decoded, has_row, insert_processed, is_processed,
  mark_as_processed,
}
use saga_market_order.Saga.Accept as Accept
use saga_market_order.Saga.Accept.{handle_order_accepted, quote_order}
use saga_market_order.Saga.Price.{handle_price_quoted}
use saga_market_order.Saga.Swap as Swap
use saga_market_order.Saga.Swap.{
  handle_position_created, Answer, SwapResponse, refused, swapped, record_swap, answered,
}
use saga_market_order.Order.Events.{PositionCreatedForOrder, SwapExecuted}
use saga_market_order.Saga.Complete as Complete
use saga_market_order.UseCases.Complete.{complete_order_and_update_position}
use saga_market_order.Saga.Complete.{handle_swap_executed, swap_result, completed}
use saga_market_order.Saga.Steps.{Step, check_of, mark_of, IsServed, id_of, handle}
use saga_market_order.Order.Aggregate.{Order}
use saga_market_order.Saga.Skips.{processed_skipped}

has_row-snoc : (r : Processed) (rows : List Processed) → has_row r.event_id (rows ++ r ∷ []) ≡ true
unfolding has_row
has_row-snoc r [] = rw (eq_refl r.event_id) refl
has_row-snoc r (x ∷ rows) = ground (arith, has_row-snoc r rows)

pub insert_processed-has_row :
    (r : Processed) (rows : List Processed) → has_row r.event_id (insert_processed r rows) ≡ true
unfolding insert_processed
insert_processed-has_row r rows = ground (arith, has_row-snoc r rows)

module _ {W : Type 0} ⦃f : Float W⦄ where
  -- If the outcome is a success, the event is marked.
  pub record IsMarked (id : String) (out : Outcome W) : Type 0 where
    pub marked : out.1 ≡ success → has_row id out.0.database.processed ≡ true

  on_ok-IsMarked :
      {A : Type 0} (id : String) (r : Result W A) (w : World W) (k : A → Outcome W)
      → ((a : A) → IsMarked id (k a))
      → IsMarked id (on_ok r w k)
  unfolding on_ok
  on_ok-IsMarked id (ok a) w k h = h a
  on_ok-IsMarked id (err e) w k h = record { marked = λ s. cc }

  on_saved-IsMarked :
      {A : Type 0} (id : String) (out : A × Database W × Option (Failure W)) (w : World W)
      (k : A → World W → Outcome W)
      → ((a : A) (w : World W) → IsMarked id (k a w))
      → IsMarked id (on_saved out w k)
  unfolding on_saved
  on_saved-IsMarked id (a, db, none) w k h = h a _
  on_saved-IsMarked id (a, db, some e) w k h = record { marked = λ s. cc }

  mark-IsMarked :
      (id : String) (m : Option String) (e : BaseEvent W) (by : String) (w : World W)
      → e.event_id ≡ id
      → m ≡ none
      → IsMarked id (mark_as_processed m e by w, success)
  unfolding mark_as_processed
  mark-IsMarked id (some x) e by w h n = cc
  mark-IsMarked id none e by w h n = record {
    marked = λ s. rw (← h) (insert_processed-has_row _ w.database.processed);
  }

  -- The beginning of every handler.
  start-IsMarked :
      {E : Type 0} (d : Option E) (g : E → String) (check : Option String) (w : World W)
      (k : E → Outcome W) (id : String)
      → Option.map g d ≡ some id
      → check ≡ none
      → ((e : E) → g e ≡ id → IsMarked id (k e))
      → IsMarked id
          (on_ok (decoded d) w (λ e. if is_processed check (g e) w then (w, success) else k e))
  unfolding is_processed on_ok
  start-IsMarked none g check w k id h n r = cc
  start-IsMarked (some e) g (some m) w k id h n r = cc
  start-IsMarked (some e) g none w k id h n r =
      let same : g e ≡ id = cc in
      elim (Bool-cases (has_row (g e) w.database.processed)) [
        | inl there ↦ rw there (record { marked = λ s. rw (← same) there })
        | inr absent ↦ rw absent (r e same)
      ]

  quote-IsMarked :
      (env : Accept.Env W) (evt : OrderAccepted W) (price : Option W) (w : World W)
      → price ≢ none
      → env.mark ≡ none
      → IsMarked evt.event_id (quote_order env evt price w)
  quote-IsMarked env evt none w h n = absurd (h refl)
  quote-IsMarked env evt (some price) w h n = on_ok-IsMarked _ _ w _ λ o.
      on_ok-IsMarked _ _ w _ λ o'.
        on_saved-IsMarked _ _ w _ λ a w'. mark-IsMarked evt.event_id env.mark evt.base _ w' refl n

  record-IsMarked :
      (env : Swap.Env W) (evt : PositionCreatedForOrder W) (resp : SwapResponse W)
      (r : Result W (Order W)) (w : World W)
      → env.mark ≡ none
      → IsMarked evt.event_id (record_swap env evt resp r w)
  record-IsMarked env evt resp (err e) w n = record { marked = λ s. cc }
  record-IsMarked env evt resp (ok o) w n =
      on_saved-IsMarked _ _ w _ λ a w'. mark-IsMarked evt.event_id env.mark evt.base _ _ refl n

  answered-IsMarked :
      (env : Swap.Env W) (evt : PositionCreatedForOrder W) (answer : Answer W) (w : World W)
      → ((reason : String) → answer ≢ refused reason)
      → env.mark ≡ none
      → IsMarked evt.event_id (answered env evt answer w)
  answered-IsMarked env evt (refused reason) w h n = absurd (h reason refl)
  answered-IsMarked env evt (swapped resp) w h n = record-IsMarked env evt resp _ w n

  completed-IsMarked :
      (env : Complete.Env) (evt : SwapExecuted W) (position_id : String)
      (out : Database W × Option (Failure W)) (w : World W)
      → env.mark ≡ none
      → IsMarked evt.event_id (completed env evt position_id out w)
  completed-IsMarked env evt position_id (db, some e) w n = record { marked = λ s. cc }
  completed-IsMarked env evt position_id (db, none) w n =
      mark-IsMarked evt.event_id env.mark evt.base _ _ refl n

  pub handle-IsMarked :
      (step : Step W) (event_data : Object W) (w : World W) (id : String)
      → IsServed step
      → id_of step event_data ≡ some id
      → check_of step ≡ none
      → mark_of step ≡ none
      → IsMarked id (handle step event_data w)
  unfolding handle id_of handle_order_accepted handle_price_quoted handle_position_created
      handle_swap_executed
  handle-IsMarked (Step.accept env) o w id served h c n =
      start-IsMarked (unmarshal_order_accepted o) (λ e. e.event_id) env.check w _ id h c
        λ e same. rw (← same) (quote-IsMarked env e _ w (served e.from_currency e.to_currency) n)
  handle-IsMarked (Step.price env) o w id served h c n =
      start-IsMarked (unmarshal_price_quoted o) (λ e. e.event_id) env.check w _ id h c
        λ e same. on_ok-IsMarked _ _ w _ λ o.
          on_ok-IsMarked _ _ w _
            λ p. on_saved-IsMarked _ _ w _ λ a w'. mark-IsMarked id env.mark e.base _ _ same n
  handle-IsMarked (Step.swap env) o w id served h c n =
      start-IsMarked (unmarshal_position_created_for_order o) (λ e. e.event_id) env.check w _ id h c
        λ e same. on_ok-IsMarked _ _ w _ λ o. on_ok-IsMarked _ _ w _ λ o'.
          on_saved-IsMarked _ _ w _ λ a w'. rw (← same) (answered-IsMarked env e _ _ (served _) n)
  handle-IsMarked (Step.complete env) o w id served h c n =
      start-IsMarked (unmarshal_swap_executed o) (λ e. e.event_id) env.check w _ id h c
        λ e same. on_ok-IsMarked _ _ w _ λ p. rw (← same) (
          completed-IsMarked env e p
            (complete_order_and_update_position env.calls e.aggregate_id p (swap_result e)
              w.database)
            w n)

  -- A step that has returned nil on a message, with the price service and the trade worker not
  -- failing, and with the check and the mark answered by the database, skips the message when it is
  -- delivered again: it returns nil and changes nothing, publishes nothing and asks for no swap.
  pub redelivery_skipped :
      (step : Step W) (event_data : Object W) (w w' : World W) (id : String)
      → IsServed step
      → id_of step event_data ≡ some id
      → check_of step ≡ none
      → mark_of step ≡ none
      → handle step event_data w ≡ (w', success)
      → handle step event_data w' ≡ (w', success)
  unfolding is_processed
  redelivery_skipped step o w w' id served h c n done =
      let marked =
        (handle-IsMarked step o w id served h c n).marked (ap (λ (x : Outcome W). x.1) done) in
      processed_skipped step o w' id h (rw c (rw done at marked))
