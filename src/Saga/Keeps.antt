-- ===== src/Saga/Keeps.antt =====
-- Whatever no change of the tables takes away from the database, no step takes away, whatever it is
-- given and whatever fails in it.
use saga_market_order.Prelude.{
  String, inl, inr, Option, none, some, List, if◌then◌else◌, Bool-cases,
}
use saga_market_order.Float.{Float}
use saga_market_order.Json.{Object}
use saga_market_order.Order.Events.{BaseEvent, OrderAccepted, PositionCreatedForOrder, SwapExecuted}
use saga_market_order.EventStore.Postgres.{Processed, OutboxRow, Database}
use saga_market_order.EventStore.Atomicity.{Adds}
use saga_market_order.EventStore.Serializer.{Any}
use saga_market_order.Order.Codec.{
  unmarshal_order_accepted, unmarshal_price_quoted, unmarshal_position_created_for_order,
  unmarshal_swap_executed,
}
use saga_market_order.AggregateStore.Store.{save_order_aggregate}
use saga_market_order.AggregateStore.Saves.{
  OrderSaves, PositionSaves, save_order-OrderSaves, save_position-PositionSaves,
}
use saga_market_order.Result.{Failure, Result, ok, err}
use saga_market_order.Saga.World.{
  World, Outcome, success, fails, panics, on_ok, on_saved, decoded, insert_processed, is_processed,
  mark_as_processed, publish,
}
use saga_market_order.Saga.Compensation.{
  Compensation, compensate_order_failed, close_position, compensate_swap_failed,
}
use saga_market_order.Saga.Accept as Accept
use saga_market_order.Saga.Accept.{handle_order_accepted, quote_order}
use saga_market_order.Saga.Price.{handle_price_quoted}
use saga_market_order.Saga.Swap as Swap
use saga_market_order.Saga.Swap.{
  handle_position_created, Answer, SwapResponse, refused, swapped, record_swap, answered,
}
use saga_market_order.Saga.Complete as Complete
use saga_market_order.UseCases.Complete.{
  Calls, SwapResult, prepare, after_first, save_both, complete_order_and_update_position,
}
use saga_market_order.Saga.Complete.{handle_swap_executed, completed, swap_result}
use saga_market_order.Saga.Steps.{Step, handle}
use saga_market_order.Order.Aggregate.{Order}
use saga_market_order.Position.Aggregate.{Position}

module _ {W : Type 0} ⦃f : Float W⦄ where
  -- A property of the database that each change of a table keeps: events saved, an event marked as
  -- processed, rows of the outbox updated.
  pub record IsStable (P : Database W → Type 0) : Type 0 where
    pub saved : {es : List (Any W)} {db db' : Database W} → Adds es db db' → P db → P db'
    pub marked :
        (r : Processed) (db : Database W)
        → P db
        → P (record db { processed = insert_processed r db.processed })
    pub updated :
        (rows : List (OutboxRow W)) (db : Database W) → P db → P (record db { outbox = rows })

module _ {W : Type 0} ⦃f : Float W⦄ (P : Database W → Type 0) (stable : IsStable P) where
  abbrev Keeps : World W → Outcome W → Type 0
  Keeps w out = P w.database → P out.0.database

  on_ok-Keeps :
      {A : Type 0} (r : Result W A) (w : World W) (k : A → Outcome W)
      → P w.database
      → ((a : A) → P (k a).0.database)
      → P (on_ok r w k).0.database
  unfolding on_ok
  on_ok-Keeps (ok a) w k h g = g a
  on_ok-Keeps (err e) w k h g = h

  on_saved-Keeps :
      {A : Type 0} (out : A × Database W × Option (Failure W)) (w : World W)
      (k : A → World W → Outcome W)
      → P out.1
      → ((a : A) (w' : World W) → P w'.database → P (k a w').0.database)
      → P (on_saved out w k).0.database
  unfolding on_saved
  on_saved-Keeps (a, db, none) w k h g = g a _ h
  on_saved-Keeps (a, db, some e) w k h g = h

  mark-Keeps :
      (m : Option String) (e : BaseEvent W) (by : String) (w : World W)
      → P w.database
      → P (mark_as_processed m e by w).database
  unfolding mark_as_processed
  mark-Keeps (some x) e by w h = h
  mark-Keeps none e by w h = stable.marked _ w.database h

  publish-Keeps :
      (m : Option String) (kind : String) (o : Option (Object W)) (w : World W)
      → P w.database
      → P (publish m kind o w).database
  unfolding publish
  publish-Keeps (some x) kind o w h = h
  publish-Keeps none kind o w h = h

  -- The beginning of every handler.
  start-Keeps :
      {E : Type 0} (d : Option E) (g : E → String) (check : Option String) (w : World W)
      (k : E → Outcome W)
      → P w.database
      → ((e : E) → P (k e).0.database)
      → P
          (on_ok
            (decoded d)
            w
            (λ e. if is_processed check (g e) w then (w, success) else k e)).0.database
  unfolding on_ok
  start-Keeps none g check w k h r = h
  start-Keeps (some e) g check w k h r = elim (Bool-cases (is_processed check (g e) w)) [
    | inl there ↦ rw there h
    | inr absent ↦ rw absent (r e)
  ]

  pub order_saved-Keeps :
      {o : Order W} {db : Database W} {out : Order W × Database W × Option (Failure W)}
      → OrderSaves o db out
      → P db
      → P out.1
  order_saved-Keeps (inl (_, _, adds)) h = stable.saved adds h
  order_saved-Keeps (inr (_, _, same)) h = rw same h

  position_saved-Keeps :
      {p : Position W} {db : Database W} {out : Position W × Database W × Option (Failure W)}
      → PositionSaves p db out
      → P db
      → P out.1
  position_saved-Keeps (inl (_, _, adds)) h = stable.saved adds h
  position_saved-Keeps (inr (_, _, same)) h = rw same h

  fail-Keeps :
      (c : Compensation) (order_id reason : String) (w : World W)
      → Keeps w (compensate_order_failed c order_id reason w)
  unfolding compensate_order_failed
  fail-Keeps c order_id reason w h = on_ok-Keeps _ w _ h λ o. on_ok-Keeps _ w _ h λ o'.
      on_saved-Keeps _ w _ (order_saved-Keeps (save_order-OrderSaves c.save_order o' w.database) h)
        λ a w' h'. h'

  close-Keeps :
      (c : Compensation) (position_id : String) (out : Outcome W)
      → P out.0.database
      → P (close_position c position_id out).0.database
  close-Keeps c position_id (w, fails e) h = h
  close-Keeps c position_id (w, panics) h = h
  close-Keeps c position_id (w, success) h = on_ok-Keeps _ w _ h λ p. on_ok-Keeps _ w _ h λ p'.
      on_saved-Keeps _ w _
        (position_saved-Keeps (save_position-PositionSaves c.save_position p' w.database) h)
        λ a w' h'. h'

  quote-Keeps :
      (env : Accept.Env W) (evt : OrderAccepted W) (price : Option W) (w : World W)
      → Keeps w (quote_order env evt price w)
  quote-Keeps env evt none w h =
      fail-Keeps env.compensation evt.aggregate_id "price_unavailable" w h
  quote-Keeps env evt (some price) w h = on_ok-Keeps _ w _ h λ o. on_ok-Keeps _ w _ h λ o'.
      on_saved-Keeps _ w _ (order_saved-Keeps (save_order-OrderSaves env.save o' w.database) h)
        λ a w' h'. mark-Keeps env.mark evt.base _ w' h'

  record-Keeps :
      (env : Swap.Env W) (evt : PositionCreatedForOrder W) (resp : SwapResponse W)
      (r : Result W (Order W)) (w : World W)
      → Keeps w (record_swap env evt resp r w)
  record-Keeps env evt resp (err e) w h = h
  record-Keeps env evt resp (ok o) w h =
      on_saved-Keeps _ w _ (order_saved-Keeps (save_order-OrderSaves env.save_swap _ w.database) h)
        λ a w' h'. mark-Keeps env.mark evt.base _ _ (publish-Keeps env.send _ _ w' h')

  answered-Keeps :
      (env : Swap.Env W) (evt : PositionCreatedForOrder W) (answer : Answer W) (w : World W)
      → Keeps w (answered env evt answer w)
  unfolding compensate_swap_failed
  answered-Keeps env evt (refused reason) w h =
      close-Keeps env.compensation evt.position_id _
        (fail-Keeps env.compensation evt.aggregate_id reason w h)
  answered-Keeps env evt (swapped resp) w h = record-Keeps env evt resp _ w h

  both-Keeps :
      (c : Calls) (r : Result W (Order W × Position W)) (db : Database W)
      → P db
      → P (save_both c r db).0
  both-Keeps c (err e) db h = h
  both-Keeps c (ok (o, p)) db h =
      second (save_order_aggregate c.save_order o db)
        (order_saved-Keeps (save_order-OrderSaves c.save_order o db) h)
    where
      second :
          (out : Order W × Database W × Option (Failure W))
          → P out.1
          → P (after_first c.save_position p out).0
      second (o, db, some e) h = h
      second (o, db, none) h =
          position_saved-Keeps (save_position-PositionSaves c.save_position p db) h

  use_case-Keeps :
      (c : Calls) (order_id position_id : String) (swap : SwapResult W) (db : Database W)
      → P db
      → P (complete_order_and_update_position c order_id position_id swap db).0
  unfolding complete_order_and_update_position
  use_case-Keeps c order_id position_id swap db h =
      both-Keeps c (prepare c order_id position_id swap db) db h

  completed-Keeps :
      (env : Complete.Env) (evt : SwapExecuted W) (position_id : String)
      (out : Database W × Option (Failure W)) (w : World W)
      → P out.0
      → P (completed env evt position_id out w).0.database
  completed-Keeps env evt position_id (db, some e) w h = h
  completed-Keeps env evt position_id (db, none) w h =
      mark-Keeps env.mark evt.base _ _ (publish-Keeps env.send _ _ _ h)

  pub handle-Keeps :
      (step : Step W) (event_data : Object W) (w : World W) → Keeps w (handle step event_data w)
  unfolding handle handle_order_accepted handle_price_quoted handle_position_created
      handle_swap_executed
  handle-Keeps (Step.accept env) o w h =
      start-Keeps (unmarshal_order_accepted o) (λ e. e.event_id) env.check w _ h
        λ e. quote-Keeps env e _ w h
  handle-Keeps (Step.price env) o w h =
      start-Keeps (unmarshal_price_quoted o) (λ e. e.event_id) env.check w _ h
        λ e. on_ok-Keeps _ w _ h λ o. on_ok-Keeps _ w _ h λ p.
          on_saved-Keeps _ w _
            (position_saved-Keeps (save_position-PositionSaves env.save p w.database) h)
            λ a w' h'. mark-Keeps env.mark e.base _ _ (publish-Keeps env.send _ _ w' h')
  handle-Keeps (Step.swap env) o w h =
      start-Keeps (unmarshal_position_created_for_order o) (λ e. e.event_id) env.check w _ h
        λ e. on_ok-Keeps _ w _ h λ o. on_ok-Keeps _ w _ h λ o'.
          on_saved-Keeps _ w _
            (order_saved-Keeps (save_order-OrderSaves env.save_start o' w.database) h)
            λ a w' h'. answered-Keeps env e _ _ h'
  handle-Keeps (Step.complete env) o w h =
      start-Keeps (unmarshal_swap_executed o) (λ e. e.event_id) env.check w _ h
        λ e. on_ok-Keeps _ w _ h λ p.
          completed-Keeps env e p
            (complete_order_and_update_position env.calls e.aggregate_id p (swap_result e)
              w.database)
            w (use_case-Keeps env.calls e.aggregate_id p (swap_result e) w.database h)
