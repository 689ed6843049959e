-- ===== src/Saga/Panics.antt =====
-- Where a step of the saga can end with a nil dereference.
use saga_market_order.Prelude.{
  String, ◌≡◌, refl, inl, inr, Option, none, some, [], ◌∷◌, ◌++◌, if◌then◌else◌, Bool-cases,
}
use saga_market_order.Float.{Float}
use saga_market_order.Json.{Object}
use saga_market_order.EventStore.Postgres.{Database}
use saga_market_order.Order.Aggregate.{Order}
use saga_market_order.Order.Events.{PositionCreatedForOrder}
use saga_market_order.Order.Codec.{
  unmarshal_order_accepted, unmarshal_price_quoted, unmarshal_position_created_for_order,
  unmarshal_swap_executed,
}
use saga_market_order.AggregateStore.Store.{load_order_aggregate}
use saga_market_order.Result.{Failure, Result, ok, err}
use saga_market_order.Saga.World.{
  SwapRequest, World, Outcome, success, fails, panics, on_ok, on_saved, decoded, is_processed,
}
use saga_market_order.Saga.Compensation.{
  Compensation, compensate_order_failed, close_position, compensate_swap_failed,
}
use saga_market_order.Saga.Accept as Accept
use saga_market_order.Saga.Accept.{handle_order_accepted, quote_order}
use saga_market_order.Saga.Price.{handle_price_quoted}
use saga_market_order.Saga.Swap as Swap
use saga_market_order.Saga.Swap.{
  handle_position_created, Answer, SwapResponse, refused, swapped, record_swap, answered, ask,
  start, swap_request,
}
use saga_market_order.Saga.Complete as Complete
use saga_market_order.Saga.Complete.{handle_swap_executed, completed}
use saga_market_order.Saga.Steps.{Step, handle}

module _ {W : Type 0} (Q : World W → Type 0) where
  -- A nil dereference leaves a world of which `Q` holds.
  abbrev PanicsIn : Outcome W → Type 0
  PanicsIn out = out.1 ≡ panics → Q out.0

  on_ok-PanicsIn :
      {A : Type 0} (r : Result W A) (w : World W) (k : A → Outcome W)
      → ((a : A) → r ≡ ok a → PanicsIn (k a))
      → PanicsIn (on_ok r w k)
  unfolding on_ok
  on_ok-PanicsIn (ok a) w k h = h a refl
  on_ok-PanicsIn (err e) w k h = λ p. cc

  on_saved-PanicsIn :
      {A : Type 0} (out : A × Database W × Option (Failure W)) (w : World W)
      (k : A → World W → Outcome W)
      → ((a : A) (db : Database W) → PanicsIn (k a (record w { database = db })))
      → PanicsIn (on_saved out w k)
  unfolding on_saved
  on_saved-PanicsIn (a, db, none) w k h = h a db
  on_saved-PanicsIn (a, db, some e) w k h = λ p. cc

  -- The beginning of every handler.
  start-PanicsIn :
      {E : Type 0} (d : Option E) (g : E → String) (check : Option String) (w : World W)
      (k : E → Outcome W)
      → ((e : E) → d ≡ some e → PanicsIn (k e))
      → PanicsIn
          (on_ok (decoded d) w (λ e. if is_processed check (g e) w then (w, success) else k e))
  unfolding on_ok
  start-PanicsIn none g check w k h = λ p. cc
  start-PanicsIn (some e) g check w k h = elim (Bool-cases (is_processed check (g e) w)) [
    | inl there ↦ rw there (λ p. cc)
    | inr absent ↦ rw absent (h e refl)
  ]

module _ {W : Type 0} ⦃f : Float W⦄ (Q : World W → Type 0) where
  fail-PanicsIn :
      (c : Compensation) (order_id reason : String) (w : World W)
      → PanicsIn Q (compensate_order_failed c order_id reason w)
  unfolding compensate_order_failed
  fail-PanicsIn c order_id reason w =
      on_ok-PanicsIn Q _ w _
        λ o _. on_ok-PanicsIn Q _ w _ λ o' _. on_saved-PanicsIn Q _ w _ λ a db p. cc

  close-PanicsIn :
      (c : Compensation) (position_id : String) (out : Outcome W)
      → PanicsIn Q out
      → PanicsIn Q (close_position c position_id out)
  close-PanicsIn c position_id (w, fails e) h = λ p. cc
  close-PanicsIn c position_id (w, panics) h = h
  close-PanicsIn c position_id (w, success) h =
      on_ok-PanicsIn Q _ w _
        λ p _. on_ok-PanicsIn Q _ w _ λ p' _. on_saved-PanicsIn Q _ w _ λ a db p. cc

  quote-PanicsIn :
      (env : Accept.Env W) (evt : _) (price : Option W) (w : World W)
      → PanicsIn Q (quote_order env evt price w)
  quote-PanicsIn env evt none w =
      fail-PanicsIn env.compensation evt.aggregate_id "price_unavailable" w
  quote-PanicsIn env evt (some price) w =
      on_ok-PanicsIn Q _ w _
        λ o _. on_ok-PanicsIn Q _ w _ λ o' _. on_saved-PanicsIn Q _ w _ λ a db p. cc

  completed-PanicsIn :
      (env : Complete.Env) (evt : _) (position_id : String) (out : Database W × Option (Failure W))
      (w : World W)
      → PanicsIn Q (completed env evt position_id out w)
  completed-PanicsIn env evt position_id (db, some e) w = λ p. cc
  completed-PanicsIn env evt position_id (db, none) w = λ p. cc

module _ {W : Type 0} ⦃f : Float W⦄ (env : Swap.Env W) (event_data : Object W) (w : World W) where
  -- The worker has executed a swap, and the order cannot be loaded again.
  pub record LosesSwap (w' : World W) : Type 0 where
    pub evt : PositionCreatedForOrder W
    pub decodes : unmarshal_position_created_for_order event_data ≡ some evt
    pub req : SwapRequest W
    pub found : Database W
    pub asked : w'.calls ≡ w.calls ++ record { request = req; found = found } ∷ []
    pub resp : SwapResponse W
    pub executed : env.execute_swap req ≡ swapped resp
    pub error : Failure W
    pub unloaded : load_order_aggregate env.reload evt.aggregate_id w'.database ≡ err error

  record-PanicsIn :
      (evt : PositionCreatedForOrder W) (resp : SwapResponse W) (r : Result W (Order W))
      (w' : World W)
      → ((e : Failure W) → r ≡ err e → LosesSwap w')
      → PanicsIn LosesSwap (record_swap env evt resp r w')
  record-PanicsIn evt resp (err e) w' h = λ p. h e refl
  record-PanicsIn evt resp (ok o) w' h = on_saved-PanicsIn LosesSwap _ w' _ λ a db p. cc

  answered-PanicsIn :
      (evt : PositionCreatedForOrder W) (answer : Answer W) (req : SwapRequest W)
      (found : Database W) (w' : World W)
      → unmarshal_position_created_for_order event_data ≡ some evt
      → w'.calls ≡ w.calls ++ record { request = req; found = found } ∷ []
      → env.execute_swap req ≡ answer
      → PanicsIn LosesSwap (answered env evt answer w')
  unfolding compensate_swap_failed
  answered-PanicsIn evt (refused reason) req found w' d asked h =
      close-PanicsIn LosesSwap env.compensation evt.position_id _
        (fail-PanicsIn LosesSwap env.compensation evt.aggregate_id reason w')
  answered-PanicsIn evt (swapped resp) req found w' d asked h =
      record-PanicsIn evt resp _ w' λ e unloaded. record {
        evt = evt;
        decodes = d;
        req = req;
        found = found;
        asked = asked;
        resp = resp;
        executed = h;
        error = e;
        unloaded = unloaded;
      }

  swap-PanicsIn : PanicsIn LosesSwap (handle_position_created env event_data w)
  unfolding handle_position_created
  swap-PanicsIn =
      start-PanicsIn LosesSwap (unmarshal_position_created_for_order event_data) (λ e. e.event_id)
        env.check w _
        λ evt d. on_ok-PanicsIn LosesSwap _ w _ λ o _. on_ok-PanicsIn LosesSwap _ w _ λ o' _.
          on_saved-PanicsIn LosesSwap _ w _
            λ o'' db. answered-PanicsIn evt _ (swap_request env evt o'') db _ d refl refl

module _ {W : Type 0} ⦃f : Float W⦄ where
  -- What a nil dereference of a step tells.
  abbrev pub Tells : Step W → Object W → World W → World W → Type 0
  Tells (Step.swap env) event_data w = LosesSwap env event_data w
  Tells _ event_data w = λ _. ⊥

  -- A nil dereference ends a handler in one case only, in STEP 3: the worker has executed the swap
  -- that it was asked for, and then the order cannot be loaded again. STEP 1, 2 and 4 never end so.
  pub panics_in_swap :
      (step : Step W) (event_data : Object W) (w : World W)
      → (handle step event_data w).1 ≡ panics
      → Tells step event_data w (handle step event_data w).0
  unfolding handle handle_order_accepted handle_price_quoted handle_swap_executed
  panics_in_swap (Step.accept env) o w =
      start-PanicsIn (λ _. ⊥) (unmarshal_order_accepted o) (λ e. e.event_id) env.check w _
        λ e _. quote-PanicsIn (λ _. ⊥) env e _ w
  panics_in_swap (Step.price env) o w =
      start-PanicsIn (λ _. ⊥) (unmarshal_price_quoted o) (λ e. e.event_id) env.check w _
        λ e _.
          on_ok-PanicsIn (λ _. ⊥) _ w _
            λ o _.
              on_ok-PanicsIn (λ _. ⊥) _ w _ λ p _. on_saved-PanicsIn (λ _. ⊥) _ w _ λ a db p. cc
  panics_in_swap (Step.swap env) o w = swap-PanicsIn env o w
  panics_in_swap (Step.complete env) o w =
      start-PanicsIn (λ _. ⊥) (unmarshal_swap_executed o) (λ e. e.event_id) env.check w _
        λ e _. on_ok-PanicsIn (λ _. ⊥) _ w _ λ p _. completed-PanicsIn (λ _. ⊥) env e p _ w
