-- ===== src/Saga/Request.antt =====
-- When STEP 3 asks the trade worker for a swap.
use saga_market_order.Prelude.{
  String, ◌≡◌, refl, ap, sym, ◌∙◌, ◌⊎◌, inl, inr, Bool, true, false, Option, none, some, List, [],
  ◌∷◌, ◌++◌, arith, map, if◌then◌else◌, subst,
}
use saga_market_order.Float.{Float}
use saga_market_order.Json.{Object}
use saga_market_order.EventStore.Serializer.{order_event}
use saga_market_order.EventStore.Postgres.{Database}
use saga_market_order.EventStore.Atomicity.{Adds}
use saga_market_order.Order.Codec.{unmarshal_position_created_for_order}
use saga_market_order.Order.Events.{BaseEvent, Event, PositionCreatedForOrder, SwapExecuting}
use saga_market_order.Order.Aggregate as OrderAggregate
use saga_market_order.Order.Aggregate.{Order, pending, when, apply}
use saga_market_order.Order.Commands as OrderCommands
use saga_market_order.AggregateStore.Store.{
  order_applied, load_order_aggregate, save_order_aggregate,
}
use saga_market_order.AggregateStore.Saves.{OrderSaves, save_order-OrderSaves}
use saga_market_order.Result.{Failure, Result, ok, err}
use saga_market_order.Saga.World.{
  SwapRequest, SwapCall, World, Outcome, success, fails, panics, on_ok, on_saved, decoded,
  is_processed, mark_as_processed, publish,
}
use saga_market_order.Saga.Compensation.{
  Compensation, compensate_order_failed, compensate_swap_failed, close_position,
}
use saga_market_order.Saga.Swap.{
  Env, Answer, refused, swapped, SwapResponse, generate_idempotency_key, swap_request, record_swap,
  answered, ask, start, handle_position_created,
}

module _ {W : Type 0} where
  -- The outcome's calls of the worker.
  record Asks (rs : List (SwapCall W)) (out : Outcome W) : Type 0 where
    same : out.0.calls ≡ rs

  on_ok_rule :
      {A : Type 0} (P : Outcome W → Type 0) (r : Result W A) (w : World W) (k : A → Outcome W)
      → ((e : Failure W) → P (w, fails e))
      → ((a : A) → r ≡ ok a → P (k a))
      → P (on_ok r w k)
  unfolding on_ok
  on_ok_rule P (ok a) w k h g = g a refl
  on_ok_rule P (err e) w k h g = h e

  on_saved_rule :
      {A : Type 0} (P : Outcome W → Type 0) (out : A × Database W × Option (Failure W))
      (w : World W) (k : A → World W → Outcome W)
      → ((db : Database W) (e : Failure W) → P (record w { database = db }, fails e))
      → (out.2 ≡ none → P (k out.0 (record w { database = out.1 })))
      → P (on_saved out w k)
  unfolding on_saved
  on_saved_rule P (a, db, none) w k h g = g refl
  on_saved_rule P (a, db, some e) w k h g = h db e

  end-Asks :
      (m send : Option String) (e : BaseEvent W) (by kind : String) (o : Option (Object W))
      (w : World W)
      → Asks w.calls (mark_as_processed m e by (publish send kind o w), success)
  unfolding mark_as_processed publish
  end-Asks none none e by kind o w = record { same = refl }
  end-Asks none (some x) e by kind o w = record { same = refl }
  end-Asks (some y) none e by kind o w = record { same = refl }
  end-Asks (some y) (some x) e by kind o w = record { same = refl }

module _ {W : Type 0} ⦃f : Float W⦄ where
  failed-Asks :
      (c : Compensation) (id reason : String) (w : World W)
      → Asks w.calls (compensate_order_failed c id reason w)
  unfolding compensate_order_failed
  failed-Asks c id reason w =
      let at_once : (e : Failure W) → Asks w.calls (w, fails e) = λ e. record { same = refl } in
      on_ok_rule (Asks w.calls) _ w _ at_once λ o _. on_ok_rule (Asks w.calls) _ w _ at_once λ o' _.
        on_saved_rule (Asks w.calls) _ w _ (λ db e. record { same = refl })
          λ _. record { same = refl }

  close-Asks :
      (c : Compensation) (position_id : String) (out : Outcome W) (rs : List (SwapCall W))
      → Asks rs out
      → Asks rs (close_position c position_id out)
  close-Asks c id (w, fails e) rs h = record { same = h.same }
  close-Asks c id (w, panics) rs h = record { same = h.same }
  close-Asks c id (w, success) rs h =
      let at_once : (e : Failure W) → Asks rs (w, fails e) = λ e. record { same = h.same } in
      on_ok_rule (Asks rs) _ w _ at_once λ o _. on_ok_rule (Asks rs) _ w _ at_once λ o' _.
        on_saved_rule (Asks rs) _ w _ (λ db e. record { same = h.same })
          λ _. record { same = h.same }

  compensated-Asks :
      (c : Compensation) (id position_id reason : String) (w : World W)
      → Asks w.calls (compensate_swap_failed c id position_id reason w)
  unfolding compensate_swap_failed
  compensated-Asks c id position_id reason w =
      close-Asks c position_id (compensate_order_failed c id reason w) w.calls
        (failed-Asks c id reason w)

  record-Asks :
      (env : Env W) (evt : PositionCreatedForOrder W) (resp : SwapResponse W)
      (r : Result W (Order W)) (w : World W)
      → Asks w.calls (record_swap env evt resp r w)
  record-Asks env evt resp (err e) w = record { same = refl }
  record-Asks env evt resp (ok o) w =
      on_saved_rule (Asks w.calls) _ w _ (λ db e. record { same = refl })
        λ _. end-Asks env.mark env.send evt.base _ _ _ _

  answered-Asks :
      (env : Env W) (evt : PositionCreatedForOrder W) (answer : Answer W) (w : World W)
      → Asks w.calls (answered env evt answer w)
  answered-Asks env evt (refused reason) w =
      compensated-Asks env.compensation evt.aggregate_id evt.position_id reason w
  answered-Asks env evt (swapped resp) w = record-Asks env evt resp _ w

  -- The order that STEP 3 loads and starts.
  abbrev pub started : Env W → PositionCreatedForOrder W → Order W → OrderAggregate.Outcome W
  started env evt o =
      OrderCommands.start_swap_execution env.start_stamp (generate_idempotency_key evt.aggregate_id)
        o

  -- The order was loaded and is pending. The worker is called once, for the order's amount and
  -- currencies, and it finds a database to which the events of the start were added: the last is the
  -- `SwapExecuting` with the order's idempotency key.
  pub record Requested (env : Env W) (evt : PositionCreatedForOrder W) (w w' : World W)
      : Type 0 where
    pub order : Order W
    pub loaded : load_order_aggregate env.load evt.aggregate_id w.database ≡ ok order
    pub was_pending : order.status ≡ pending
    pub executing : SwapExecuting W
    pub names : executing.aggregate_id ≡ order.id
    pub keyed : executing.idempotency_key ≡ generate_idempotency_key evt.aggregate_id
    pub found : Database W
    pub saved :
        Adds
          (map order_event (order.changes ++ Event.swap_executing executing ∷ []))
          w.database
          found
    pub called :
        w'.calls ≡ w.calls ++ record { request = swap_request env evt order; found = found } ∷ []

  abbrev Once : Env W → PositionCreatedForOrder W → World W → Outcome W → Type 0
  Once env evt w out = (out.0.calls ≡ w.calls) ⊎ Requested env evt w out.0

  applied_ok :
      (out : OrderAggregate.Outcome W) {o' : Order W}
      → order_applied out ≡ ok o'
      → (out.1 ≡ none) × (o' ≡ out.0)
  applied_ok (o, none) h = (refl, cc)
  applied_ok (o, some x) h = cc

  started-pending :
      (env : Env W) (evt : PositionCreatedForOrder W) (o : Order W)
      → (started env evt o).1 ≡ none
      → o.status ≡ pending
  unfolding OrderCommands.start_swap_execution apply when
  started-pending env evt o h = ground arith

  started-event :
      (env : Env W) (evt : PositionCreatedForOrder W) (o : Order W)
      → (started env evt o).1 ≡ none
      → (e : SwapExecuting W) × (e.aggregate_id ≡ o.id)
        × (e.idempotency_key ≡ generate_idempotency_key evt.aggregate_id)
        × ((started env evt o).0.changes ≡ o.changes ++ Event.swap_executing e ∷ [])
  unfolding OrderCommands.start_swap_execution apply when
  started-event env evt o h = (
    record {
      base = OrderCommands.next_base env.start_stamp o "SwapExecuting";
      idempotency_key = generate_idempotency_key evt.aggregate_id;
    },
    ground arith,
    ground arith,
    ground arith,
  )

  started-request :
      (env : Env W) (evt : PositionCreatedForOrder W) (o : Order W)
      → swap_request env evt (record ((started env evt o).0) { changes = [] })
        ≡ swap_request env evt o
  unfolding OrderCommands.start_swap_execution apply when swap_request
  started-request env evt o = ground arith

  asked-Once :
      (env : Env W) (evt : PositionCreatedForOrder W) (o : Order W) (w : World W)
      (out : Order W × Database W × Option (Failure W))
      → load_order_aggregate env.load evt.aggregate_id w.database ≡ ok o
      → (started env evt o).1 ≡ none
      → OrderSaves (started env evt o).0 w.database out
      → Once env evt w (on_saved out w λ o'' w'. ask env evt (swap_request env evt o'') w')
  unfolding on_saved
  asked-Once env evt o w (o', db, some e) l h s = inl refl
  asked-Once env evt o w (o', db, none) l h (inr ((x, e), _, _)) = cc
  asked-Once env evt o w (o', db, none) l h (inl (_, stripped, adds)) =
      let req = swap_request env evt o' in
      let call = λ (r : SwapRequest W). w.calls ++ record { request = r; found = db } ∷ [] in
      let a =
        answered-Asks env evt (env.execute_swap req)
          (record w { database = db; calls = call req }) in
      let (e, names, keyed, changes) = started-event env evt o h in
      inr (record {
        order = o;
        loaded = l;
        was_pending = started-pending env evt o h;
        executing = e;
        names = names;
        keyed = keyed;
        found = db;
        saved = rw changes at adds;
        called = a.same ∙ ap call (ap (swap_request env evt) stripped ∙ started-request env evt o);
      })

  decoded_lem :
      {A : Type 0} (d : Option A) {a b : A} → d ≡ some a → decoded {W = W} d ≡ ok b → b ≡ a
  decoded_lem none h k = cc
  decoded_lem (some x) h k = cc

  moved :
      (env : Env W) {evt e : PositionCreatedForOrder W} (w : World W) (out : Outcome W)
      → e ≡ evt
      → Once env e w out
      → Once env evt w out
  moved env w out same h = subst (λ x. Once env x w out) same h

  if-Once :
      (env : Env W) (evt : PositionCreatedForOrder W) (w : World W) (b : Bool) (out : Outcome W)
      → Once env evt w out
      → Once env evt w (if b then (w, success) else out)
  if-Once env evt w true out h = inl refl
  if-Once env evt w false out h = h

  -- STEP 3 on a message that decodes does not call the trade worker, or calls it exactly once:
  -- for an order that it has loaded as pending, with the order's amount and currencies and the
  -- order's idempotency key. The worker then finds the database as it was with the order's
  -- unsaved events, if any, and an event `SwapExecuting` of the order with this key added to both
  -- tables: the call is not made before this event is saved.
  pub swap_requests :
      (env : Env W) (event_data : Object W) (evt : PositionCreatedForOrder W) (w : World W)
      → unmarshal_position_created_for_order event_data ≡ some evt
      → let w' = (handle_position_created env event_data w).0 in
        (w'.calls ≡ w.calls) ⊎ Requested env evt w w'
  unfolding handle_position_created
  swap_requests env event_data evt w h =
      on_ok_rule (Once env evt w) (decoded (unmarshal_position_created_for_order event_data)) w _
        (λ x. inl refl)
        λ e found.
          moved env w (if is_processed env.check e.event_id w then (w, success) else start env e w)
            (decoded_lem _ h found)
            (if-Once env e w _ _ (
              on_ok_rule (Once env e w) (load_order_aggregate env.load e.aggregate_id w.database) w
                _ (λ x. inl refl)
                λ o loaded.
                  on_ok_rule (Once env e w) (order_applied (started env e o)) w _ (λ x. inl refl)
                    λ o' run.
                      let (done, same) = applied_ok (started env e o) run in
                      subst
                        (λ x. Once env e w (
                          on_saved (save_order_aggregate env.save_start x w.database) w
                            λ o'' w'. ask env e (swap_request env e o'') w'))
                        (sym same)
                        (asked-Once env e o w _ loaded done
                          (save_order-OrderSaves env.save_start (started env e o).0 w.database))))
