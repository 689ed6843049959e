-- ===== src/Saga/Quote.antt =====
-- What STEP 1 does to the stored order.
use saga_market_order.Prelude.{
  String, ◌<◌, ◌≡◌, refl, inl, inr, false, Option, none, some, [], ◌∷◌, arith, int_max, length,
  subst, int_suc,
}
use saga_market_order.Float.{Float}
use saga_market_order.Json.{Object}
use saga_market_order.EventStore.Postgres.{Database, Link}
use saga_market_order.Order.Codec.{unmarshal_order_accepted}
use saga_market_order.Order.Events.{BaseEvent, OrderAccepted}
use saga_market_order.Order.Aggregate.{Order, pending, when, apply}
use saga_market_order.Order.Commands as OrderCommands
use saga_market_order.Order.Run.{Command, execute, execute_all}
use saga_market_order.Order.Emits.{strip}
use saga_market_order.AggregateStore.Store.{load_order_aggregate, save_order_aggregate}
use saga_market_order.AggregateStore.Orders.{IsUp, Holds, IsRecord, Adds-Holds, load-Holds}
use saga_market_order.AggregateStore.Reloads.{follow_ups-IsRecord}
use saga_market_order.AggregateStore.Saves.{save_order-OrderSaves}
use saga_market_order.Result.{ok, Failure}
use saga_market_order.Saga.World as Worlds
use saga_market_order.Saga.World.{
  World, Ending, success, on_ok, on_saved, decoded, is_processed, mark_as_processed,
}
use saga_market_order.Saga.Accept.{Env, handle_order_accepted}

module _ {W : Type 0} ⦃f : Float W⦄ where
  open f use {nought, le, div}

  abbrev quote : Env W → OrderAccepted W → W → Command W × OrderCommands.Stamp
  quote env evt price = (Command.quote_price price (div evt.from_amount price), env.stamp)

  -- The order with the quote.
  abbrev pub quoted : Env W → OrderAccepted W → W → Order W → Order W
  quoted env evt price o = execute_all (quote env evt price ∷ []) o

  quoted_lem :
      (env : Env W) (evt : OrderAccepted W) (price : W) (o : Order W)
      → o.status ≡ pending
      → o.changes ≡ []
      → (le price nought) ≡ false
      → (le (div evt.from_amount price) nought) ≡ false
      → let o' = quoted env evt price o in
        (OrderCommands.quote_price env.stamp price (div evt.from_amount price) o ≡ (o', none))
        × (o'.status ≡ pending)
        × (o'.executed_price ≡ price)
        × (o'.to_amount ≡ div evt.from_amount price)
        × (o'.version ≡ int_suc o.version)
        × (o'.id ≡ o.id)
        × (length o'.changes ≡ 1)
  unfolding execute_all execute OrderCommands.quote_price apply when
  quoted_lem env evt price o st ch p q = (
    ground arith,
    ground arith,
    ground arith,
    ground arith,
    ground arith,
    ground arith,
    rw ch (ground arith),
  )

  saved-Holds :
      (link : Link) (base o : Order W) (db : Database W)
      → IsRecord base o
      → Holds o.id base db
      → (save_order_aggregate link o db).2 ≡ none
      → Holds o.id (strip o) (save_order_aggregate link o db).1
  saved-Holds link base o db c h saved = elim (save_order-OrderSaves link o db) [
    | inl (_, _, adds) ↦ Adds-Holds base o db _ c h adds
    | inr ((x, e), _, _) ↦ cc (e, saved)
  ]

  mark_keeps :
      (m : Option String) (e : BaseEvent W) (by : String) (w : World W)
      → (mark_as_processed m e by w).database.events ≡ w.database.events
  unfolding mark_as_processed
  mark_keeps none e by w = refl
  mark_keeps (some x) e by w = refl

  pub Holds-events :
      (id : String) (o : Order W) (db db' : Database W)
      → db'.events ≡ db.events
      → Holds id o db
      → Holds id o db'
  Holds-events id o db db' e h = record { replays = rw e h.replays; below = rw e h.below }

  saved_then :
      (out : Order W × Database W × Option (Failure W)) (w : World W)
      (k : Order W → World W → Worlds.Outcome W)
      → out.2 ≡ none
      → on_saved out w k ≡ k out.0 (record w { database = out.1 })
  unfolding on_saved
  saved_then (o, db, none) w k h = refl
  saved_then (o, db, some e) w k h = cc

  -- The end of the handler, behind the save.
  abbrev finish : Env W → OrderAccepted W → World W → Worlds.Outcome W
  finish env evt w = (mark_as_processed env.mark evt.base "order-saga-step1" w, success)

  runs :
      (env : Env W) (event_data : Object W) (evt : OrderAccepted W) (price : W) (o o' : Order W)
      (w : World W)
      → unmarshal_order_accepted event_data ≡ some evt
      → is_processed env.check evt.event_id w ≡ false
      → env.price evt.from_currency evt.to_currency ≡ some price
      → load_order_aggregate env.load evt.aggregate_id w.database ≡ ok o
      → OrderCommands.quote_price env.stamp price (div evt.from_amount price) o ≡ (o', none)
      → (save_order_aggregate env.save o' w.database).2 ≡ none
      → handle_order_accepted env event_data w
        ≡ finish env evt (record w { database = (save_order_aggregate env.save o' w.database).1 })
  unfolding handle_order_accepted on_ok
  runs env event_data evt price o o' w dec new priced loaded run saved =
      rw (dec, new, priced, loaded, run) (saved_then _ w _ saved)

  -- STEP 1 on an order that the store holds as pending, with a version that is neither 0 nor the
  -- largest `int`: if the message is not marked as processed, the service gives a price that is
  -- positive, as is the amount divided by it, and the load and the save meet no failure, then the
  -- handler returns nil, and the store holds the order as `QuotePrice` made it: pending, with the
  -- price, the amount divided by it, and the next version.
  pub quotes :
      (env : Env W) (event_data : Object W) (evt : OrderAccepted W) (price : W) (o : Order W)
      (w : World W)
      → unmarshal_order_accepted event_data ≡ some evt
      → is_processed env.check evt.event_id w ≡ false
      → env.price evt.from_currency evt.to_currency ≡ some price
      → le price nought ≡ false
      → le (div evt.from_amount price) nought ≡ false
      → o.id ≡ evt.aggregate_id
      → o.changes ≡ []
      → o.status ≡ pending
      → 0 < o.version
      → o.version < int_max
      → Holds o.id o w.database
      → IsUp env.load
      → (save_order_aggregate env.save (quoted env evt price o) w.database).2 ≡ none
      → let (w', end) = handle_order_accepted env event_data w in
        let o' = strip (quoted env evt price o) in
        (end ≡ success)
        × Holds o.id o' w'.database
        × (o'.status ≡ pending)
        × (o'.executed_price ≡ price)
        × (o'.to_amount ≡ div evt.from_amount price)
        × (o'.version ≡ int_suc o.version)
  unfolding handle_order_accepted
  quotes env event_data evt price o w dec new priced p q own ch st pos small h up saved =
      let (run, status, executed, amount, version, id, len) =
        quoted_lem env evt price o st ch p q in
      let o' = quoted env evt price o in
      let loaded : load_order_aggregate env.load evt.aggregate_id w.database ≡ ok o =
        subst (λ i. load_order_aggregate env.load i w.database ≡ ok o) own
          (load-Holds env.load o.id o w.database up pos h) in
      let c =
        follow_ups-IsRecord o (quote env evt price ∷ []) ch (refl, tt) (refl, tt)
          (omega (arith, len)) in
      let holds : Holds o'.id (strip o') (save_order_aggregate env.save o' w.database).1 =
        saved-Holds env.save o o' w.database c (rw id h) saved in
      let ended = runs env event_data evt price o o' w dec new priced loaded run saved in
      let final = record w { database = (save_order_aggregate env.save o' w.database).1 } in
      rw ended (
        refl,
        Holds-events o.id (strip o') final.database (finish env evt final).0.database
            (mark_keeps env.mark evt.base _ final)
            (subst (λ i. Holds i (strip o') final.database) id holds),
        status,
        executed,
        amount,
        version,
      )
