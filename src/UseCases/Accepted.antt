-- ===== src/UseCases/Accepted.antt =====
-- What `CreateOrder` records and saves.
use mathlib.Core.Option
use saga_market_order.Prelude.{
  ◌≡◌, refl, inl, inr, Option, none, some, List, [], ◌∷◌, arith, map, ap, ◌++◌, length,
}
use saga_market_order.Float.{Float}
use saga_market_order.EventStore.Postgres.{Database, Link, row_of, outbox_row_of}
use saga_market_order.EventStore.Serializer.{BaseFields, order_event, serialize_event}
use saga_market_order.Order.Events.{Event, OrderAccepted, text}
use saga_market_order.Order.Aggregate.{Order, Outcome, pending, new_order, when, apply}
use saga_market_order.Order.Commands.{Stamp}
use saga_market_order.Order.Run.{execute}
use saga_market_order.Order.Validity.{Terms, terms_of, accept}
use saga_market_order.AggregateStore.Store.{save_order_aggregate}
use saga_market_order.AggregateStore.Saves.{OrderSaves, save_order-OrderSaves}
use saga_market_order.Json.{Object}
use saga_market_order.UseCases.Create.{create_order, save_created}
use saga_market_order.Result.{Failure, wrap, ok}

map-none : {A B : Type 0} (g : A → B) (o : Option A) → Option.map g o ≡ none → o ≡ none
map-none g none h = refl
map-none g (some a) h = cc

module _ {W : Type 0} ⦃f : Float W⦄ where
  save_created_ok :
      (link : Link) (out : Outcome W) (db : Database W)
      → (save_created link out db).1 ≡ none
      → (out.1 ≡ none)
        × ((save_order_aggregate link out.0 db).2 ≡ none)
        × ((save_created link out db).0 ≡ (save_order_aggregate link out.0 db).1)
  save_created_ok link (o, some x) db h = cc
  save_created_ok link (o, none) db h = (refl, map-none _ _ h, refl)

  abbrev pub accepted : Stamp → Terms W → Outcome W
  accepted s t = execute (accept t) s new_order

  pub created_accepted :
      (link : Link) (s : Stamp) (t : Terms W) (db : Database W)
      → (create_order link s t db).1 ≡ none
      → ((accepted s t).1 ≡ none)
        × ((save_order_aggregate link (accepted s t).0 db).2 ≡ none)
        × ((create_order link s t db).0 ≡ (save_order_aggregate link (accepted s t).0 db).1)
  unfolding create_order execute
  created_accepted link s t db h = save_created_ok link (accepted s t) db h

  pub accepted_lem :
      (s : Stamp) (t : Terms W)
      → (accepted s t).1 ≡ none
      → let o = (accepted s t).0 in
        (o.id ≡ t.id)
        × (o.version ≡ 1)
        × (o.status ≡ pending)
        × (terms_of o ≡ t)
        × (length o.changes ≡ 1)
  unfolding execute apply when new_order
  accepted_lem s t h = (ground arith, ground arith, ground arith, ground arith, ground arith)

  pub saved_one :
      (o o' : Order W) (db db' : Database W) (err : Option (Failure W)) (e : Event W)
      → o.changes ≡ e ∷ []
      → err ≡ none
      → OrderSaves o db (o', db', err)
      → (s : Object W × BaseFields) × (serialize_event (order_event e) ≡ ok s)
        × (db'.events ≡ db.events ++ row_of s ∷ [])
        × (db'.outbox ≡ db.outbox ++ outbox_row_of s ∷ [])
  saved_one o o' db db' err e h n (inr ((x, k), _, _)) = cc
  saved_one o o' db db' err e h n (inl (_, _, adds)) =
      one adds.stored (rw h at adds.serialized) adds.events adds.outbox
    where
      one :
          (ss : List (Object W × BaseFields))
          → map serialize_event (order_event e ∷ []) ≡ map ok ss
          → db'.events ≡ db.events ++ map row_of ss
          → db'.outbox ≡ db.outbox ++ map outbox_row_of ss
          → (s : Object W × BaseFields) × (serialize_event (order_event e) ≡ ok s)
            × (db'.events ≡ db.events ++ row_of s ∷ [])
            × (db'.outbox ≡ db.outbox ++ outbox_row_of s ∷ [])
      one [] k l m = cc
      one (s ∷ []) k l m = (s, cc, l, m)
      one (s ∷ s' ∷ ss) k l m = cc

  -- The event that `AcceptOrder` records of an order's terms.
  abbrev pub acceptance : Stamp → Terms W → OrderAccepted W
  acceptance s t = record {
    base = record {
      event_id = s.uuid;
      aggregate_id = t.id;
      aggregate_type = "Order";
      event_type = "OrderAccepted";
      version = 1;
      timestamp = s.now;
      metadata = ("user_agent", text "api-v1") ∷ [];
    };
    user_id = t.user_id;
    from_amount = t.from_amount;
    from_currency = t.from_currency;
    to_currency = t.to_currency;
    order_type = t.order_type;
  }

  accepted_changes :
      (s : Stamp) (t : Terms W)
      → (accepted s t).1 ≡ none
      → (accepted s t).0.changes ≡ Event.order_accepted (acceptance s t) ∷ []
  unfolding execute apply when new_order
  accepted_changes s t h = ground arith

  -- A creation that succeeds adds the event's row to both tables; the order that the event makes of
  -- a new one is the accepted one.
  pub created_stored :
      (link : Link) (s : Stamp) (t : Terms W) (db : Database W)
      → (create_order link s t db).1 ≡ none
      → let e = Event.order_accepted (acceptance s t) in
        let db' = (create_order link s t db).0 in
        (r : Object W × BaseFields) × (serialize_event (order_event e) ≡ ok r)
        × (db'.events ≡ db.events ++ row_of r ∷ [])
        × (db'.outbox ≡ db.outbox ++ outbox_row_of r ∷ [])
        × ((o : Order W) × (when e new_order ≡ (o, none)) × (o.status ≡ pending) × (terms_of o ≡ t))
  created_stored link s t db h =
      let (done, saved, db'_lem) = created_accepted link s t db h in
      let o = (accepted s t).0 in
      let (r, serialized, events, outbox) =
        saved_one o (save_order_aggregate link o db).0 db (save_order_aggregate link o db).1
          (save_order_aggregate link o db).2 (Event.order_accepted (acceptance s t))
          (accepted_changes s t done) saved (save_order-OrderSaves link o db) in
      (r, serialized, rw db'_lem events, rw db'_lem outbox, made s t)
    where
      made :
          (s : Stamp) (t : Terms W)
          → (o : Order W) × (when (Event.order_accepted (acceptance s t)) new_order ≡ (o, none))
            × (o.status ≡ pending)
            × (terms_of o ≡ t)
      made s t = unfold when in (_, refl, refl, refl)

  created_unchanged :
      (link : Link) (out : Outcome W) (db : Database W) {x : Failure W}
      → (save_created link out db).1 ≡ some x
      → (save_created link out db).0 ≡ db
  created_unchanged link (o, some y) db h = refl
  created_unchanged link (o, none) db h = elim (save_order-OrderSaves link o db) [
    | inl (e, _, _) ↦ cc (ap (Option.map (wrap "failed to save order events")) e, h)
    | inr (_, _, same) ↦ same
  ]

  -- A creation that fails changes nothing.
  pub create_order-unchanged :
      (link : Link) (s : Stamp) (t : Terms W) (db : Database W) {x : Failure W}
      → (create_order link s t db).1 ≡ some x
      → (create_order link s t db).0 ≡ db
  unfolding create_order
  create_order-unchanged link s t db h = created_unchanged link _ db h
