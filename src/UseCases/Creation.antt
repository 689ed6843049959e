-- ===== src/UseCases/Creation.antt =====
-- What `CreateOrder` leaves in the store.
use saga_market_order.Prelude.{
  String, ◌≡◌, Option-cases, refl, inl, inr, true, Option, none, some, List, [], ◌∷◌, arith, ap,
  ◌++◌, length, ◌≤◌, ◌≢◌, ◌∙◌, int_max, sym, subst,
}
use mathlib.Core.List.{Memᴰ}
use saga_market_order.Prelude.Membership.{mem_append_right}
use saga_market_order.Float.{Float}
use saga_market_order.EventStore.Postgres.{Row, Database, Link, clashes, row_of, select, save}
use saga_market_order.EventStore.Atomicity.{save_clash}
use package.text.Mathlib.TextPositions.{eq_refl}
use saga_market_order.EventStore.Serializer.{BaseFields, order_event}
use saga_market_order.Order.Events.{Event, base_of, text}
use saga_market_order.Order.Aggregate.{OrderStatus, Order, pending, new_order}
use saga_market_order.Order.Commands.{Stamp}
use saga_market_order.Order.Run.{execute_all}
use saga_market_order.Order.Emits.{strip, execute-IsLawful}
use saga_market_order.Order.Validity.{Terms, terms_of, IsValid, accept, accept_iff}
use saga_market_order.AggregateStore.Store.{order_saved, load_order_aggregate, save_order_aggregate}
use saga_market_order.AggregateStore.Orders.{IsUp, Holds, serialized_order}
use saga_market_order.AggregateStore.Saves.{save_order-OrderSaves}
use saga_market_order.AggregateStore.Reloads.{accepted_then, reload_accepted}
use saga_market_order.UseCases.Create.{create_order}
use saga_market_order.Result.{Failure, ok}
use saga_market_order.UseCases.Accepted.{
  accepted, created_accepted, accepted_lem, saved_one, create_order-unchanged,
}

module _ {W : Type 0} ⦃f : Float W⦄ where
  accepted_then_none : (s : Stamp) (t : Terms W) → accepted_then s t [] ≡ (accepted s t).0
  unfolding execute_all
  accepted_then_none s t = refl

  -- The store holds the order that is created, and gives it back.
  pub created_held :
      (link : Link) (s : Stamp) (t : Terms W) (db : Database W)
      → select t.id db.events ≡ []
      → IsUp link
      → (create_order link s t db).1 ≡ none
      → let db' = (create_order link s t db).0 in
        let o = strip (accepted s t).0 in
        (load_order_aggregate link t.id db' ≡ ok o) × Holds t.id o db'
  created_held link s t db free up h =
      let (done, saved, db'_lem) = created_accepted link s t db h in
      let (_, _, _, _, changes) = accepted_lem s t done in
      let e = accepted_then_none s t in
      let stored =
        reload_accepted link s t [] db done free tt tt
          (subst (λ (o : Order W). length o.changes ≤ int_max) (sym e) (omega (arith, changes))) up
          (subst (λ o. (save_order_aggregate link o db).2 ≡ none) (sym e) saved) in
      let P : Order W → Database W → Type 0 =
        λ o db'. (load_order_aggregate link t.id db' ≡ ok (strip o)) × Holds t.id (strip o) db' in
      subst (P (accepted s t).0) (sym db'_lem)
        (subst (λ o. P o (save_order_aggregate link o db).1) e stored)

  -- An order that `CreateOrder` creates under an id that the store does not know can be loaded, if
  -- the database answers: it is pending, has version 1 and the terms of the request, and these
  -- passed the validation. The store then holds it.
  pub created_loads :
      (link : Link) (s : Stamp) (t : Terms W) (db : Database W)
      → select t.id db.events ≡ []
      → IsUp link
      → (create_order link s t db).1 ≡ none
      → let db' = (create_order link s t db).0 in
        (o : Order W) × (load_order_aggregate link t.id db' ≡ ok o)
        × (o.status ≡ pending)
        × (o.version ≡ 1)
        × (terms_of o ≡ t)
        × IsValid t
        × Holds t.id o db'
  created_loads link s t db free up h =
      let (done, _, _) = created_accepted link s t db h in
      let (_, version, status, terms, _) = accepted_lem s t done in
      let (loads', holds') = created_held link s t db free up h in
      (
        strip (accepted s t).0,
        loads',
        status,
        version,
        terms,
        (accept_iff s t new_order).0 done,
        holds',
      )

  -- The event that `AcceptOrder` records.
  accepted_event :
      (s : Stamp) (t : Terms W)
      → (accepted s t).1 ≡ none
      → (e : Event W) × ((accepted s t).0.changes ≡ e ∷ [])
        × ((base_of e).aggregate_id ≡ t.id)
        × ((base_of e).version ≡ 1)
  accepted_event s t done =
      let (id, version, status, _, _) = accepted_lem s t done in
      elim (execute-IsLawful (accept t) s new_order) [
        | inl same ↦ absurd (unset_lem (ap (λ (o : Order W). o.status) same) status)
        | inr (_, e) ↦ (
          e.event,
          e.appended ∙ ap (λ l. l ++ e.event ∷ []) new_order-changes,
          e.owned ∙ id,
          e.numbered ∙ version,
        )
      ]
    where
      unset_lem : {st : OrderStatus} → st ≡ (new_order {W = W}).status → st ≡ pending → ⊥
      unset_lem h k = unfold new_order in cc

      new_order-changes : (new_order {W = W}).changes ≡ []
      new_order-changes = unfold new_order in refl

  -- The first event of the id is in the store.
  pub record HasFirst (id : String) (db : Database W) : Type 0 where
    pub row : Row W
    pub stored : Memᴰ row db.events
    pub names : row.aggregate_id ≡ id
    pub first : row.version ≡ 1

  clashes-Memᴰ :
      (b : BaseFields) (rows : List (Row W)) (r : Row W)
      → Memᴰ r rows
      → r.aggregate_id ≡ b.aggregate_id
      → r.version ≡ b.version
      → clashes b rows ≡ true
  unfolding clashes
  clashes-Memᴰ b [] r m h k = elim m [ ]
  clashes-Memᴰ b (x ∷ rows) r (Memᴰ.head e) h k = ground (arith, e, h, k, eq_refl b.aggregate_id)
  clashes-Memᴰ b (x ∷ rows) r (Memᴰ.tail m) h k = ground (arith, clashes-Memᴰ b rows r m h k)

  -- A creation stores it.
  pub created-HasFirst :
      (link : Link) (s : Stamp) (t : Terms W) (db : Database W)
      → (create_order link s t db).1 ≡ none
      → HasFirst t.id (create_order link s t db).0
  created-HasFirst link s t db h =
      let (done, saved, db'_lem) = created_accepted link s t db h in
      let (e, only, id, version) = accepted_event s t done in
      let o = (accepted s t).0 in
      let (r, serialized, events, _) =
        saved_one o (save_order_aggregate link o db).0 db (save_order_aggregate link o db).1
          (save_order_aggregate link o db).2 e only saved (save_order-OrderSaves link o db) in
      let (_, fields) = serialized_order e r serialized in
      record {
        row = row_of r;
        stored = rw (db'_lem, events) (mem_append_right db.events (Memᴰ.head refl));
        names = ap (λ (b : BaseFields). b.aggregate_id) fields ∙ id;
        first = ap (λ (b : BaseFields). b.version) fields ∙ version;
      }

  order_saved-none :
      (o : Order W) (out : Database W × Option (Failure W))
      → (order_saved o out).2 ≡ none
      → out.1 ≡ none
  order_saved-none o (db, none) h = refl
  order_saved-none o (db, some x) h = cc

  save_order-none :
      (link : Link) (o : Order W) (db : Database W) (e : Event W)
      → o.changes ≡ e ∷ []
      → (save_order_aggregate link o db).2 ≡ none
      → (save link (order_event e ∷ []) db).1 ≡ none
  unfolding save_order_aggregate
  save_order-none link o db e only h =
      order_saved-none _ (save link (order_event e ∷ []) db) (rw only at h)

  -- A request for an id whose first event is in the store does not succeed.
  taken :
      (link : Link) (s : Stamp) (t : Terms W) (db : Database W)
      → HasFirst t.id db
      → (create_order link s t db).1 ≢ none
  taken link s t db has again =
      let (done, saved, _) = created_accepted link s t db again in
      let (e, only, id, version) = accepted_event s t done in
      let o = (accepted s t).0 in
      let (r, serialized, _, _) =
        saved_one o (save_order_aggregate link o db).0 db (save_order_aggregate link o db).1
          (save_order_aggregate link o db).2 e only saved (save_order-OrderSaves link o db) in
      let (_, fields) = serialized_order e r serialized in
      let c : clashes r.1 db.events ≡ true =
        clashes-Memᴰ r.1 db.events has.row has.stored (rw (fields, id) (has.names))
          (rw (fields, version) (has.first)) in
      save_clash link (order_event e) [] r db serialized c (save_order-none link o db e only saved)

  -- It fails then, and changes nothing.
  pub taken_fails :
      (link : Link) (s : Stamp) (t : Terms W) (db : Database W)
      → HasFirst t.id db
      → let (db', e) = create_order link s t db in ((x : Failure W) × (e ≡ some x)) × (db' ≡ db)
  taken_fails link s t db has = elim (Option-cases (create_order link s t db).1) [
    | inl again ↦ absurd (taken link s t db has again)
    | inr (x, fails) ↦ ((x, fails), create_order-unchanged link s t db fails)
  ]
