-- ===== src/Journey/Unique.antt =====
-- application/usecases/create_order.go, in the service at work: an id is created at most once.
use saga_market_order.Prelude.Membership.{mem_append_left}
use saga_market_order.Prelude.{String, ◌≡◌, subst, sym, none, some, List}
use saga_market_order.Float.{Float}
use saga_market_order.EventStore.Postgres.{Link}
use saga_market_order.Order.Commands.{Stamp}
use saga_market_order.Order.Validity.{Terms}
use saga_market_order.UseCases.Create.{create_order}
use saga_market_order.UseCases.Creation.{HasFirst, created-HasFirst, taken_fails}
use saga_market_order.Saga.Keeps.{IsStable}
use saga_market_order.Journey.Service.{Service, Operation, operate_all}
use saga_market_order.Journey.Stable.{operate_all-Keeps}
use saga_market_order.Result.{Failure}

module _ {W : Type 0} ⦃f : Float W⦄ where
  HasFirst-IsStable : (id : String) → IsStable (HasFirst {W = W} id)
  HasFirst-IsStable id = record {
    saved = λ {es} {db} {db'} adds h. record {
      row = h.row;
      stored = rw (adds.events) (mem_append_left _ (h.stored));
      names = h.names;
      first = h.first;
    };
    marked = λ r db h. record { row = h.row; stored = h.stored; names = h.names; first = h.first };
    updated =
        λ rows db h. record { row = h.row; stored = h.stored; names = h.names; first = h.first };
  }

  -- `CreateOrder` creates an id at most once: behind a success, however much the service does next,
  -- requests, deliveries to the saga and to the notification service, ticks of the outbox, in any
  -- order and with any failures, every further request for the same id fails, whatever its terms and
  -- whatever the database answers, and changes nothing.
  pub creates_once :
      (link link' : Link) (s s' : Stamp) (t t' : Terms W) (x : Service W)
      (between : List (Operation W))
      → t'.id ≡ t.id
      → (create_order link s t x.world.database).1 ≡ none
      → let db = (create_order link s t x.world.database).0 in
        let x' = record x { world = record (x.world) { database = db } } in
        let db' = (operate_all between x').world.database in
        let (db'', e) = create_order link' s' t' db' in
        ((y : Failure W) × (e ≡ some y)) × (db'' ≡ db')
  creates_once link link' s s' t t' x between same done =
      let db = (create_order link s t x.world.database).0 in
      let x' = record x { world = record (x.world) { database = db } } in
      let kept =
        operate_all-Keeps (HasFirst t.id) (HasFirst-IsStable t.id) between x'
          (created-HasFirst link s t x.world.database done) in
      taken_fails link' s' t' (operate_all between x').world.database
        (subst (λ id. HasFirst id (operate_all between x').world.database) (sym same) kept)
