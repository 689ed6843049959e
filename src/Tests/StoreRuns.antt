-- ===== src/Tests/StoreRuns.antt =====
-- The event store and the aggregate store.
use saga_market_order.Prelude.{
  ℕ, ◌≡◌, ◌≢◌, refl, ◌⊎◌, true, none, some, [], ◌∷◌, ◌++◌, arith, length,
}
use saga_market_order.Float.Cents.{Cents, cents_float}
use saga_market_order.Json.{Object}
use saga_market_order.EventStore.Serializer.{BaseFields, Any, order_event, serialize_event}
use saga_market_order.EventStore.Postgres.{
  Row, Database, clashes, save, save_events, insert_event, select, row_of,
}
use saga_market_order.EventStore.Atomicity.{
  Adds, IsUnique, save_atomic, save-IsUnique, save_conflict,
}
use saga_market_order.EventStore.Selection.{select-append}
use saga_market_order.Result.{Failure, text, ok}
use saga_market_order.Order.Aggregate.{Order, new_order, when, apply}
use saga_market_order.Order.Events.{order_failed}
use saga_market_order.Order.Codec.{marshal}
use saga_market_order.Order.Run.{execute, execute_all}
use saga_market_order.Order.Emits.{strip}
use saga_market_order.Order.Validity.{accept}
use saga_market_order.AggregateStore.Store.{load_order_aggregate, save_order_aggregate}
use saga_market_order.AggregateStore.Orders.{Holds, IsUp}
use saga_market_order.AggregateStore.Reloads.{accepted_then, reload_accepted, reload_follow_ups}
use saga_market_order.Tests.Samples.{at, market_terms, saga_commands, pending_order, link, empty}

link-IsUp : IsUp link
link-IsUp = record { query = refl; scan = refl; rows = refl }

market_order_accepted : (execute (accept market_terms) (at "event-1") new_order).1 ≡ none
unfolding execute apply when
market_order_accepted = refl

no_rows : select "order-1" empty.events ≡ []
unfolding select
no_rows = refl

saga_run_length : length (accepted_then (at "event-1") market_terms saga_commands).changes ≡ 5
unfolding execute_all execute apply when new_order
saga_run_length = refl

saga_run_saved :
    (save_order_aggregate link (accepted_then (at "event-1") market_terms saga_commands) empty).2
    ≡ none
unfolding save_order_aggregate save save_events insert_event serialize_event marshal execute_all
    execute apply when new_order clashes
saga_run_saved = refl

reload_accepted_example :
    let o = accepted_then (at "event-1") market_terms saga_commands in
    let (_, db', _) = save_order_aggregate link o empty in
    (load_order_aggregate link "order-1" db' ≡ ok (strip o)) × Holds "order-1" (strip o) db'
reload_accepted_example =
    reload_accepted link (at "event-1") market_terms saga_commands empty market_order_accepted
      no_rows (refl, (refl, (refl, (refl, tt)))) (refl, (refl, (refl, (refl, tt))))
      (omega (arith, saga_run_length)) link-IsUp saga_run_saved

abbrev pub accepted_order : Order Cents
accepted_order = accepted_then (at "event-1") market_terms []

accepted_order_length : length accepted_order.changes ≡ 1
unfolding execute_all execute apply when new_order
accepted_order_length = refl

accepted_order_saved : (save_order_aggregate link accepted_order empty).2 ≡ none
unfolding save_order_aggregate save save_events insert_event serialize_event marshal execute_all
    execute apply when new_order clashes
accepted_order_saved = refl

abbrev pub first_db : Database Cents
first_db = (save_order_aggregate link accepted_order empty).1

first_db-Holds : Holds "order-1" (strip accepted_order) first_db
first_db-Holds =
    (reload_accepted link (at "event-1") market_terms [] empty market_order_accepted no_rows tt tt
      (omega (arith, accepted_order_length)) link-IsUp accepted_order_saved).1

accepted_order_lem : strip accepted_order ≡ pending_order
unfolding execute_all execute apply when new_order
accepted_order_lem = refl

pub pending_order-Holds : Holds "order-1" pending_order first_db
pending_order-Holds = rw (← accepted_order_lem) first_db-Holds

pending_run_length : length (execute_all saga_commands pending_order).changes ≡ 4
unfolding execute_all execute apply when
pending_run_length = refl

pending_run_left : (execute_all saga_commands pending_order).changes ≢ []
unfolding execute_all execute apply when
pending_run_left = ground arith

pending_run_saved :
    (save_order_aggregate link (execute_all saga_commands pending_order) first_db).2 ≡ none
unfolding save_order_aggregate save save_events insert_event serialize_event marshal execute_all
    execute apply when new_order clashes
pending_run_saved = refl

reload_follow_ups_example :
    let o = execute_all saga_commands pending_order in
    let (_, db', _) = save_order_aggregate link o first_db in
    (load_order_aggregate link "order-1" db' ≡ ok (strip o)) × Holds "order-1" (strip o) db'
reload_follow_ups_example =
    reload_follow_ups link pending_order saga_commands first_db refl pending_order-Holds
      (refl, (refl, (refl, (refl, tt)))) (refl, (refl, (refl, (refl, tt))))
      (omega (arith, pending_run_length)) pending_run_left link-IsUp pending_run_saved

abbrev cancelled : Any Cents
cancelled = order_event (
    order_failed record {
      base = record {
        event_id = "event-9";
        aggregate_id = "order-1";
        aggregate_type = "Order";
        event_type = "OrderFailed";
        version = 1;
        timestamp = 100;
        metadata = [];
      };
      reason = "cancelled";
      failed_at = 101;
    })

save_atomic_example :
    let (db', e) = save link (cancelled ∷ []) empty in
    ((e ≡ none) × Adds (cancelled ∷ []) empty db')
    ⊎ (((x : Failure Cents) × (e ≡ some x)) × (db' ≡ empty))
save_atomic_example = save_atomic link (cancelled ∷ []) empty

save-IsUnique_example : IsUnique (save link (cancelled ∷ []) empty).0.events
save-IsUnique_example = save-IsUnique link (cancelled ∷ []) empty tt

cancelled_serialized : (s : Object Cents × BaseFields) × (serialize_event cancelled ≡ ok s)
unfolding serialize_event marshal
cancelled_serialized = (_, refl)

-- The database holds a version 1 of the order already.
abbrev taken_db : Database Cents
taken_db = record empty {
  events = row_of ([], record (cancelled_serialized.0.1) { event_id = "event-1" }) ∷ [];
}

taken_db-clashes : clashes cancelled_serialized.0.1 taken_db.events ≡ true
unfolding clashes cancelled_serialized
taken_db-clashes = refl

save_conflict_example :
    save link (cancelled ∷ []) taken_db
    ≡ (taken_db, some (text "optimistic locking conflict: version already exists"))
save_conflict_example =
    save_conflict link cancelled [] cancelled_serialized.0 taken_db cancelled_serialized.1 refl refl
      taken_db-clashes

abbrev row : ℕ → Row Cents
row version = row_of (
  [],
  record {
    event_id = "event-1";
    aggregate_id = "order-1";
    aggregate_type = "Order";
    event_type = "OrderFailed";
    version = version;
    timestamp = 100;
  },
)

-- The old rows stand in no order.
select-append_example :
    select "order-1" (row 2 ∷ row 1 ∷ row 3 ∷ row 4 ∷ [])
    ≡ select "order-1" (row 2 ∷ row 1 ∷ []) ++ row 3 ∷ row 4 ∷ []
select-append_example =
    select-append "order-1" 2 (row 2 ∷ row 1 ∷ []) (row 3 ∷ row 4 ∷ [])
      (λ _. omega arith, (λ _. omega arith, tt)) (refl, omega arith, (refl, omega arith, tt))
