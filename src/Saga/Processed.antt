-- ===== src/Saga/Processed.antt =====
-- infrastructure/idempotency/processed_events.go: `GetProcessedEvents`, the audit of an aggregate.
use package.text.Mathlib.TextPositions.{eq_refl}
use saga_market_order.Prelude.{
  String, ◌≡◌, refl, false, Option, none, List, [], ◌∷◌, ◌++◌, ◌==◌, if◌then◌else◌, arith,
}
use saga_market_order.EventStore.Postgres.{Processed, failure}
use saga_market_order.Order.Events.{BaseEvent}
use saga_market_order.Result.{Result, text, wrap, ok, ◌>>=◌}
use saga_market_order.Saga.World.{World, has_row, insert_processed, mark_as_processed}

-- What the query, the first `Scan` and the cursor meet.
pub record Audit : Type 0 where
  pub query : Option String
  pub scan : Option String
  pub rows : Option String

-- `WHERE aggregate_id = $1 ORDER BY processed_at`: rows are inserted in this order.
unfoldable pub processed_of : String → List Processed → List Processed
processed_of id [] = []
processed_of id (r ∷ rows) =
    let rest = processed_of id rows in if r.aggregate_id == id then r ∷ rest else rest

processed_of-snoc :
    (r : Processed) (rows : List Processed)
    → processed_of r.aggregate_id (rows ++ r ∷ []) ≡ processed_of r.aggregate_id rows ++ r ∷ []
unfolding processed_of
processed_of-snoc r [] = rw (eq_refl r.aggregate_id) refl
processed_of-snoc r (x ∷ rows) = ground (arith, processed_of-snoc r rows)

module _ {W : Type 0} where
  abbrev pub scan_processed : Option String → List Processed → Result W (List Processed)
  scan_processed answer [] = ok []
  scan_processed answer (r ∷ rows) = do
    _ ← failure answer (λ m. wrap "failed to scan processed event" (text m))
    ok (r ∷ rows)

  unfoldable pub get_processed_events : Audit → String → World W → Result W (List Processed)
  unfolding processed_of
  get_processed_events a id w = do
    _ ← failure a.query (λ m. wrap "failed to query processed events" (text m))
    found ← scan_processed a.scan (processed_of id w.database.processed)
    _ ← failure a.rows text
    ok found

  -- The row that `MarkAsProcessed` inserts.
  abbrev pub row_for : BaseEvent W → String → Processed
  row_for e by = record {
    event_id = e.event_id;
    aggregate_id = e.aggregate_id;
    event_type = e.event_type;
    processed_by = by;
  }

  scanned :
      (answer : Option String) (rows : List Processed)
      → answer ≡ none
      → scan_processed answer rows ≡ ok rows
  scanned answer [] h = refl
  scanned answer (r ∷ rows) h = rw h refl

  -- The audit shows every mark: behind a `MarkAsProcessed` of an event that was not marked, with a
  -- database that answers, `GetProcessedEvents` of the event's aggregate gives what it gave before
  -- and, last, the event with the name of who has processed it.
  pub marked_listed :
      (a : Audit) (e : BaseEvent W) (by : String) (w : World W)
      → a.query ≡ none
      → a.scan ≡ none
      → a.rows ≡ none
      → has_row e.event_id w.database.processed ≡ false
      → (rows : List Processed) × (get_processed_events a e.aggregate_id w ≡ ok rows)
        × (get_processed_events a e.aggregate_id (mark_as_processed none e by w)
            ≡ ok (rows ++ row_for e by ∷ []))
  unfolding get_processed_events mark_as_processed insert_processed
  marked_listed a e by w q s r new =
      let rows = processed_of e.aggregate_id w.database.processed in
      (
        rows,
        rw (q, scanned a.scan rows s, r) refl,
        rw
            (
              q,
              new,
              processed_of-snoc (row_for e by) w.database.processed,
              scanned a.scan (rows ++ row_for e by ∷ []) s,
              r,
            )
            refl,
      )
