-- ===== src/Saga/World.antt =====
-- What the saga's handlers act on, and infrastructure/idempotency/processed_events.go. A call of
-- the database or of the broker that fails is told by the error's text, or by its `Link`.
use saga_market_order.Prelude.{
  String, Bool, false, Option, none, some, List, [], ◌∷◌, ◌++◌, ◌||◌, ◌==◌, if◌then◌else◌,
}
use saga_market_order.Json.{Object}
use saga_market_order.EventStore.Postgres.{Processed, Database}
use saga_market_order.Messaging.RabbitMq.{Message}
use saga_market_order.Order.Events.{BaseEvent}
pub use saga_market_order.Result.{Ending, success, fails, panics}
use saga_market_order.Result.{Failure, Result, text, ok, err}

pub record SwapRequest (W : Type 0) : Type 0 where
  pub idempotency_key : String
  pub from_currency : String
  pub to_currency : String
  pub from_amount : W
  pub slippage : W

-- A call of the trade worker: the request, and the database as the worker finds it.
pub record SwapCall (W : Type 0) : Type 0 where
  pub request : SwapRequest W
  pub found : Database W

-- The database, what the saga has published, and the calls of the trade worker so far.
pub record World (W : Type 0) : Type 0 where
  pub database : Database W
  pub published : List (Message W)
  pub calls : List (SwapCall W)

abbrev pub Outcome : Type 0 → Type 0
Outcome W = World W × Ending W

-- `SELECT EXISTS(…)`: a row of `processed_events` has the event's id.
unfoldable pub has_row : String → List Processed → Bool
has_row id [] = false
has_row id (r ∷ rows) = r.event_id == id || has_row id rows

-- The INSERT with `ON CONFLICT (event_id) DO NOTHING`.
unfoldable pub insert_processed : Processed → List Processed → List Processed
unfolding has_row
insert_processed r rows = if has_row r.event_id rows then rows else rows ++ r ∷ []

module _ {W : Type 0} where
  -- `if err != nil { return err }` behind a call that changes nothing.
  unfoldable pub on_ok : {A : Type 0} → Result W A → World W → (A → Outcome W) → Outcome W
  on_ok (ok a) w k = k a
  on_ok (err e) w k = (w, fails e)

  -- The same behind a save.
  unfoldable pub on_saved :
      {A : Type 0}
      → A × Database W × Option (Failure W)
      → World W
      → (A → World W → Outcome W)
      → Outcome W
  on_saved (a, db, none) w k = k a (record w { database = db })
  on_saved (a, db, some e) w k = (record w { database = db }, fails e)

  -- A `return err` as the handler's end.
  abbrev pub ends : Option (Failure W) → Ending W
  ends none = success
  ends (some e) = fails e

  abbrev pub decoded : {A : Type 0} → Option A → Result W A
  decoded none = err (text "invalid JSON")
  decoded (some a) = ok a

  -- `processed, _ := IsProcessed(…)`: an error counts as false.
  unfoldable pub is_processed : Option String → String → World W → Bool
  unfolding has_row
  is_processed (some m) id w = false
  is_processed none id w = has_row id w.database.processed

  -- `MarkAsProcessed`, whose error no handler reads.
  unfoldable pub mark_as_processed : Option String → BaseEvent W → String → World W → World W
  unfolding insert_processed
  mark_as_processed (some m) e by w = w
  mark_as_processed none e by w = record w {
    database = record (w.database) {
      processed =
          insert_processed
            (record {
              event_id = e.event_id;
              aggregate_id = e.aggregate_id;
              event_type = e.event_type;
              processed_by = by;
            })
            w.database.processed;
    };
  }

  -- `Publish`, whose error no handler reads.
  unfoldable pub publish : Option String → String → Option (Object W) → World W → World W
  publish (some m) event_type event_data w = w
  publish none event_type event_data w = record w {
    published = w.published ++ record { event_type = event_type; event_data = event_data } ∷ [];
  }
