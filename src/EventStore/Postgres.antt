-- ===== src/EventStore/Postgres.antt =====
-- infrastructure/eventstore/postgres.go. A table is the list of its rows, in the order of insertion;
-- the unique columns are those of infrastructure/database/migrations.sql. What can fail besides is
-- the argument `Link`: the message of the error that each statement meets, if any.
use saga_market_order.Prelude.{
  ℕ, String, Bool, true, false, Option, none, some, List, [], ◌∷◌, ◌++◌, ◌&&◌, ◌||◌, ◌==◌,
  if◌then◌else◌, leb, nat_eq,
}
use saga_market_order.Float.{Float}
use saga_market_order.Json.{Object}
use saga_market_order.EventStore.ErrorText.{is_unique_violation, unique_message}
use saga_market_order.EventStore.Serializer.{BaseFields, Any, serialize_event}
use saga_market_order.Result.{Failure, Result, text, wrap, ok, err, ◌>>=◌, within}

-- A row of `events`; its serial number, which no code reads, and its metadata, always `{}`, are
-- left out. `created_at` has the event's time to the tick, which is what the column TIMESTAMP keeps
-- of it: a microsecond, of a clock in UTC. A version that does not fit the column, an INT of 32 bits,
-- is an error of the INSERT, and as such one of the `Link`.
pub record Row (W : Type 0) : Type 0 where
  pub event_id : String
  pub aggregate_id : String
  pub aggregate_type : String
  pub event_type : String
  pub event_data : Object W
  pub version : ℕ
  pub created_at : ℕ

-- A row of `outbox`; its unique event id stands for its serial number.
pub record OutboxRow (W : Type 0) : Type 0 where
  pub event_id : String
  pub aggregate_id : String
  pub event_type : String
  pub event_data : Object W
  pub published : Bool

-- A row of `processed_events`.
pub record Processed : Type 0 where
  pub event_id : String
  pub aggregate_id : String
  pub event_type : String
  pub processed_by : String

pub record Database (W : Type 0) : Type 0 where
  pub events : List (Row W)
  pub outbox : List (OutboxRow W)
  pub processed : List Processed

pub record Link : Type 0 where
  pub begin : Option String
  pub insert : String → Option String
  pub insert_outbox : String → Option String
  pub commit : Option String
  pub query : Option String
  pub scan : Option String
  pub rows : Option String

-- A new row breaks `UNIQUE (event_id)` or `UNIQUE (aggregate_id, version)`.
unfoldable pub clashes : {W : Type 0} → BaseFields → List (Row W) → Bool
clashes b [] = false
clashes b (r ∷ rows) =
    (r.event_id == b.event_id || (r.aggregate_id == b.aggregate_id && nat_eq r.version b.version))
    || clashes b rows

unfoldable pub clashes_outbox : {W : Type 0} → BaseFields → List (OutboxRow W) → Bool
clashes_outbox b [] = false
clashes_outbox b (r ∷ rows) = r.event_id == b.event_id || clashes_outbox b rows

-- The error of an INSERT: a failure of the link, or a unique violation.
abbrev insert_error : Option String → Bool → Option String
insert_error (some m) clash = some m
insert_error none true = some unique_message
insert_error none false = none

module _ {W : Type 0} where
  abbrev pub row_of : Object W × BaseFields → Row W
  row_of (o, b) = record {
    event_id = b.event_id;
    aggregate_id = b.aggregate_id;
    aggregate_type = b.aggregate_type;
    event_type = b.event_type;
    event_data = o;
    version = b.version;
    created_at = b.timestamp;
  }

  abbrev pub outbox_row_of : Object W × BaseFields → OutboxRow W
  outbox_row_of (o, b) = record {
    event_id = b.event_id;
    aggregate_id = b.aggregate_id;
    event_type = b.event_type;
    event_data = o;
    published = false;
  }

  -- What the loop does after the INSERT into `events`.
  abbrev insert_outcome : Option String → Result W (Unit {0})
  insert_outcome none = ok tt
  insert_outcome (some m) =
      if is_unique_violation m
      then err (text "optimistic locking conflict: version already exists")
      else err (wrap "failed to insert event" (text m))

  abbrev outbox_outcome : Option String → Result W (Unit {0})
  outbox_outcome none = ok tt
  outbox_outcome (some m) = err (wrap "failed to insert into outbox" (text m))

  -- The two INSERTs of one event, within the transaction.
  unfoldable pub insert_event : Link → Object W × BaseFields → Database W → Result W (Database W)
  unfolding clashes clashes_outbox
  insert_event link s db = do
    let b = s.1
    _ ← insert_outcome (insert_error (link.insert b.event_id) (clashes b db.events))
    _ ← outbox_outcome (insert_error (link.insert_outbox b.event_id) (clashes_outbox b db.outbox))
    ok (record db {
      events = db.events ++ row_of s ∷ [];
      outbox = db.outbox ++ outbox_row_of s ∷ [];
    })

  -- The SELECT of `Load`: `WHERE aggregate_id = $1 ORDER BY version ASC`. The versions of one
  -- aggregate differ, so that they fix the order.
  unfoldable pub insert_by_version : Row W → List (Row W) → List (Row W)
  insert_by_version r [] = r ∷ []
  insert_by_version r (x ∷ rows) =
      if leb r.version x.version then r ∷ x ∷ rows else x ∷ insert_by_version r rows

  unfoldable pub select : String → List (Row W) → List (Row W)
  unfolding insert_by_version
  select id [] = []
  select id (r ∷ rows) =
      let rest = select id rows in if r.aggregate_id == id then insert_by_version r rest else rest

  abbrev pub failure : Option String → (String → Failure W) → Result W (Unit {0})
  failure none f = ok tt
  failure (some m) f = err (f m)

  -- The loop over the rows: the first `Scan` may fail.
  abbrev pub scan_rows : Link → List (Row W) → Result W (List (Row W))
  scan_rows link [] = ok []
  scan_rows link (r ∷ rows) = do
    _ ← failure link.scan (λ m. wrap "failed to scan event" (text m))
    ok (r ∷ rows)

  unfoldable pub load : Link → String → Database W → Result W (List (Row W))
  load link id db = do
    _ ← failure link.query (λ m. wrap "failed to query events" (text m))
    found ← scan_rows link (select id db.events)
    _ ← failure link.rows text
    ok found

module _ {W : Type 0} ⦃f : Float W⦄ where
  unfoldable pub save_events : Link → List (Any W) → Database W → Result W (Database W)
  unfolding insert_event
  save_events link [] db = ok db
  save_events link (e ∷ es) db = do
    s ← within "failed to serialize event" (serialize_event e)
    db' ← insert_event link s db
    save_events link es db'

  abbrev pub commit_outcome :
      Option String → Database W → Result W (Database W) → Database W × Option (Failure W)
  commit_outcome failure db (err e) = (db, some e)
  commit_outcome none db (ok db') = (db', none)
  commit_outcome (some m) db (ok db') = (db, some (wrap "failed to commit transaction" (text m)))

  abbrev pub begin_outcome :
      Option String → Database W → Database W × Option (Failure W) → Database W × Option (Failure W)
  begin_outcome none db out = out
  begin_outcome (some m) db out = (db, some (wrap "failed to begin transaction" (text m)))

  -- `Save`: all events in one transaction, which an error rolls back.
  unfoldable pub save : Link → List (Any W) → Database W → Database W × Option (Failure W)
  save link [] db = (db, none)
  save link (e ∷ es) db =
      begin_outcome link.begin db (commit_outcome link.commit db (save_events link (e ∷ es) db))
