-- ===== src/Outbox/Publisher.antt =====
-- infrastructure/outbox/publisher.go: one tick of the publisher, `publishPendingEvents`. What the
-- database and the broker answer is the argument `Tick`. A row is known by its event id, which is
-- unique in the table like its serial id.
use saga_market_order.Prelude.Membership.{take}
use saga_market_order.Prelude.{
  ℕ, String, Bool, true, false, Option, none, some, List, [], ◌∷◌, ◌||◌, ◌==◌, if◌then◌else◌,
}
use saga_market_order.EventStore.Postgres.{OutboxRow, Database}
use saga_market_order.Messaging.RabbitMq.{RabbitMq, publish_event}
use saga_market_order.Result.{Failure, text}

-- `sort` is `ORDER BY created_at`, which leaves the events of one transaction in any order. `scan`
-- and `send` are by event id. `read`: the rows until the cursor fails, if it does, which no code
-- asks for.
pub record Tick (W : Type 0) : Type 0 where
  pub query : Option String
  pub sort : List (OutboxRow W) → List (OutboxRow W)
  pub read : Option ℕ
  pub scan : String → Option String
  pub send : String → Option String
  pub mark : Option String

-- `id = ANY($1)`
unfoldable pub is_any : String → List String → Bool
is_any id [] = false
is_any id (x ∷ ids) = id == x || is_any id ids

module _ {W : Type 0} where
  -- `WHERE published = false`
  unfoldable pub pending : List (OutboxRow W) → List (OutboxRow W)
  pending [] = []
  pending (r ∷ rows) = let rest = pending rows in if r.published then rest else r ∷ rest

  abbrev pub read_rows : Option ℕ → List (OutboxRow W) → List (OutboxRow W)
  read_rows none rows = rows
  read_rows (some n) rows = take n rows

  -- The rows that the loop gets to.
  unfoldable pub selected : Tick W → Database W → List (OutboxRow W)
  unfolding pending
  selected t db = read_rows t.read (take 100 (t.sort (pending db.outbox)))

  -- `continue` after an error, else the id is added to `publishedIDs`.
  abbrev noted :
      String
      → RabbitMq W × Option (Failure W)
      → (RabbitMq W → RabbitMq W × List String)
      → RabbitMq W × List String
  noted id (r, some e) rest = rest r
  noted id (r, none) rest = let (r', ids) = rest r in (r', id ∷ ids)

  -- `continue` after an error of `Scan`, else the row's message is published.
  abbrev pub publish_row :
      Option String
      → Option String
      → OutboxRow W
      → (RabbitMq W → RabbitMq W × List String)
      → RabbitMq W
      → RabbitMq W × List String
  publish_row (some m) send r rest bus = rest bus
  publish_row none send r rest bus =
      noted r.event_id (publish_event send r.event_type (some r.event_data) bus) rest

  -- The loop over the rows.
  unfoldable pub publish_rows : Tick W → List (OutboxRow W) → RabbitMq W → RabbitMq W × List String
  unfolding publish_event
  publish_rows t [] bus = (bus, [])
  publish_rows t (r ∷ rows) bus =
      publish_row (t.scan r.event_id) (t.send r.event_id) r (publish_rows t rows) bus

  -- The UPDATE of `markAsPublished`.
  unfoldable pub mark_as_published : List String → List (OutboxRow W) → List (OutboxRow W)
  unfolding is_any
  mark_as_published ids [] = []
  mark_as_published ids (r ∷ rows) =
      (if is_any r.event_id ids then record r { published = true } else r)
      ∷ mark_as_published ids rows

  -- The end of a tick: the UPDATE, unless nothing was published.
  abbrev pub marked :
      Option String
      → Database W
      → RabbitMq W × List String
      → Database W × RabbitMq W × Option (Failure W)
  marked answer db (bus, []) = (db, bus, none)
  marked (some m) db (bus, id ∷ ids) = (db, bus, some (text m))
  marked none db (bus, id ∷ ids) =
      (record db { outbox = mark_as_published (id ∷ ids) db.outbox }, bus, none)

  abbrev pub queried :
      Option String
      → Database W × RabbitMq W
      → Database W × RabbitMq W × Option (Failure W)
      → Database W × RabbitMq W × Option (Failure W)
  queried none (db, bus) out = out
  queried (some m) (db, bus) out = (db, bus, some (text m))

  unfoldable pub publish_pending_events :
      Tick W → Database W × RabbitMq W → Database W × RabbitMq W × Option (Failure W)
  unfolding selected publish_rows mark_as_published
  publish_pending_events t (db, bus) =
      queried t.query (db, bus) (marked t.mark db (publish_rows t (selected t db) bus))

  -- The ticks of `Start`, which goes on after an error.
  unfoldable pub run : List (Tick W) → Database W × RabbitMq W → Database W × RabbitMq W
  unfolding publish_pending_events
  run [] s = s
  run (t ∷ ts) s = let (db, bus, _) = publish_pending_events t s in run ts (db, bus)
