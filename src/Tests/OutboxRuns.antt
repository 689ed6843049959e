-- ===== src/Tests/OutboxRuns.antt =====
-- The publisher of the outbox, and the text search of the event store.
use mathlib.Core.List.{Memᴰ, Sublistᴰ}
use mathlib.Core.List.Permᴰ as Perm
use saga_market_order.Prelude.{
  ◌≤◌, ◌≡◌, ◌↔◌, refl, ◌⊎◌, inl, true, false, none, List, [], ◌∷◌, ◌++◌, length, map, arith,
}
use saga_market_order.Float.Cents.{Cents}
use saga_market_order.EventStore.ErrorText.{codes, contains_string}
use saga_market_order.EventStore.Substring.{Occurs, contains_string_iff}
use saga_market_order.EventStore.Postgres.{OutboxRow, Database}
use saga_market_order.Messaging.RabbitMq.{RabbitMq, publish_event}
use saga_market_order.Outbox.Publisher.{
  Tick, pending, selected, publish_rows, is_any, mark_as_published, publish_pending_events, run,
}
use saga_market_order.Outbox.Ticks.{message_of, ids_of, tick_sends}
use saga_market_order.Outbox.Sent.{IsSort, IsKeyed, published_was_sent}
use saga_market_order.Outbox.Backlog.{IsUp}
use saga_market_order.Outbox.Drain.{drains}
use saga_market_order.Tests.Samples.{empty}

abbrev waiting : OutboxRow Cents
waiting = record {
  event_id = "event-1";
  aggregate_id = "order-1";
  event_type = "OrderAccepted";
  event_data = [];
  published = false;
}

abbrev waiting_db : Database Cents
waiting_db = record empty { outbox = waiting ∷ [] }

abbrev pub bus : RabbitMq Cents
bus = record { connected = true; has_channel = true; sent = [] }

-- A tick without a failure; the rows come in the order of insertion.
abbrev pub tick : Tick Cents
tick = record {
  query = none;
  sort = λ rows. rows;
  read = none;
  scan = λ _. none;
  send = λ _. none;
  mark = none;
}

pub tick-IsSort : IsSort tick
tick-IsSort rows = Perm.refl rows

pub tick-IsUp : IsUp tick
tick-IsUp = record { query = refl; read = refl; scan = λ _. refl; send = λ _. refl; mark = refl }

pub one-IsKeyed : {r : OutboxRow Cents} → IsKeyed (r ∷ [])
one-IsKeyed r s (Memᴰ.head e) (Memᴰ.head k) h = cc
one-IsKeyed r s (Memᴰ.head e) (Memᴰ.tail n) h = elim n [ ]
one-IsKeyed r s (Memᴰ.tail m) n h = elim m [ ]

abbrev published_row : OutboxRow Cents
published_row = record waiting { published = true }

is_published : Memᴰ published_row (run (tick ∷ []) (waiting_db, bus)).0.outbox
unfolding run publish_pending_events selected pending publish_rows publish_event mark_as_published
    is_any
is_published = Memᴰ.head refl

published_was_sent_example :
    Memᴰ published_row waiting_db.outbox
    ⊎ Memᴰ (message_of published_row) (run (tick ∷ []) (waiting_db, bus)).1.sent
published_was_sent_example =
    published_was_sent (tick ∷ []) waiting_db bus published_row (tick-IsSort, tt) one-IsKeyed
      is_published refl

one_pending : length (pending waiting_db.outbox) ≤ 100
unfolding pending
one_pending = omega arith

drains_example :
    let (db', bus') = run (tick ∷ []) (waiting_db, bus) in
    (pending db'.outbox ≡ [])
    × ((r : OutboxRow Cents)
        → Memᴰ r waiting_db.outbox
        → r.published ≡ false
        → Memᴰ (message_of r) bus'.sent)
drains_example =
    drains 1 (tick ∷ []) waiting_db bus (tick-IsSort, tt) (inl (tick-IsUp, tt)) refl one-IsKeyed
      one_pending

tick_sends_example :
    let (db', bus', _) = publish_pending_events tick (waiting_db, bus) in
    (done : List (OutboxRow Cents)) × Sublistᴰ done (tick.sort (pending waiting_db.outbox))
    × (length done ≤ 100)
    × (bus'.sent ≡ bus.sent ++ map message_of done)
    × ((db' ≡ waiting_db)
        ⊎ (db' ≡ record waiting_db { outbox = mark_as_published (ids_of done) waiting_db.outbox }))
tick_sends_example = tick_sends tick waiting_db bus

contains_string_iff_example :
    (contains_string (codes "a duplicate key value") (codes "key") ≡ true)
    ↔ Occurs (codes "key") (codes "a duplicate key value")
contains_string_iff_example =
    contains_string_iff (codes "a duplicate key value") (codes "key") (λ e. cc)
