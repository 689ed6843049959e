-- ===== src/Outbox/Ticks.antt =====
-- What a tick of the publisher does to the bus and to the table.
use saga_market_order.Prelude.Membership.{take}
use saga_market_order.Prelude.{
  ◌≡◌, refl, sym, ap, ◌∙◌, ◌⊎◌, inl, inr, String, Option, none, some, List, [], ◌∷◌, ◌++◌, map,
  append-nil, append_assoc, Bool-cases, ℕ, zero, suc, length, arith, ◌≤◌,
}
use mathlib.Core.List.{Sublistᴰ}
use saga_market_order.EventStore.Postgres.{OutboxRow, Database}
use saga_market_order.Messaging.RabbitMq.{Message, RabbitMq, publish_event}
use saga_market_order.Outbox.Publisher.{
  Tick, selected, publish_rows, mark_as_published, publish_pending_events, marked, publish_row,
  queried, read_rows, pending,
}
use saga_market_order.Result.{Failure, text, wrap}

module _ {W : Type 0} where
  abbrev pub message_of : OutboxRow W → Message W
  message_of r = record { event_type = r.event_type; event_data = some r.event_data }

  abbrev pub ids_of : List (OutboxRow W) → List String
  ids_of = map (λ r. r.event_id)

  -- The rows whose messages the loop sends.
  pub record Sends (rows : List (OutboxRow W)) (bus : RabbitMq W) (out : RabbitMq W × List String)
      : Type 0 where
    pub done : List (OutboxRow W)
    pub among : Sublistᴰ done rows
    pub sent : out.0.sent ≡ bus.sent ++ map message_of done
    pub channel : out.0.has_channel ≡ bus.has_channel
    pub ids : out.1 ≡ ids_of done

  abbrev pub taken : OutboxRow W → RabbitMq W → RabbitMq W
  taken r bus = record bus { sent = bus.sent ++ message_of r ∷ [] }

  publish_event-cases :
      (answer : Option String) (r : OutboxRow W) (bus : RabbitMq W)
      → let out = publish_event answer r.event_type (some r.event_data) bus in
        ((e : Failure W) × (out ≡ (bus, some e))) ⊎ (out ≡ (taken r bus, none))
  unfolding publish_event
  publish_event-cases none r bus = elim (Bool-cases bus.has_channel) [
    | inl on ↦ inr (simp on)
    | inr shut ↦ inl (text "RabbitMQ channel not initialized", simp shut)
  ]
  publish_event-cases (some m) r bus = elim (Bool-cases bus.has_channel) [
    | inl on ↦ inl (wrap "failed to publish event" (text m), simp on)
    | inr shut ↦ inl (text "RabbitMQ channel not initialized", simp shut)
  ]

  passed :
      (r : OutboxRow W) (rows : List (OutboxRow W)) (bus : RabbitMq W)
      (out : RabbitMq W × List String)
      → Sends rows bus out
      → Sends (r ∷ rows) bus out
  passed r rows bus out s = record {
    done = s.done;
    among = Sublistᴰ.cons s.among;
    sent = s.sent;
    channel = s.channel;
    ids = s.ids;
  }

  sent_one :
      (r : OutboxRow W) (rows : List (OutboxRow W)) (bus : RabbitMq W)
      (out : RabbitMq W × List String)
      → Sends rows (taken r bus) out
      → Sends (r ∷ rows) bus (out.0, r.event_id ∷ out.1)
  sent_one r rows bus out s = record {
    done = r ∷ s.done;
    among = Sublistᴰ.cons-cons refl s.among;
    sent = s.sent ∙ append_assoc bus.sent (message_of r ∷ []) (map message_of s.done);
    channel = s.channel;
    ids = ap (λ l. r.event_id ∷ l) s.ids;
  }

  publish_row-Sends :
      (scan send : Option String) (r : OutboxRow W) (rows : List (OutboxRow W))
      (rest : RabbitMq W → RabbitMq W × List String) (bus : RabbitMq W)
      → ((b : RabbitMq W) → Sends rows b (rest b))
      → Sends (r ∷ rows) bus (publish_row scan send r rest bus)
  publish_row-Sends (some m) send r rows rest bus h = passed r rows bus (rest bus) (h bus)
  publish_row-Sends none send r rows rest bus h = elim (publish_event-cases send r bus) [
    | inl (x, fails) ↦ rw fails (passed r rows bus (rest bus) (h bus))
    | inr done ↦ rw done (sent_one r rows bus (rest (taken r bus)) (h (taken r bus)))
  ]

  pub publish_rows-Sends :
      (t : Tick W) (rows : List (OutboxRow W)) (bus : RabbitMq W)
      → Sends rows bus (publish_rows t rows bus)
  unfolding publish_rows
  publish_rows-Sends t [] bus = record {
    done = [];
    among = Sublistᴰ.slnil;
    sent = sym (append-nil bus.sent);
    channel = refl;
    ids = refl;
  }
  publish_rows-Sends t (r ∷ rows) bus =
      publish_row-Sends (t.scan r.event_id) (t.send r.event_id) r rows (publish_rows t rows) bus
        (publish_rows-Sends t rows)

  -- What a tick does: it sends the messages of some of the rows that it has selected, in their
  -- order, and then either has their ids marked, or leaves the table.
  pub record Ticks (rows : List (OutboxRow W)) (db : Database W) (bus : RabbitMq W)
      (out : Database W × RabbitMq W × Option (Failure W)) : Type 0 where
    pub done : List (OutboxRow W)
    pub among : Sublistᴰ done rows
    pub sent : out.1.sent ≡ bus.sent ++ map message_of done
    pub channel : out.1.has_channel ≡ bus.has_channel
    pub effect :
        (out.0 ≡ db) ⊎ (out.0 ≡ record db { outbox = mark_as_published (ids_of done) db.outbox })

  marked-Ticks :
      (answer : Option String) (rows : List (OutboxRow W)) (db : Database W) (bus : RabbitMq W)
      (out : RabbitMq W × List String)
      → Sends rows bus out
      → Ticks rows db bus (marked answer db out)
  marked-Ticks answer rows db bus (bus', []) s = record {
    done = s.done;
    among = s.among;
    sent = s.sent;
    channel = s.channel;
    effect = inl refl;
  }
  marked-Ticks (some m) rows db bus (bus', id ∷ ids) s = record {
    done = s.done;
    among = s.among;
    sent = s.sent;
    channel = s.channel;
    effect = inl refl;
  }
  marked-Ticks none rows db bus (bus', id ∷ ids) s = record {
    done = s.done;
    among = s.among;
    sent = s.sent;
    channel = s.channel;
    effect = inr (ap (λ l. record db { outbox = mark_as_published l db.outbox }) s.ids);
  }

  Sublist-nil : (rows : List (OutboxRow W)) → Sublistᴰ [] rows
  Sublist-nil [] = Sublistᴰ.slnil
  Sublist-nil (r ∷ rows) = Sublistᴰ.cons (Sublist-nil rows)

  queried-Ticks :
      (answer : Option String) (rows : List (OutboxRow W)) (db : Database W) (bus : RabbitMq W)
      (out : Database W × RabbitMq W × Option (Failure W))
      → Ticks rows db bus out
      → Ticks rows db bus (queried answer (db, bus) out)
  queried-Ticks none rows db bus out h = h
  queried-Ticks (some m) rows db bus out h = record {
    done = [];
    among = Sublist-nil rows;
    sent = sym (append-nil bus.sent);
    channel = refl;
    effect = inl refl;
  }

  pub publish_pending_events-Ticks :
      (t : Tick W) (db : Database W) (bus : RabbitMq W)
      → Ticks (selected t db) db bus (publish_pending_events t (db, bus))
  unfolding publish_pending_events
  publish_pending_events-Ticks t db bus =
      queried-Ticks t.query (selected t db) db bus _
        (marked-Ticks t.mark (selected t db) db bus _ (publish_rows-Sends t (selected t db) bus))

  take-Sublist :
      (n : ℕ) {xs : List (OutboxRow W)} (rows : List (OutboxRow W))
      → Sublistᴰ xs (take n rows)
      → Sublistᴰ xs rows × (length xs ≤ n)
  take-Sublist zero rows Sublistᴰ.slnil = (Sublist-nil rows, omega arith)
  take-Sublist (suc n) [] Sublistᴰ.slnil = (Sublistᴰ.slnil, omega arith)
  take-Sublist (suc n) (r ∷ rows) (Sublistᴰ.cons s) =
      let (t, l) = take-Sublist n rows s in (Sublistᴰ.cons t, omega (arith, l))
  take-Sublist (suc n) (r ∷ rows) (Sublistᴰ.cons-cons e s) =
      let (t, l) = take-Sublist n rows s in (Sublistᴰ.cons-cons e t, omega (arith, l))

  selected-Sublist :
      (t : Tick W) (db : Database W) {xs : List (OutboxRow W)}
      → Sublistᴰ xs (selected t db)
      → Sublistᴰ xs (t.sort (pending db.outbox)) × (length xs ≤ 100)
  unfolding selected
  selected-Sublist t db s = by_read t.read s
    where
      by_read :
          (read : Option ℕ) {xs : List (OutboxRow W)}
          → Sublistᴰ xs (read_rows read (take 100 (t.sort (pending db.outbox))))
          → Sublistᴰ xs (t.sort (pending db.outbox)) × (length xs ≤ 100)
      by_read none s = take-Sublist 100 _ s
      by_read (some n) s = take-Sublist 100 _ (take-Sublist n _ s).0

  -- Whatever fails in a tick, it sends at most a hundred messages: those of some of the unpublished
  -- rows, in the order of the SELECT, behind what was sent before. It leaves the other tables alone
  -- and marks at most the ids of the rows that it has sent.
  pub tick_sends :
      (t : Tick W) (db : Database W) (bus : RabbitMq W)
      → let (db', bus', _) = publish_pending_events t (db, bus) in
        (done : List (OutboxRow W)) × Sublistᴰ done (t.sort (pending db.outbox))
        × (length done ≤ 100)
        × (bus'.sent ≡ bus.sent ++ map message_of done)
        × ((db' ≡ db) ⊎ (db' ≡ record db { outbox = mark_as_published (ids_of done) db.outbox }))
  tick_sends t db bus =
      let ticks = publish_pending_events-Ticks t db bus in
      let (among, few) = selected-Sublist t db ticks.among in
      (ticks.done, among, few, ticks.sent, ticks.effect)
