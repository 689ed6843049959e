-- ===== src/Outbox/Drain.antt =====
-- Every row stays in the outbox, and the outbox is emptied.
use saga_market_order.Prelude.{
  ℕ, ◌*◌, ◌≤◌, ◌≡◌, refl, sym, ap, ◌∙◌, subst, inl, inr, String, Bool, true, false, List, [], ◌∷◌,
  arith, length, All, if◌then◌else◌,
}
use mathlib.Core.List.{Memᴰ}
use saga_market_order.EventStore.Postgres.{OutboxRow, Database}
use saga_market_order.Messaging.RabbitMq.{Message, RabbitMq}
use saga_market_order.Outbox.Publisher.{
  Tick, pending, is_any, mark_as_published, publish_pending_events, run,
}
use saga_market_order.Outbox.Ticks.{message_of, ids_of, publish_pending_events-Ticks}
use saga_market_order.Outbox.Sent.{IsSort, IsKeyed, published_was_sent}
use saga_market_order.Outbox.Backlog.{HasUp, run-length}

module _ {W : Type 0} where
  same_row :
      (b : Bool) (x s : OutboxRow W)
      → s ≡ x
      → let r = if b then record x { published = true } else x in
        (r.event_id ≡ s.event_id) × (message_of r ≡ message_of s)
  same_row true x s e = (ap (λ (r : OutboxRow W). r.event_id) (sym e), ap message_of (sym e))
  same_row false x s e = (ap (λ (r : OutboxRow W). r.event_id) (sym e), ap message_of (sym e))

  -- Every row stays, under its id and with its content.
  stays :
      (rows : List (OutboxRow W)) (ids : List String) (s : OutboxRow W)
      → Memᴰ s rows
      → (r : OutboxRow W) × Memᴰ r (mark_as_published ids rows)
        × (r.event_id ≡ s.event_id)
        × (message_of r ≡ message_of s)
  unfolding mark_as_published
  stays [] ids s m = elim m [ ]
  stays (x ∷ rows) ids s (Memᴰ.tail m) =
      let (r, n, e, f) = stays rows ids s m in (r, Memᴰ.tail n, e, f)
  stays (x ∷ rows) ids s (Memᴰ.head e) =
      let (f, g) = same_row (is_any x.event_id ids) x s e in (_, Memᴰ.head refl, f, g)

  run-stays :
      (ts : List (Tick W)) (db : Database W) (bus : RabbitMq W) (s : OutboxRow W)
      → Memᴰ s db.outbox
      → (r : OutboxRow W) × Memᴰ r (run ts (db, bus)).0.outbox
        × (r.event_id ≡ s.event_id)
        × (message_of r ≡ message_of s)
  unfolding run
  run-stays [] db bus s m = (s, m, refl, refl)
  run-stays (t ∷ ts) db bus s m =
      let (db', bus', _) = publish_pending_events t (db, bus) in
      let ticks = publish_pending_events-Ticks t db bus in
      elim ticks.effect [
        | inl same ↦ run-stays ts db' bus' s (rw same m)
        | inr changed ↦
            let (r, n, e, f) = stays db.outbox (ids_of ticks.done) s m in
            let (r', n', e', f') = run-stays ts db' bus' r (rw changed n) in
            (r', n', e' ∙ e, f' ∙ f)
      ]

  none_pending :
      (rows : List (OutboxRow W)) (r : OutboxRow W)
      → length (pending rows) ≤ 0
      → Memᴰ r rows
      → r.published ≡ true
  unfolding pending
  none_pending [] r h m = elim m [ ]
  none_pending (x ∷ rows) r h (Memᴰ.head e) = ground (arith, e)
  none_pending (x ∷ rows) r h (Memᴰ.tail m) = none_pending rows r (ground arith) m

  -- Over ticks of which `k` succeed in all their calls, whatever fails in the others, an outbox with at most 100 * k unpublished rows is emptied, and the message of each of
  -- these rows has been sent. The channel is open, no two rows share an event id, each SELECT sorts
  -- the rows that there are, and no event is added meanwhile.
  pub drains :
      (k : ℕ) (ts : List (Tick W)) (db : Database W) (bus : RabbitMq W)
      → All IsSort ts
      → HasUp k ts
      → bus.has_channel ≡ true
      → IsKeyed db.outbox
      → length (pending db.outbox) ≤ 100 * k
      → let (db', bus') = run ts (db, bus) in
        (pending db'.outbox ≡ [])
        × ((r : OutboxRow W)
            → Memᴰ r db.outbox
            → r.published ≡ false
            → Memᴰ (message_of r) bus'.sent)
  drains k ts db bus sorts ups on keyed few =
      let empty : length (pending (run ts (db, bus)).0.outbox) ≤ 0 =
        omega (arith, run-length k ts db bus sorts ups on) in
      (
        no_rows _ empty,
        λ r m new.
            let (s, n, id, message) = run-stays ts db bus r m in
            let p = none_pending _ s empty n in
            elim (published_was_sent ts db bus s sorts keyed n p) [
              | inl old ↦ absurd (clash r s (keyed s r old m id) p new)
              | inr sent ↦ subst (λ (x : Message W). Memᴰ x (run ts (db, bus)).1.sent) message sent
            ],
      )
    where
      no_rows : (rows : List (OutboxRow W)) → length rows ≤ 0 → rows ≡ []
      no_rows [] h = refl
      no_rows (r ∷ rows) h = absurd (omega arith)

      clash : (r s : OutboxRow W) → s ≡ r → s.published ≡ true → r.published ≡ false → ⊥
      clash r s e p q = cc
