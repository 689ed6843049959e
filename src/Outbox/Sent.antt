-- ===== src/Outbox/Sent.antt =====
-- A row of the outbox is marked as published only behind the sending of its message.
use saga_market_order.Prelude.{
  ℕ, ◌≡◌, refl, sym, ap, ◌∙◌, ◌⊎◌, inl, inr, String, true, false, Option, none, some, List, [], ◌∷◌,
  ◌++◌, ◌==◌, arith, map, All, Bool-cases, eq_iff, if◌then◌else◌, Bool, subst,
}
use mathlib.Core.List.{Memᴰ, Permᴰ}
use saga_market_order.EventStore.Postgres.{OutboxRow, Database}
use saga_market_order.Messaging.RabbitMq.{Message, RabbitMq}
use saga_market_order.Outbox.Publisher.{
  Tick, pending, selected, is_any, mark_as_published, publish_pending_events, run, read_rows,
}
use saga_market_order.Result.{Failure}
use saga_market_order.Outbox.Ticks.{message_of, ids_of, Ticks, publish_pending_events-Ticks}
use saga_market_order.Prelude.Membership.{
  mem_append_left, mem_append_right, mem_map, Sublist-Memᴰ, take-Memᴰ, perm-Memᴰ,
}

module _ {W : Type 0} where
  mark_row_lem :
      (b : Bool) (r s : OutboxRow W)
      → s ≡ (if b then record r { published = true } else r)
      → (r.event_id ≡ s.event_id)
        × (message_of r ≡ message_of s)
        × (s.published ≡ true → (r ≡ s) ⊎ (b ≡ true))
  mark_row_lem true r s h =
      (ap (λ (x : OutboxRow W). x.event_id) (sym h), ap message_of (sym h), λ p. inr refl)
  mark_row_lem false r s h =
      (ap (λ (x : OutboxRow W). x.event_id) (sym h), ap message_of (sym h), λ p. inl (sym h))

  -- A row of the marked table comes from one with the same content; if it is published, either that
  -- was already, or its id is among those marked.
  mark_as_published-Memᴰ :
      (ids : List String) (rows : List (OutboxRow W)) (s : OutboxRow W)
      → Memᴰ s (mark_as_published ids rows)
      → (r : OutboxRow W) × Memᴰ r rows
        × (r.event_id ≡ s.event_id)
        × (message_of r ≡ message_of s)
        × (s.published ≡ true → (r ≡ s) ⊎ (is_any r.event_id ids ≡ true))
  unfolding mark_as_published
  mark_as_published-Memᴰ ids [] s m = elim m [ ]
  mark_as_published-Memᴰ ids (r ∷ rows) s (Memᴰ.head e) =
      let (same, message, cause) = mark_row_lem (is_any r.event_id ids) r s e in
      (r, Memᴰ.head refl, same, message, cause)
  mark_as_published-Memᴰ ids (r ∷ rows) s (Memᴰ.tail m) =
      let (r', m', rest0, rest1, rest2) = mark_as_published-Memᴰ ids rows s m in
      (r', Memᴰ.tail m', rest0, rest1, rest2)

  is_any-Memᴰ :
      (id : String) (rows : List (OutboxRow W))
      → is_any id (ids_of rows) ≡ true
      → (r : OutboxRow W) × Memᴰ r rows × (id ≡ r.event_id)
  unfolding is_any
  is_any-Memᴰ id [] h = cc
  is_any-Memᴰ id (r ∷ rows) h = elim (Bool-cases (id == r.event_id)) [
    | inl same ↦ (r, Memᴰ.head refl, (eq_iff id r.event_id).0 same)
    | inr other ↦ let (r', m, e) = is_any-Memᴰ id rows (ground arith) in (r', Memᴰ.tail m, e)
  ]

  pending-Memᴰ : (rows : List (OutboxRow W)) (x : OutboxRow W) → Memᴰ x (pending rows) → Memᴰ x rows
  unfolding pending
  pending-Memᴰ [] x m = elim m [ ]
  pending-Memᴰ (r ∷ rows) x m = go r.published (pending-Memᴰ rows x) m
    where
      go :
          (b : Bool)
          → (Memᴰ x (pending rows) → Memᴰ x rows)
          → Memᴰ x (if b then pending rows else r ∷ pending rows)
          → Memᴰ x (r ∷ rows)
      go true h m = Memᴰ.tail (h m)
      go false h (Memᴰ.head e) = Memᴰ.head e
      go false h (Memᴰ.tail m) = Memᴰ.tail (h m)

  -- The database sorts the rows that it has.
  abbrev pub IsSort : Tick W → Type 0
  IsSort t = (rows : List (OutboxRow W)) → Permᴰ (t.sort rows) rows

  read_rows-Memᴰ :
      (n : Option ℕ) (rows : List (OutboxRow W)) {r : OutboxRow W}
      → Memᴰ r (read_rows n rows)
      → Memᴰ r rows
  read_rows-Memᴰ none rows m = m
  read_rows-Memᴰ (some n) rows m = take-Memᴰ n rows m

  selected-Memᴰ :
      (t : Tick W) (db : Database W) {r : OutboxRow W}
      → IsSort t
      → Memᴰ r (selected t db)
      → Memᴰ r db.outbox
  unfolding selected
  selected-Memᴰ t db s m =
      pending-Memᴰ db.outbox _
        (perm-Memᴰ (s (pending db.outbox)) (take-Memᴰ 100 _ (read_rows-Memᴰ t.read _ m)))

  -- Rows with one event id are one row, as the unique column makes sure.
  abbrev pub IsKeyed : List (OutboxRow W) → Type 0
  IsKeyed rows = (r s : OutboxRow W) → Memᴰ r rows → Memᴰ s rows → r.event_id ≡ s.event_id → r ≡ s

  -- Or have one content.
  abbrev pub AgreeOnIds : List (OutboxRow W) → Type 0
  AgreeOnIds rows =
      (r s : OutboxRow W)
      → Memᴰ r rows
      → Memᴰ s rows
      → r.event_id ≡ s.event_id
      → message_of r ≡ message_of s

  pub record IsCovered (old rows : List (OutboxRow W)) (sent : List (Message W)) : Type 0 where
    keyed : AgreeOnIds rows
    covered :
        (s : OutboxRow W) → Memᴰ s rows → s.published ≡ true → Memᴰ s old ⊎ Memᴰ (message_of s) sent

  marked_cover :
      (old done rows : List (OutboxRow W)) (sent : List (Message W)) (s : OutboxRow W)
      → AgreeOnIds rows
      → ((r : OutboxRow W)
          → Memᴰ r rows
          → r.published ≡ true
          → Memᴰ r old ⊎ Memᴰ (message_of r) sent)
      → ((r : OutboxRow W) → Memᴰ r done → Memᴰ r rows)
      → Memᴰ s (mark_as_published (ids_of done) rows)
      → s.published ≡ true
      → Memᴰ s old ⊎ Memᴰ (message_of s) (sent ++ map message_of done)
  marked_cover old done rows sent s keyed covered among m p =
      let (r, there, same, message, cause) = mark_as_published-Memᴰ (ids_of done) rows s m in
      elim (cause p) [
        | inl e ↦ elim (covered s (subst (λ x. Memᴰ x rows) e there) p) [
          | inl before ↦ inl before
          | inr sent_before ↦ inr (mem_append_left _ sent_before)
        ]
        | inr by_id ↦
            let (x, x_done, e) = is_any-Memᴰ r.event_id done by_id in
            inr (
              mem_append_right sent (
                subst (λ y. Memᴰ y (map message_of done))
                  (sym (keyed r x there (among x x_done) e) ∙ message) (mem_map message_of x_done)))
      ]

  marked-AgreeOnIds :
      (ids : List String) (rows : List (OutboxRow W))
      → AgreeOnIds rows
      → AgreeOnIds (mark_as_published ids rows)
  marked-AgreeOnIds ids rows keyed r s m n e =
      let (r', rm, r_id, r_message, _) = mark_as_published-Memᴰ ids rows r m in
      let (s', sm, s_id, s_message, _) = mark_as_published-Memᴰ ids rows s n in
      cc (keyed r' s' rm sm (r_id ∙ e ∙ sym s_id))

  Ticks-IsCovered :
      (old rows : List (OutboxRow W)) (db : Database W) (bus : RabbitMq W)
      (out : Database W × RabbitMq W × Option (Failure W))
      → Ticks rows db bus out
      → ((r : OutboxRow W) → Memᴰ r rows → Memᴰ r db.outbox)
      → IsCovered old db.outbox bus.sent
      → IsCovered old out.0.outbox out.1.sent
  Ticks-IsCovered old rows db bus (db', bus', err) t stored c = elim t.effect [
    | inl same ↦
        rw (same, t.sent)
          (record {
            keyed = c.keyed;
            covered = λ s m p. elim (c.covered s m p) [
              | inl before ↦ inl before
              | inr sent ↦ inr (mem_append_left _ sent)
            ];
          })
    | inr changed ↦
        rw (changed, t.sent)
          (record {
            keyed = marked-AgreeOnIds (ids_of t.done) db.outbox c.keyed;
            covered = λ s.
                marked_cover old t.done db.outbox bus.sent s c.keyed c.covered
                  (λ r m. stored r (Sublist-Memᴰ r t.among m));
          })
  ]

  pub run-IsCovered :
      (old : List (OutboxRow W)) (ts : List (Tick W)) (db : Database W) (bus : RabbitMq W)
      → All IsSort ts
      → IsCovered old db.outbox bus.sent
      → let (db', bus') = run ts (db, bus) in IsCovered old db'.outbox bus'.sent
  unfolding run
  run-IsCovered old [] db bus sorts c = c
  run-IsCovered old (t ∷ ts) db bus (s, sorts) c =
      let (db', bus', _) = publish_pending_events t (db, bus) in
      run-IsCovered old ts db' bus' sorts (
        Ticks-IsCovered old (selected t db) db bus (publish_pending_events t (db, bus))
          (publish_pending_events-Ticks t db bus) (λ r. selected-Memᴰ t db s) c)

  -- In whatever way the calls of the database and of the broker fail, over any number of ticks, a
  -- row of the outbox that is marked as published either was so before the first tick, or its
  -- message has been sent. No two rows share an event id, and each SELECT sorts the rows that there
  -- are.
  pub published_was_sent :
      (ts : List (Tick W)) (db : Database W) (bus : RabbitMq W) (s : OutboxRow W)
      → All IsSort ts
      → IsKeyed db.outbox
      → Memᴰ s (run ts (db, bus)).0.outbox
      → s.published ≡ true
      → Memᴰ s db.outbox ⊎ Memᴰ (message_of s) (run ts (db, bus)).1.sent
  published_was_sent ts db bus s sorts keyed m p =
      let c = run-IsCovered db.outbox ts db bus sorts (record {
        keyed = λ r s m n e. ap message_of (keyed r s m n e);
        covered = λ s m p. inl m;
      }) in
      c.covered s m p
