-- ===== src/Outbox/Backlog.antt =====
-- How many rows of the outbox wait behind some ticks.
use saga_market_order.Prelude.{
  ℕ, zero, suc, ◌-◌, ◌*◌, ◌≤◌, ◌≡◌, refl, sym, ap, ◌∙◌, subst, ◌⊎◌, inl, inr, String, true, Option,
  none, some, List, [], ◌∷◌, arith, length, All, if◌then◌else◌,
}
use saga_market_order.Prelude.Membership.{take}
use package.text.Mathlib.TextPositions.{eq_refl}
use mathlib.Core.List.{Memᴰ, Permᴰ}
use saga_market_order.EventStore.Postgres.{OutboxRow, Database}
use saga_market_order.Messaging.RabbitMq.{RabbitMq, publish_event}
use saga_market_order.Outbox.Publisher.{
  Tick, pending, selected, publish_rows, is_any, mark_as_published, publish_pending_events, run,
  marked, read_rows,
}
use saga_market_order.Outbox.Ticks.{ids_of, publish_pending_events-Ticks, taken}
use saga_market_order.Outbox.Sent.{IsSort}

module _ {W : Type 0} where
  -- The rows whose ids are not marked.
  left : List String → List (OutboxRow W) → List (OutboxRow W)
  left ids [] = []
  left ids (r ∷ rows) = let rest = left ids rows in if is_any r.event_id ids then rest else r ∷ rest

  pending-mark :
      (ids : List String) (rows : List (OutboxRow W))
      → pending (mark_as_published ids rows) ≡ left ids (pending rows)
  unfolding pending mark_as_published left
  pending-mark ids [] = refl
  pending-mark ids (r ∷ rows) = ground (arith, pending-mark ids rows)

  left-perm :
      (ids : List String) {xs ys : List (OutboxRow W)}
      → Permᴰ xs ys
      → length (left ids xs) ≡ length (left ids ys)
  unfolding left
  left-perm ids Permᴰ.nil = refl
  left-perm ids (Permᴰ.cons e p) = ground (arith, left-perm ids p, e)
  left-perm ids (Permᴰ.swap e f) = ground (arith, e, f)
  left-perm ids (Permᴰ.trans p q) = left-perm ids p ∙ left-perm ids q

  length-perm : {xs ys : List (OutboxRow W)} → Permᴰ xs ys → length xs ≡ length ys
  length-perm Permᴰ.nil = refl
  length-perm (Permᴰ.cons e p) = ap suc (length-perm p)
  length-perm (Permᴰ.swap e f) = refl
  length-perm (Permᴰ.trans p q) = length-perm p ∙ length-perm q

  left-length :
      (ids : List String) (rows : List (OutboxRow W)) → length (left ids rows) ≤ length rows
  unfolding left
  left-length ids [] = omega arith
  left-length ids (r ∷ rows) = ground (arith, left-length ids rows)

  left-take :
      (ids : List String) (n : ℕ) (rows : List (OutboxRow W))
      → All (λ r. is_any r.event_id ids ≡ true) (take n rows)
      → length (left ids rows) ≤ length rows - n
  unfolding left
  left-take ids zero rows h = omega (arith, left-length ids rows)
  left-take ids (suc n) [] h = omega arith
  left-take ids (suc n) (r ∷ rows) h = ground (arith, left-take ids n rows h.1)

  found :
      (r : OutboxRow W) (xs : List (OutboxRow W)) → Memᴰ r xs → is_any r.event_id (ids_of xs) ≡ true
  unfolding is_any
  found r xs (Memᴰ.head e) = rw (ap (λ (x : OutboxRow W). x.event_id) e) (simp (eq_refl _))
  found r (x ∷ xs) (Memᴰ.tail m) = ground (arith, found r xs m)

  is_any-ids :
      (xs ys : List (OutboxRow W))
      → ((r : OutboxRow W) → Memᴰ r xs → Memᴰ r ys)
      → All (λ r. is_any r.event_id (ids_of ys) ≡ true) xs
  is_any-ids [] ys h = tt
  is_any-ids (x ∷ xs) ys h =
      (found x ys (h x (Memᴰ.head refl)), is_any-ids xs ys λ r m. h r (Memᴰ.tail m))

  -- Marking the first hundred of the pending rows, in any order, leaves a hundred fewer.
  mark_hundred :
      (rows sorted : List (OutboxRow W))
      → Permᴰ sorted (pending rows)
      → length (pending (mark_as_published (ids_of (take 100 sorted)) rows))
        ≤ length (pending rows) - 100
  mark_hundred rows sorted p =
      let ids = ids_of (take 100 sorted) in
      rw (pending-mark ids rows) (
        omega (
          arith,
          left-perm ids p,
          length-perm p,
          left-take ids 100 sorted (is_any-ids (take 100 sorted) (take 100 sorted) λ r m. m),
        ))

  -- All calls of the tick succeed.
  pub record IsUp (t : Tick W) : Type 0 where
    pub query : t.query ≡ none
    pub read : t.read ≡ none
    pub scan : (id : String) → t.scan id ≡ none
    pub send : (id : String) → t.send id ≡ none
    pub mark : t.mark ≡ none

  publish_event-up :
      (r : OutboxRow W) (bus : RabbitMq W)
      → bus.has_channel ≡ true
      → publish_event none r.event_type (some r.event_data) bus ≡ (taken r bus, none)
  unfolding publish_event
  publish_event-up r bus on = simp on

  publish_rows-up :
      (t : Tick W) (rows : List (OutboxRow W)) (bus : RabbitMq W)
      → IsUp t
      → bus.has_channel ≡ true
      → (publish_rows t rows bus).1 ≡ ids_of rows
  unfolding publish_rows
  publish_rows-up t [] bus up on = refl
  publish_rows-up t (r ∷ rows) bus up on =
      rw (up.scan r.event_id, up.send r.event_id, publish_event-up r bus on)
        (ap (λ l. r.event_id ∷ l) (publish_rows-up t rows (taken r bus) up on))

  mark_none : (rows : List (OutboxRow W)) → mark_as_published [] rows ≡ rows
  unfolding mark_as_published is_any
  mark_none [] = refl
  mark_none (r ∷ rows) = ap (λ l. r ∷ l) (mark_none rows)

  marked-outbox :
      (db : Database W) (out : RabbitMq W × List String) (ids : List String)
      → out.1 ≡ ids
      → (marked none db out).0.outbox ≡ mark_as_published ids db.outbox
  marked-outbox db (bus, []) ids h = rw (← h) (sym (mark_none db.outbox))
  marked-outbox db (bus, id ∷ ids') ids h = rw (← h) refl

  all_read :
      (read : Option ℕ) (rows : List (OutboxRow W)) → read ≡ none → read_rows read rows ≡ rows
  all_read read rows h = rw h

  tick-up :
      (t : Tick W) (db : Database W) (bus : RabbitMq W)
      → IsUp t
      → bus.has_channel ≡ true
      → (publish_pending_events t (db, bus)).0.outbox
        ≡ mark_as_published (ids_of (take 100 (t.sort (pending db.outbox)))) db.outbox
  unfolding publish_pending_events selected
  tick-up t db bus up on =
      simp (up.query, up.mark)
        (marked-outbox db (publish_rows t (selected t db) bus) _
          (publish_rows-up t (selected t db) bus up on ∙ ap ids_of (all_read t.read _ up.read)))

  -- A tick never adds to the pending rows.
  tick-less :
      (t : Tick W) (db : Database W) (bus : RabbitMq W)
      → length (pending (publish_pending_events t (db, bus)).0.outbox) ≤ length (pending db.outbox)
  tick-less t db bus =
      let ticks = publish_pending_events-Ticks t db bus in
      elim ticks.effect [
        | inl same ↦ rw same (omega arith)
        | inr changed ↦
            rw (changed, pending-mark (ids_of ticks.done) db.outbox)
              (left-length (ids_of ticks.done) (pending db.outbox))
      ]

  -- At least so many of the ticks are up.
  abbrev pub HasUp : ℕ → List (Tick W) → Type 0
  HasUp zero ts = Unit
  HasUp (suc k) [] = ⊥
  HasUp (suc k) (t ∷ ts) = (IsUp t × HasUp k ts) ⊎ HasUp (suc k) ts

  pub run-length :
      (k : ℕ) (ts : List (Tick W)) (db : Database W) (bus : RabbitMq W)
      → All IsSort ts
      → HasUp k ts
      → bus.has_channel ≡ true
      → length (pending (run ts (db, bus)).0.outbox) ≤ length (pending db.outbox) - 100 * k
  unfolding run
  run-length zero [] db bus sorts h on = omega arith
  run-length (suc k) [] db bus sorts h on = absurd h
  run-length zero (t ∷ ts) db bus (s, sorts) h on =
      let (db', bus', _) = publish_pending_events t (db, bus) in
      let on' : bus'.has_channel ≡ true = (publish_pending_events-Ticks t db bus).channel ∙ on in
      omega (arith, tick-less t db bus, run-length zero ts db' bus' sorts tt on')
  run-length (suc k) (t ∷ ts) db bus (s, sorts) (inl (up, h)) on =
      let (db', bus', _) = publish_pending_events t (db, bus) in
      let on' : bus'.has_channel ≡ true = (publish_pending_events-Ticks t db bus).channel ∙ on in
      let hundred =
        subst
          (λ (rows : List (OutboxRow W)). length (pending rows) ≤ length (pending db.outbox) - 100)
          (sym (tick-up t db bus up on))
          (mark_hundred db.outbox (t.sort (pending db.outbox)) (s (pending db.outbox))) in
      omega (arith, hundred, run-length k ts db' bus' sorts h on')
  run-length (suc k) (t ∷ ts) db bus (s, sorts) (inr h) on =
      let (db', bus', _) = publish_pending_events t (db, bus) in
      let on' : bus'.has_channel ≡ true = (publish_pending_events-Ticks t db bus).channel ∙ on in
      omega (arith, tick-less t db bus, run-length (suc k) ts db' bus' sorts h on')
