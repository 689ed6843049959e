-- ===== src/EventStore/Atomicity.antt =====
-- `Save` is atomic, keeps the unique columns unique, and refuses a version that is taken.
use saga_market_order.Prelude.{
  ◌≡◌, ◌≢◌, refl, ap, ap₂, ◌∙◌, sym, ◌⊎◌, inl, inr, true, false, Option, none, some, List, [], ◌∷◌,
  ◌++◌, ◌&&◌, ◌||◌, ◌==◌, arith, String, map, All, All-append, append_assoc, append-nil, nat_eq,
}
use saga_market_order.Float.{Float}
use saga_market_order.Json.{Object}
use saga_market_order.EventStore.ErrorText.{violation_found}
use saga_market_order.EventStore.Serializer.{BaseFields, Any, serialize_event}
use saga_market_order.EventStore.Postgres.{
  Row, Database, Link, clashes, row_of, outbox_row_of, insert_event, begin_outcome, commit_outcome,
  save_events, save,
}
use saga_market_order.Result.{
  Failure, Result, text, ok, err, within, within_ok, >>=-eq-ok, Result-cases,
}

module _ {W : Type 0} ⦃f : Float W⦄ where
  -- The events of `es`, serialized, are what `db'` has beyond `db`: each in both tables.
  pub record Adds (es : List (Any W)) (db db' : Database W) : Type 0 where
    pub stored : List (Object W × BaseFields)
    pub serialized : map serialize_event es ≡ map ok stored
    pub events : db'.events ≡ db.events ++ map row_of stored
    pub outbox : db'.outbox ≡ db.outbox ++ map outbox_row_of stored
    pub processed : db'.processed ≡ db.processed

  pub Adds-nil : (db : Database W) → Adds [] db db
  Adds-nil db = record {
    stored = [];
    serialized = refl;
    events = sym (append-nil _);
    outbox = sym (append-nil _);
    processed = refl;
  }

  insert_event-events :
      (link : Link) (s : Object W × BaseFields) (db db' : Database W)
      → insert_event link s db ≡ ok db'
      → (db'.events ≡ db.events ++ row_of s ∷ [])
        × (db'.outbox ≡ db.outbox ++ outbox_row_of s ∷ [])
        × (db'.processed ≡ db.processed)
        × (clashes s.1 db.events ≡ false)
  unfolding insert_event
  insert_event-events link s db db' h = ground arith

  -- No two rows of a table share an event id, or an aggregate and a version.
  abbrev pub IsUnique : List (Row W) → Type 0
  IsUnique [] = Unit
  IsUnique (r ∷ rows) =
      All
        (λ x.
          (r.event_id == x.event_id
            || (r.aggregate_id == x.aggregate_id && nat_eq r.version x.version))
          ≡ false)
        rows
      × IsUnique rows

  IsUnique-snoc :
      (s : Object W × BaseFields) (rows : List (Row W))
      → clashes s.1 rows ≡ false
      → IsUnique rows
      → IsUnique (rows ++ row_of s ∷ [])
  unfolding clashes
  IsUnique-snoc s [] h u = (tt, tt)
  IsUnique-snoc s (r ∷ rows) h u = (
    All-append _ rows (row_of s ∷ []) u.0 (ground arith, tt),
    IsUnique-snoc s rows (ground arith) u.1,
  )

  save_first :
      (link : Link) (e : Any W) (es : List (Any W)) (s : Object W × BaseFields)
      (db mid db' : Database W)
      → serialize_event e ≡ ok s
      → insert_event link s db ≡ ok mid
      → Adds es mid db' × (IsUnique mid.events → IsUnique db'.events)
      → Adds (e ∷ es) db db' × (IsUnique db.events → IsUnique db'.events)
  save_first link e es s db mid db' hs hm (adds, unique) =
      let (ev, out, proc, fresh) = insert_event-events link s db mid hm in
      (
        record {
          stored = s ∷ adds.stored;
          serialized = ap₂ (λ x xs. x ∷ xs) hs adds.serialized;
          events =
              adds.events
              ∙ ap (λ l. l ++ map row_of adds.stored) ev
              ∙ append_assoc db.events (row_of s ∷ []) (map row_of adds.stored);
          outbox =
              adds.outbox
              ∙ ap (λ l. l ++ map outbox_row_of adds.stored) out
              ∙ append_assoc db.outbox (outbox_row_of s ∷ []) (map outbox_row_of adds.stored);
          processed = adds.processed ∙ proc;
        },
        λ u. unique (rw ev (IsUnique-snoc s db.events fresh u)),
      )

  -- What the loop over the events makes of the tables.
  save_events-Adds :
      (link : Link) (es : List (Any W)) (db db' : Database W)
      → save_events link es db ≡ ok db'
      → Adds es db db' × (IsUnique db.events → IsUnique db'.events)
  unfolding save_events
  save_events-Adds link [] db db' h =
      let e : db ≡ db' = cc in (rw (← e) (Adds-nil db), λ u. rw (← e) u)
  save_events-Adds link (e ∷ es) db db' h =
      let (s, hs, rest) = >>=-eq-ok (within "failed to serialize event" (serialize_event e)) _ h in
      let (mid, hm, last) = >>=-eq-ok (insert_event link s db) _ rest in
      save_first link e es s db mid db' (within_ok _ (serialize_event e) hs) hm
        (save_events-Adds link es mid db' last)

  outcome_rule :
      (P : Database W × Option (Failure W) → Type 0) (b c : Option String) (db : Database W)
      (r : Result W (Database W))
      → ((x : Failure W) → P (db, some x))
      → ((db' : Database W) → r ≡ ok db' → P (db', none))
      → P (begin_outcome b db (commit_outcome c db r))
  outcome_rule P (some m) c db r fails done = fails _
  outcome_rule P none c db (err e) fails done = fails e
  outcome_rule P none none db (ok db') fails done = done db' refl
  outcome_rule P none (some m) db (ok db') fails done = fails _

  -- `Save` either succeeds, and then every event is in `events` and, unpublished, in `outbox`; or
  -- it returns an error and has changed nothing. Processed events are never touched.
  pub save_atomic :
      (link : Link) (es : List (Any W)) (db : Database W)
      → let (db', e) = save link es db in
        ((e ≡ none) × Adds es db db') ⊎ (((x : Failure W) × (e ≡ some x)) × (db' ≡ db))
  unfolding save
  save_atomic link [] db = inl (refl, Adds-nil db)
  save_atomic link (e ∷ es) db =
      outcome_rule
        (λ out.
          ((out.1 ≡ none) × Adds (e ∷ es) db out.0)
          ⊎ (((x : Failure W) × (out.1 ≡ some x)) × (out.0 ≡ db)))
        link.begin link.commit db (save_events link (e ∷ es) db) (λ x. inr ((x, refl), refl))
        (λ db' h. inl (refl, (save_events-Adds link (e ∷ es) db db' h).0))

  -- `Save` keeps event ids unique, and the versions of each aggregate.
  pub save-IsUnique :
      (link : Link) (es : List (Any W)) (db : Database W)
      → IsUnique db.events
      → IsUnique (save link es db).0.events
  unfolding save
  save-IsUnique link [] db u = u
  save-IsUnique link (e ∷ es) db u =
      outcome_rule (λ out. IsUnique out.0.events) link.begin link.commit db
        (save_events link (e ∷ es) db) (λ _. u)
        (λ db' h. (save_events-Adds link (e ∷ es) db db' h).1 u)

  insert_clash :
      (link : Link) (s : Object W × BaseFields) (db : Database W)
      → clashes s.1 db.events ≡ true
      → (x : Failure W) × (insert_event link s db ≡ err x)
  insert_clash link s db c = elim (Result-cases (insert_event link s db)) [
    | inl (db', done) ↦ cc (c, (insert_event-events link s db db' done).3)
    | inr fails ↦ fails
  ]

  -- An event whose id, or whose version of its aggregate, is taken is never saved.
  pub save_clash :
      (link : Link) (e : Any W) (es : List (Any W)) (s : Object W × BaseFields) (db : Database W)
      → serialize_event e ≡ ok s
      → clashes s.1 db.events ≡ true
      → (save link (e ∷ es) db).1 ≢ none
  unfolding save save_events
  save_clash link e es s db hs c saved =
      let (x, fails) = insert_clash link s db c in
      refused link.begin link.commit (save_events link (e ∷ es) db) x
        (rw (hs, save_events, fails) refl) saved
    where
      refused :
          (b m : Option String) (r : Result W (Database W)) (x : Failure W)
          → r ≡ err x
          → (begin_outcome b db (commit_outcome m db r)).1 ≢ none
      refused (some _) m r x h = ground arith
      refused none m (err _) x h = ground arith
      refused none m (ok _) x h = cc

  insert_conflict :
      (link : Link) (s : Object W × BaseFields) (db : Database W)
      → link.insert s.1.event_id ≡ none
      → clashes s.1 db.events ≡ true
      → insert_event link s db ≡ err (text "optimistic locking conflict: version already exists")
  unfolding insert_event
  insert_conflict link s db i c = ground (arith, violation_found)

  -- Optimistic locking: if the transaction begins and the INSERT meets no other failure, an event
  -- that can be serialized, and whose id, or whose version of its aggregate, the store has already,
  -- is refused with the conflict error, whatever follows it, and nothing changes.
  pub save_conflict :
      (link : Link) (e : Any W) (es : List (Any W)) (s : Object W × BaseFields) (db : Database W)
      → serialize_event e ≡ ok s
      → link.begin ≡ none
      → link.insert s.1.event_id ≡ none
      → clashes s.1 db.events ≡ true
      → save link (e ∷ es) db
        ≡ (db, some (text "optimistic locking conflict: version already exists"))
  unfolding save save_events
  save_conflict link e es s db hs b i c =
      rw (b, hs, insert_conflict link s db i c, save, save_events) refl
