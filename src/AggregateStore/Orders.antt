-- ===== src/AggregateStore/Orders.antt =====
-- The rows of an order's events replay as the events do, and what a store that holds an order
-- holds after a save.
use saga_market_order.Prelude.{
  ℕ, suc, ◌+◌, ◌≤◌, ◌<◌, ◌≡◌, refl, ◌∙◌, none, some, List, [], ◌∷◌, ◌++◌, arith, String, All,
  All-append, All-imp, map, length,
}
use saga_market_order.Float.{Float}
use saga_market_order.EventSourcing.{replay}
use saga_market_order.Json.{Object}
use saga_market_order.EventStore.Serializer.{BaseFields, order_event, order_fields, serialize_event}
use saga_market_order.EventStore.Postgres.{Row, Database, Link, load, scan_rows, select, row_of}
use saga_market_order.EventStore.Atomicity.{Adds}
use saga_market_order.EventStore.Selection.{Rise, IsBelow, select-append}
use saga_market_order.Order.Events.{Event, base_of}
use saga_market_order.Order.Aggregate.{Order, when, new_order}
use saga_market_order.Order.Codec.{marshal, deserialize}
use saga_market_order.Order.Roundtrip.{deserialize-marshal}
use saga_market_order.Order.Readable.{IsReadable}
use saga_market_order.Order.Versions.{numbers}
use saga_market_order.AggregateStore.Store.{
  deserialized, order_applied, found, replay_order, load_order_aggregate,
}
use saga_market_order.Result.{ok, within, >>=-eq-ok}

-- The database answers every query of a load.
pub record IsUp (link : Link) : Type 0 where
  pub query : link.query ≡ none
  pub scan : link.scan ≡ none
  pub rows : link.rows ≡ none

module _ {W : Type 0} ⦃f : Float W⦄ where
  replay_order-append :
      (xs ys : List (Row W)) (o p : Order W)
      → replay_order xs o ≡ ok p
      → replay_order (xs ++ ys) o ≡ replay_order ys p
  unfolding replay_order
  replay_order-append [] ys o p h = let e : o ≡ p = cc in rw e refl
  replay_order-append (x ∷ xs) ys o p h =
      let (e, he, rest) =
        >>=-eq-ok
          (within "failed to deserialize event"
            (deserialized (deserialize x.event_type x.event_data)))
          _ h in
      let (o', ho, last) =
        >>=-eq-ok (within "failed to apply event" (order_applied (when e o))) _ rest in
      rw (he, ho) (replay_order-append xs ys o' p last)

  pub serialized_order :
      (e : Event W) (s : Object W × BaseFields)
      → serialize_event (order_event e) ≡ ok s
      → (marshal e ≡ some s.0) × (s.1 ≡ order_fields (base_of e))
  unfolding serialize_event
  serialized_order e s h = ground arith

  pub replay_cons :
      (e : Event W) (es : List (Event W)) (o p : Order W)
      → replay when (e ∷ es) o ≡ (p, none)
      → (o' : Order W) × (when e o ≡ (o', none)) × (replay when es o' ≡ (p, none))
  unfolding replay
  replay_cons e es o p h = ((when e o).0, ground arith, ground arith)

  -- The rows of readable events replay as the events do.
  replay_rows :
      (es : List (Event W)) (ss : List (Object W × BaseFields)) (o p : Order W)
      → map serialize_event (map order_event es) ≡ map ok ss
      → All IsReadable es
      → replay when es o ≡ (p, none)
      → replay_order (map row_of ss) o ≡ ok p
  unfolding replay replay_order
  replay_rows [] [] o p h r k = let e : o ≡ p = cc in rw e refl
  replay_rows [] (s ∷ ss) o p h r k = cc
  replay_rows (e ∷ es) [] o p h r k = cc
  replay_rows (e ∷ es) (s ∷ ss) o p h r k =
      let (m, b) = serialized_order e s (cc) in
      let read : deserialize s.1.event_type s.0 ≡ some e =
        rw (b, r.0.1) (deserialize-marshal e r.0.0 m) in
      let (o', ho, rest) = replay_cons e es o p k in
      rw (read, ho) (replay_rows es ss o' p (cc) r.1 rest)

  -- The store holds the order `o`: its rows replay to `o`, and none has a version above `o`'s.
  pub record Holds (id : String) (o : Order W) (db : Database W) : Type 0 where
    pub replays : replay_order (select id db.events) new_order ≡ ok o
    pub below : IsBelow id o.version db.events

  Rise-rows :
      (id : String) (v : ℕ) (es : List (Event W)) (ss : List (Object W × BaseFields))
      → map serialize_event (map order_event es) ≡ map ok ss
      → map (λ e. (base_of e).version) es ≡ numbers v es
      → All (λ e. (base_of e).aggregate_id ≡ id) es
      → Rise id v (map row_of ss)
  Rise-rows id v [] [] h n a = tt
  Rise-rows id v [] (s ∷ ss) h n a = cc
  Rise-rows id v (e ∷ es) [] h n a = cc
  Rise-rows id v (e ∷ es) (s ∷ ss) h n a =
      let (_, b) = serialized_order e s (cc) in
      let v' : s.1.version ≡ suc v = rw b (cc) in
      (rw b a.0, omega (arith, v'), rw v' (Rise-rows id (suc v) es ss (cc) (cc) a.1))

  -- The events that an order records are numbered from `v`, its own, readable, and make of `base`
  -- the order.
  pub record IsRecord (base o : Order W) : Type 0 where
    pub replays : replay when o.changes base ≡ (record o { changes = [] }, none)
    pub versions : map (λ e. (base_of e).version) o.changes ≡ numbers base.version o.changes
    pub owners : All (λ e. (base_of e).aggregate_id ≡ o.id) o.changes
    pub readable : All IsReadable o.changes
    pub version : o.version ≡ base.version + length o.changes

  rows-IsBelow :
      (id : String) (v top : ℕ) (es : List (Event W)) (ss : List (Object W × BaseFields))
      → map serialize_event (map order_event es) ≡ map ok ss
      → map (λ e. (base_of e).version) es ≡ numbers v es
      → v + length es ≤ top
      → IsBelow id top (map row_of ss)
  rows-IsBelow id v top [] [] h n t = tt
  rows-IsBelow id v top [] (s ∷ ss) h n t = cc
  rows-IsBelow id v top (e ∷ es) [] h n t = cc
  rows-IsBelow id v top (e ∷ es) (s ∷ ss) h n t =
      let (_, b) = serialized_order e s (cc) in
      let v' : s.1.version ≡ suc v = rw b (cc) in
      (λ _. omega (arith, v'), rows-IsBelow id (suc v) top es ss (cc) (cc) (omega arith))

  pub Adds-Holds :
      (base o : Order W) (db db' : Database W)
      → IsRecord base o
      → Holds o.id base db
      → Adds (map order_event o.changes) db db'
      → Holds o.id (record o { changes = [] }) db'
  Adds-Holds base o db db' c h a =
      let rise = Rise-rows o.id base.version o.changes a.stored a.serialized c.versions c.owners in
      record {
        replays =
            rw
              (
                a.events,
                select-append o.id base.version db.events (map row_of a.stored) h.below rise,
              )
              (replay_order-append (select o.id db.events) (map row_of a.stored) new_order base
                  h.replays
                ∙ replay_rows o.changes a.stored base (record o { changes = [] }) a.serialized
                    c.readable c.replays);
        below = rw a.events (
            All-append _ db.events (map row_of a.stored)
              (All-imp _ _ db.events (λ r k mine. omega (arith, k mine, c.version)) h.below)
              (rows-IsBelow o.id base.version o.version o.changes a.stored a.serialized c.versions
                (omega (arith, c.version))));
      }

  found_rows :
      (message : String) (rows : List (Row W)) (o : Order W)
      → replay_order rows new_order ≡ ok o
      → 0 < o.version
      → found message rows ≡ ok rows
  unfolding replay_order new_order
  found_rows message [] o h n =
      let e : (new_order {W = W}).version ≡ o.version = cc in absurd (omega (arith, e))
  found_rows message (r ∷ rows) o h n = refl

  pub scan_free :
      (link : Link) (rows : List (Row W)) → link.scan ≡ none → scan_rows link rows ≡ ok rows
  scan_free link [] s = refl
  scan_free link (r ∷ rows) s = rw s refl

  pub load-Holds :
      (link : Link) (id : String) (o : Order W) (db : Database W)
      → IsUp link
      → 0 < o.version
      → Holds id o db
      → load_order_aggregate link id db ≡ ok o
  unfolding load_order_aggregate load
  load-Holds link id o db up n h =
      rw (up.query, scan_free link (select id db.events) up.scan, up.rows)
        (rw (found_rows _ (select id db.events) o h.replays n) h.replays)
