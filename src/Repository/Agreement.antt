-- ===== src/Repository/Agreement.antt =====
-- The repositories and the aggregate store read the same aggregates from the same rows, but for
-- `PositionUpdated`.
use saga_market_order.Prelude.{
  String, ◌≡◌, refl, ◌↔◌, Bool, true, false, Option, none, some, List, [], ◌∷◌, ◌==◌, eq_iff,
  if◌then◌else◌,
}
use saga_market_order.Float.{Float}
use saga_market_order.Json.{Object}
use saga_market_order.EventStore.Postgres.{Row, Database, Link, load}
use saga_market_order.Order.Aggregate.{Order, new_order}
use saga_market_order.Position.Events.{Event}
use saga_market_order.Position.Aggregate.{Position, new_position, when}
use saga_market_order.Position.Codec.{deserialize, deserialize_all}
use saga_market_order.AggregateStore.Store.{
  deserialized, position_applied, found, load_order_aggregate, load_position_aggregate,
  replay_order, replay_position,
}
use saga_market_order.Repository.Store.{get_order, get_position, replay_all}
use saga_market_order.Result.{Result, ok, err, ◌>>=◌, within, within_ok, >>=-eq-ok}

pick :
    {E : Type 0} (a b c : Bool) (x y z : Option E) {e : E}
    → (b ≡ true → c ≡ false)
    → (if a then x else if c then z else none) ≡ some e
    → (if a then x else if b then y else if c then z else none) ≡ some e
pick true b c x y z k h = h
pick false false c x y z k h = h
pick false true true x y z k h = cc (k refl)
pick false true false x y z k h = cc

module _ {W : Type 0} ⦃f : Float W⦄ where
  -- Contexts and the text for an empty list aside, the two chains are the same.
  chain_lem :
      {A : Type 0} (m n : String) (r : Result W (List (Row W))) (k : List (Row W) → Result W A)
      (a : A)
      → ((r >>= λ events. found m events >>= k) ≡ ok a)
        ↔ ((within "failed to load events" r >>= λ events. found n events >>= k) ≡ ok a)
  chain_lem m n (err e) k a = ((λ h. cc), (λ h. cc))
  chain_lem m n (ok []) k a = ((λ h. cc), (λ h. cc))
  chain_lem m n (ok (r ∷ rows)) k a = ((λ h. h), (λ h. h))

  -- The order repository's `Get` succeeds exactly where the aggregate store's load does, and with the
  -- same order.
  pub get_order_iff :
      (link : Link) (id : String) (db : Database W) (o : Order W)
      → (get_order link id db ≡ ok o) ↔ (load_order_aggregate link id db ≡ ok o)
  unfolding get_order load_order_aggregate
  get_order_iff link id db o =
      chain_lem "order not found" "aggregate not found" (load link id db)
        (λ rows. replay_order rows new_order) o

  deserialize_lem :
      (kind : String) (o : Object W) (e : Event W)
      → deserialize kind o ≡ some e
      → deserialize_all kind o ≡ some e
  unfolding deserialize deserialize_all
  deserialize_lem kind o e h =
      pick (kind == "PositionCreated") (kind == "PositionUpdated") (kind == "PositionClosed") _ _ _
        (λ k. rw ((eq_iff kind "PositionUpdated").0 k) refl) h

  deserialized_ok : {E : Type 0} (d : Option E) {e : E} → deserialized {W = W} d ≡ ok e → d ≡ some e
  deserialized_ok none h = cc
  deserialized_ok (some x) h = cc

  replay_lem :
      (rows : List (Row W)) (p q : Position W)
      → replay_position rows p ≡ ok q
      → replay_all rows p ≡ ok q
  unfolding replay_position replay_all
  replay_lem [] p q h = h
  replay_lem (r ∷ rows) p q h =
      let (e, he, rest) =
        >>=-eq-ok
          (within "failed to deserialize event"
            (deserialized (deserialize r.event_type r.event_data)))
          _ h in
      let read = deserialize_lem r.event_type r.event_data e (
        deserialized_ok _
          (within_ok _ (deserialized (deserialize r.event_type r.event_data)) he)) in
      let (p', hp, last) =
        >>=-eq-ok (within "failed to apply event" (position_applied (when e p))) _ rest in
      rw (read, within_ok _ (position_applied (when e p)) hp) (replay_lem rows p' q last)

  -- What the aggregate store loads of a position, the position repository's `Get` gives too.
  pub load-get_position :
      (link : Link) (id : String) (db : Database W) (p : Position W)
      → load_position_aggregate link id db ≡ ok p
      → get_position link id db ≡ ok p
  unfolding get_position load_position_aggregate
  load-get_position link id db p h =
      let k =
        (chain_lem "position not found" "aggregate not found" (load link id db)
            (λ rows. replay_position rows new_position) p).1
          h in
      let (events, he, rest) = >>=-eq-ok (load link id db) _ k in
      let (rows, hr, last) = >>=-eq-ok (found "position not found" events) _ rest in
      rw (he, hr) (replay_lem rows new_position p last)
