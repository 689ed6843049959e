-- ===== src/AggregateStore/Unloadable.antt =====
-- A position to which an order was added cannot be loaded: the aggregate store's
-- `deserializePositionEvent` does not know `PositionUpdated`.
use mathlib.Core.List.{Memᴰ}
use saga_market_order.Prelude.{String, ◌≡◌, ◌≢◌, sym, ap, ◌∙◌, List, [], ◌∷◌}
use saga_market_order.Float.{Float}
use saga_market_order.EventStore.Postgres.{Row, Database, Link}
use saga_market_order.Json.{Object}
use saga_market_order.Position.Events.{Event}
use saga_market_order.Position.Aggregate.{Position, new_position, when}
use saga_market_order.AggregateStore.Loads.{loaded_rows}
use saga_market_order.Position.Codec.{deserialize}
use saga_market_order.AggregateStore.Store.{
  deserialized, position_applied, found, replay_position, load_position_aggregate,
}
use saga_market_order.Result.{ok, within, >>=-eq-ok}

module _ {W : Type 0} ⦃f : Float W⦄ where
  unknown_type :
      (o : Object W) {e : Event W}
      → within {W = W} "failed to deserialize event"
          (deserialized (deserialize "PositionUpdated" o))
        ≢ ok e
  unfolding deserialize
  unknown_type o h = cc

  replay_stops :
      (rows : List (Row W)) (r : Row W) (p q : Position W)
      → Memᴰ r rows
      → r.event_type ≡ "PositionUpdated"
      → replay_position rows p ≢ ok q
  unfolding replay_position
  replay_stops [] r p q m h done = elim m [ ]
  replay_stops (x ∷ rows) r p q (Memᴰ.head same) h done =
      let (e, he, _) =
        >>=-eq-ok
          (within "failed to deserialize event"
            (deserialized (deserialize x.event_type x.event_data)))
          _ done in
      let kind : x.event_type ≡ "PositionUpdated" =
        sym (ap (λ (y : Row W). y.event_type) same) ∙ h in
      unknown_type x.event_data (rw kind at he)
  replay_stops (x ∷ rows) r p q (Memᴰ.tail m) h done =
      let (e, _, rest) =
        >>=-eq-ok
          (within "failed to deserialize event"
            (deserialized (deserialize x.event_type x.event_data)))
          _ done in
      let (p', _, last) =
        >>=-eq-ok (within "failed to apply event" (position_applied (when e p))) _ rest in
      replay_stops rows r p' q m h last

  -- Once the store has an event `PositionUpdated` of a position, which is what `AddOrder` records,
  -- no load of the position succeeds, whatever the database answers.
  pub updated_unloadable :
      (link : Link) (id : String) (r : Row W) (db : Database W) (p : Position W)
      → Memᴰ r db.events
      → r.aggregate_id ≡ id
      → r.event_type ≡ "PositionUpdated"
      → load_position_aggregate link id db ≢ ok p
  unfolding load_position_aggregate
  updated_unloadable link id r db p m own kind done =
      let (rows, found, last) =
        loaded_rows link id r db (λ rows. replay_position rows new_position) m own done in
      replay_stops rows r new_position p found kind last
