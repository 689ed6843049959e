-- ===== src/AggregateStore/UnloadableOrders.antt =====
-- An order with an event that the aggregate store's `deserializeOrderEvent` does not know cannot be
-- loaded.
use mathlib.Core.List.{Memᴰ}
use saga_market_order.Prelude.{String, ◌≡◌, ◌≢◌, refl, sym, ap, ◌∙◌, false, none, List, [], ◌∷◌}
use saga_market_order.Float.{Float}
use saga_market_order.EventStore.Postgres.{Row, Database, Link}
use saga_market_order.Json.{Object}
use saga_market_order.Order.Events.{
  Event, type_name, order_accepted, price_quoted, swap_executing, swap_executed, order_completed,
  order_failed,
}
use saga_market_order.Order.Roundtrip.{is_stored}
use saga_market_order.Order.Aggregate.{Order, new_order, when}
use saga_market_order.AggregateStore.Loads.{loaded_rows}
use saga_market_order.Order.Codec.{deserialize}
use saga_market_order.AggregateStore.Store.{
  deserialized, order_applied, found, replay_order, load_order_aggregate,
}
use saga_market_order.Result.{ok, within, >>=-eq-ok}

module _ {W : Type 0} ⦃f : Float W⦄ where
  -- The type switch knows no event but the six that it reads back.
  unstored_lem :
      (e : Event W) (o : Object W) → is_stored e ≡ false → deserialize (type_name e) o ≡ none
  unfolding deserialize
  unstored_lem (order_accepted _) o h = cc
  unstored_lem (price_quoted _) o h = cc
  unstored_lem (swap_executing _) o h = cc
  unstored_lem (swap_executed _) o h = cc
  unstored_lem (order_completed _) o h = cc
  unstored_lem (order_failed _) o h = cc
  unstored_lem _ o h = refl

  unknown_type :
      (e : Event W) (o : Object W) {e' : Event W}
      → is_stored e ≡ false
      → within {W = W} "failed to deserialize event" (deserialized (deserialize (type_name e) o))
        ≢ ok e'
  unknown_type e o h = rw (unstored_lem e o h) (λ k. cc)

  replay_stops :
      (u : Event W) (rows : List (Row W)) (r : Row W) (p q : Order W)
      → Memᴰ r rows
      → is_stored u ≡ false
      → r.event_type ≡ type_name u
      → replay_order rows p ≢ ok q
  unfolding replay_order
  replay_stops u [] r p q m n h done = elim m [ ]
  replay_stops u (x ∷ rows) r p q (Memᴰ.head same) n h done =
      let (e, he, _) =
        >>=-eq-ok
          (within "failed to deserialize event"
            (deserialized (deserialize x.event_type x.event_data)))
          _ done in
      let kind : x.event_type ≡ type_name u = sym (ap (λ (y : Row W). y.event_type) same) ∙ h in
      unknown_type u x.event_data n (rw kind at he)
  replay_stops u (x ∷ rows) r p q (Memᴰ.tail m) n h done =
      let (e, _, rest) =
        >>=-eq-ok
          (within "failed to deserialize event"
            (deserialized (deserialize x.event_type x.event_data)))
          _ done in
      let (p', _, last) =
        >>=-eq-ok (within "failed to apply event" (order_applied (when e p))) _ rest in
      replay_stops u rows r p' q m n h last

  -- Once the store has an event of an order other than the six that are read back, such as
  -- `OrderCancelled` or `OrderPartiallyFilled`, no load of the order succeeds, whatever the database
  -- answers.
  pub unstored_unloadable :
      (link : Link) (id : String) (u : Event W) (r : Row W) (db : Database W) (o : Order W)
      → is_stored u ≡ false
      → Memᴰ r db.events
      → r.aggregate_id ≡ id
      → r.event_type ≡ type_name u
      → load_order_aggregate link id db ≢ ok o
  unfolding load_order_aggregate
  unstored_unloadable link id u r db o n m own kind done =
      let (rows, found, last) =
        loaded_rows link id r db (λ rows. replay_order rows new_order) m own done in
      replay_stops u rows r new_order o found n kind last
