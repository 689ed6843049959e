-- ===== src/AggregateStore/Store.antt =====
-- application/aggregates/aggregate_store.go: loading an aggregate by replaying its stored events,
-- and saving its unsaved events.
use saga_market_order.Prelude.{String, Option, none, some, List, [], ◌∷◌, map}
use saga_market_order.Float.{Float}
use saga_market_order.EventStore.Serializer.{order_event, position_event}
use saga_market_order.EventStore.Postgres.{Row, Database, Link, load, save}
use saga_market_order.Order.Aggregate as OrderAggregate
use saga_market_order.Order.Aggregate.{Order, new_order}
use saga_market_order.Order.Codec as OrderCodec
use saga_market_order.Position.Aggregate as PositionAggregate
use saga_market_order.Position.Aggregate.{Position, new_position}
use saga_market_order.Position.Codec as PositionCodec
use saga_market_order.Result.{
  Failure, Result, text, wrap, of_order, of_position, ok, err, ◌>>=◌, within,
}

-- `if len(changes) == 0 { return nil }`, and what follows it.
abbrev pub if_any {ℓ} : {A : Type 0} {B : Type ℓ} → List A → B → B → B
if_any [] some_left none_left = none_left
if_any (_ ∷ _) some_left none_left = some_left

module _ {W : Type 0} where
  -- What `deserialize…Event` returns: the event, or an error whose text no code reads.
  abbrev pub deserialized : {E : Type 0} → Option E → Result W E
  deserialized none = err (text "unknown event type, or invalid JSON")
  deserialized (some e) = ok e

  -- What `When` returns, as the loop goes on with it.
  abbrev pub order_applied : Order W × Option (OrderAggregate.Error W) → Result W (Order W)
  order_applied (o, none) = ok o
  order_applied (o, some x) = err (of_order x)

  abbrev pub position_applied : Position W × Option PositionAggregate.Error → Result W (Position W)
  position_applied (p, none) = ok p
  position_applied (p, some x) = err (of_position x)

  -- `if len(events) == 0 { return … }`; the message is kept without the id that is put into it.
  abbrev pub found : String → List (Row W) → Result W (List (Row W))
  found message [] = err (text message)
  found message (r ∷ rows) = ok (r ∷ rows)

module _ {W : Type 0} ⦃f : Float W⦄ where
  -- The loop `for _, evt := range events` of `LoadOrderAggregate`.
  unfoldable pub replay_order : List (Row W) → Order W → Result W (Order W)
  replay_order [] o = ok o
  replay_order (r ∷ rows) o = do
    e ←
        within "failed to deserialize event"
          (deserialized (OrderCodec.deserialize r.event_type r.event_data))
    o' ← within "failed to apply event" (order_applied (OrderAggregate.when e o))
    replay_order rows o'

  unfoldable pub load_order_aggregate : Link → String → Database W → Result W (Order W)
  load_order_aggregate link id db = do
    events ← within "failed to load events" (load link id db)
    rows ← found "aggregate not found" events
    replay_order rows new_order

  -- The end of `SaveOrderAggregate`, after the event store has answered.
  abbrev pub order_saved :
      Order W → Database W × Option (Failure W) → Order W × Database W × Option (Failure W)
  order_saved o (db, some e) = (o, db, some (wrap "failed to save events" e))
  order_saved o (db, none) = (record o { changes = [] }, db, none)

  unfoldable pub save_order_aggregate :
      Link → Order W → Database W → Order W × Database W × Option (Failure W)
  save_order_aggregate link o db =
      if_any o.changes (order_saved o (save link (map order_event o.changes) db)) (o, db, none)

  unfoldable pub replay_position : List (Row W) → Position W → Result W (Position W)
  replay_position [] p = ok p
  replay_position (r ∷ rows) p = do
    e ←
        within "failed to deserialize event"
          (deserialized (PositionCodec.deserialize r.event_type r.event_data))
    p' ← within "failed to apply event" (position_applied (PositionAggregate.when e p))
    replay_position rows p'

  unfoldable pub load_position_aggregate : Link → String → Database W → Result W (Position W)
  load_position_aggregate link id db = do
    events ← within "failed to load events" (load link id db)
    rows ← found "aggregate not found" events
    replay_position rows new_position

  abbrev pub position_saved :
      Position W → Database W × Option (Failure W) → Position W × Database W × Option (Failure W)
  position_saved p (db, some e) = (p, db, some (wrap "failed to save events" e))
  position_saved p (db, none) = (record p { changes = [] }, db, none)

  unfoldable pub save_position_aggregate :
      Link → Position W → Database W → Position W × Database W × Option (Failure W)
  save_position_aggregate link p db =
      if_any p.changes (position_saved p (save link (map position_event p.changes) db))
        (p, db, none)
