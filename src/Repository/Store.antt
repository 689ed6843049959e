-- ===== src/Repository/Store.antt =====
-- infrastructure/repository/order_repository.go and position_repository.go: `Get` and `Save`. The
-- order repository's `deserializeOrderEvent` and its replay loop are word for word those of the
-- aggregate store.
use saga_market_order.Prelude.{String, Option, none, some, List, [], ◌∷◌, map}
use saga_market_order.Float.{Float}
use saga_market_order.EventStore.Serializer.{order_event, position_event}
use saga_market_order.EventStore.Postgres.{Row, Database, Link, load, save}
use saga_market_order.Order.Aggregate.{Order, new_order}
use saga_market_order.Position.Aggregate.{Position, new_position, when}
use saga_market_order.Position.Codec.{deserialize_all}
use saga_market_order.AggregateStore.Store.{
  if_any, found, deserialized, position_applied, replay_order,
}
use saga_market_order.Result.{Failure, Result, ok, ◌>>=◌}

module _ {W : Type 0} ⦃f : Float W⦄ where
  unfoldable pub get_order : Link → String → Database W → Result W (Order W)
  unfolding replay_order
  get_order link id db = do
    events ← load link id db
    rows ← found "order not found" events
    replay_order rows new_order

  -- Behind the event store's answer.
  abbrev pub order_answered :
      Order W → Database W × Option (Failure W) → Order W × Database W × Option (Failure W)
  order_answered o (db, some e) = (o, db, some e)
  order_answered o (db, none) = (record o { changes = [] }, db, none)

  unfoldable pub save_order :
      Link → Order W → Database W → Order W × Database W × Option (Failure W)
  save_order link o db =
      if_any o.changes (order_answered o (save link (map order_event o.changes) db)) (o, db, none)

  -- The loop of the position repository's `Get`.
  unfoldable pub replay_all : List (Row W) → Position W → Result W (Position W)
  replay_all [] p = ok p
  replay_all (r ∷ rows) p = do
    e ← deserialized (deserialize_all r.event_type r.event_data)
    p' ← position_applied (when e p)
    replay_all rows p'

  unfoldable pub get_position : Link → String → Database W → Result W (Position W)
  unfolding replay_all
  get_position link id db = do
    events ← load link id db
    rows ← found "position not found" events
    replay_all rows new_position

  abbrev pub position_answered :
      Position W → Database W × Option (Failure W) → Position W × Database W × Option (Failure W)
  position_answered p (db, some e) = (p, db, some e)
  position_answered p (db, none) = (record p { changes = [] }, db, none)

  unfoldable pub save_position :
      Link → Position W → Database W → Position W × Database W × Option (Failure W)
  save_position link p db =
      if_any p.changes (position_answered p (save link (map position_event p.changes) db))
        (p, db, none)
