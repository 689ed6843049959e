-- ===== src/AggregateStore/Saves.antt =====
-- `SaveOrderAggregate` and `SavePositionAggregate` on every branch.
use saga_market_order.Prelude.{◌≡◌, refl, ◌⊎◌, inl, inr, Option, none, some, List, [], ◌∷◌, map}
use saga_market_order.Float.{Float}
use saga_market_order.EventStore.Serializer.{order_event, position_event}
use saga_market_order.EventStore.Postgres.{Database, Link, save}
use saga_market_order.EventStore.Atomicity.{Adds, Adds-nil, save_atomic}
use saga_market_order.Order.Aggregate.{Order}
use saga_market_order.Order.Events.{Event}
use saga_market_order.Position.Events as PositionEvents
use saga_market_order.Position.Aggregate.{Position}
use saga_market_order.AggregateStore.Store.{
  if_any, order_saved, position_saved, save_order_aggregate, save_position_aggregate,
}
use saga_market_order.Result.{Failure}

module _ {W : Type 0} ⦃f : Float W⦄ where
  -- The aggregate is saved and has no unsaved events left, or the save fails and nothing changes.
  abbrev pub OrderSaves : Order W → Database W → Order W × Database W × Option (Failure W) → Type 0
  OrderSaves o db (o', db', e) =
      ((e ≡ none) × (o' ≡ record o { changes = [] }) × Adds (map order_event o.changes) db db')
      ⊎ (((x : Failure W) × (e ≡ some x)) × (o' ≡ o) × (db' ≡ db))

  abbrev pub PositionSaves :
      Position W → Database W → Position W × Database W × Option (Failure W) → Type 0
  PositionSaves p db (p', db', e) =
      ((e ≡ none) × (p' ≡ record p { changes = [] }) × Adds (map position_event p.changes) db db')
      ⊎ (((x : Failure W) × (e ≡ some x)) × (p' ≡ p) × (db' ≡ db))

  order_branch :
      (o : Order W) (db : Database W) (out : Database W × Option (Failure W))
      → ((out.1 ≡ none) × Adds (map order_event o.changes) db out.0)
        ⊎ (((x : Failure W) × (out.1 ≡ some x)) × (out.0 ≡ db))
      → OrderSaves o db (order_saved o out)
  order_branch o db (db', none) (inl (_, adds)) = inl (refl, refl, adds)
  order_branch o db (db', none) (inr ((x, e), _)) = cc
  order_branch o db (db', some y) (inl (e, _)) = cc
  order_branch o db (db', some y) (inr (_, same)) = inr ((_, refl), refl, same)

  position_branch :
      (p : Position W) (db : Database W) (out : Database W × Option (Failure W))
      → ((out.1 ≡ none) × Adds (map position_event p.changes) db out.0)
        ⊎ (((x : Failure W) × (out.1 ≡ some x)) × (out.0 ≡ db))
      → PositionSaves p db (position_saved p out)
  position_branch p db (db', none) (inl (_, adds)) = inl (refl, refl, adds)
  position_branch p db (db', none) (inr ((x, e), _)) = cc
  position_branch p db (db', some y) (inl (e, _)) = cc
  position_branch p db (db', some y) (inr (_, same)) = inr ((_, refl), refl, same)

  -- No event is saved as `Save` saves an empty list: nothing changes, and there is no error.
  order_cases :
      (link : Link) (o : Order W) (db : Database W) (l : List (Event W))
      → o.changes ≡ l
      → OrderSaves o db
          (if_any l (order_saved o (save link (map order_event o.changes) db)) (o, db, none))
  order_cases link o db [] h = inl (refl, (λ i. record o { changes = h i }), rw h (Adds-nil db))
  order_cases link o db (e ∷ l) h =
      order_branch o db _ (save_atomic link (map order_event o.changes) db)

  position_cases :
      (link : Link) (p : Position W) (db : Database W) (l : List (PositionEvents.Event W))
      → p.changes ≡ l
      → PositionSaves p db
          (if_any l (position_saved p (save link (map position_event p.changes) db)) (p, db, none))
  position_cases link p db [] h = inl (refl, (λ i. record p { changes = h i }), rw h (Adds-nil db))
  position_cases link p db (e ∷ l) h =
      position_branch p db _ (save_atomic link (map position_event p.changes) db)

  pub save_order-OrderSaves :
      (link : Link) (o : Order W) (db : Database W)
      → OrderSaves o db (save_order_aggregate link o db)
  unfolding save_order_aggregate
  save_order-OrderSaves link o db = order_cases link o db o.changes refl

  pub save_position-PositionSaves :
      (link : Link) (p : Position W) (db : Database W)
      → PositionSaves p db (save_position_aggregate link p db)
  unfolding save_position_aggregate
  save_position-PositionSaves link p db = position_cases link p db p.changes refl
