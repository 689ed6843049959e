-- ===== src/UseCases/Completion.antt =====
-- The ways in which `CompleteOrderAndUpdatePosition` ends.
use mathlib.Core.Option
use saga_market_order.Prelude.{String, inl, inr, Option, none, some, map}
use saga_market_order.Float.{Float}
use saga_market_order.EventStore.Serializer.{order_event, position_event}
use saga_market_order.EventStore.Postgres.{Database, Link}
use saga_market_order.EventStore.Atomicity.{Adds}
use saga_market_order.Order.Aggregate.{Order}
use saga_market_order.Position.Aggregate.{Position}
use saga_market_order.AggregateStore.Saves.{
  OrderSaves, PositionSaves, save_order-OrderSaves, save_position-PositionSaves,
}
use saga_market_order.UseCases.Complete.{
  SwapResult, Calls, prepare, after_first, save_both, complete_order_and_update_position,
}
use saga_market_order.Result.{Failure, Result, wrap, ok, err}

module _ {W : Type 0} ⦃f : Float W⦄ where
  -- Nothing is changed; or the order is saved and the position is not; or both are saved.
  pub data Ends (db : Database W)
      : Result W (Order W × Position W) → Database W × Option (Failure W) → Type 0 where
    untouched : {r : Result W (Order W × Position W)} (x : Failure W) → Ends db r (db, some x)
    half :
        {o : Order W} {p : Position W} {db' : Database W} (x : Failure W)
        → Adds (map order_event o.changes) db db'
        → Ends db (ok (o, p)) (db', some x)
    both :
        {o : Order W} {p : Position W} (mid : Database W) {db' : Database W}
        → Adds (map order_event o.changes) db mid
        → Adds (map position_event p.changes) mid db'
        → Ends db (ok (o, p)) (db', none)

  second-Ends :
      (o : Order W) (p : Position W) (db mid : Database W)
      (out : Position W × Database W × Option (Failure W))
      → Adds (map order_event o.changes) db mid
      → PositionSaves p mid out
      → Ends db (ok (o, p)) (out.1, Option.map (wrap "failed to save position events") out.2)
  second-Ends o p db mid (p', db', none) a (inl (_, _, adds)) = both mid a adds
  second-Ends o p db mid (p', db', none) a (inr ((x, e), _, _)) = cc
  second-Ends o p db mid (p', db', some x) a (inl (e, _, _)) = cc
  second-Ends o p db mid (p', db', some x) a (inr (_, _, same)) = rw same (half _ a)

  first-Ends :
      (link : Link) (o : Order W) (p : Position W) (db : Database W)
      (out : Order W × Database W × Option (Failure W))
      → OrderSaves o db out
      → Ends db (ok (o, p)) (after_first link p out)
  first-Ends link o p db (o', mid, none) (inl (_, _, adds)) =
      second-Ends o p db mid _ adds (save_position-PositionSaves link p mid)
  first-Ends link o p db (o', mid, none) (inr ((x, e), _, _)) = cc
  first-Ends link o p db (o', mid, some x) (inl (e, _, _)) = cc
  first-Ends link o p db (o', mid, some x) (inr (_, _, same)) = rw same (untouched _)

  both-Ends :
      (c : Calls) (r : Result W (Order W × Position W)) (db : Database W)
      → Ends db r (save_both c r db)
  both-Ends c (err e) db = untouched e
  both-Ends c (ok (o, p)) db =
      first-Ends c.save_position o p db _ (save_order-OrderSaves c.save_order o db)

  -- `CompleteOrderAndUpdatePosition` ends in one of three ways: with an error and nothing changed;
  -- with an error after the events of the completed order are saved and those of the position are
  -- not; or without an error, the events of both saved, those of the order first.
  pub complete-Ends :
      (c : Calls) (order_id position_id : String) (swap : SwapResult W) (db : Database W)
      → Ends db
          (prepare c order_id position_id swap db)
          (complete_order_and_update_position c order_id position_id swap db)
  unfolding complete_order_and_update_position
  complete-Ends c order_id position_id swap db =
      both-Ends c (prepare c order_id position_id swap db) db
