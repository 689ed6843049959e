-- ===== src/UseCases/Create.antt =====
-- application/usecases/create_order.go: `CreateOrderUseCase`. A call of the database that fails is
-- told by its `Link`.
use mathlib.Core.Option
use saga_market_order.Prelude.{Option, none, some}
use saga_market_order.Float.{Float}
use saga_market_order.EventStore.Postgres.{Database, Link}
use saga_market_order.Order.Aggregate.{Outcome, new_order}
use saga_market_order.Order.Commands.{Stamp, accept_order}
use saga_market_order.Order.Validity.{Terms}
use saga_market_order.AggregateStore.Store.{save_order_aggregate}
use saga_market_order.Result.{Failure, wrap, of_order}

module _ {W : Type 0} ⦃f : Float W⦄ where
  -- What follows the command.
  abbrev pub save_created : Link → Outcome W → Database W → Database W × Option (Failure W)
  save_created link (o, some x) db = (db, some (of_order x))
  save_created link (o, none) db =
      let (_, db', e) = save_order_aggregate link o db in
      (db', Option.map (wrap "failed to save order events") e)

  -- `Execute`; the request is the order's terms.
  unfoldable pub create_order :
      Link → Stamp → Terms W → Database W → Database W × Option (Failure W)
  unfolding accept_order
  create_order link s req db =
      save_created link
        (accept_order s req.id req.user_id req.from_amount req.from_currency req.to_currency
          req.order_type new_order)
        db
