-- ===== src/Journey/Quoted.antt =====
-- application/usecases and application/saga: from the creation of an order to its quote.
use saga_market_order.Prelude.{
  ◌≡◌, refl, sym, ◌∙◌, ap, false, none, some, [], arith, subst, int_suc,
}
use saga_market_order.Float.{Float}
use saga_market_order.Json.{Object}
use saga_market_order.EventStore.Postgres.{Database, Link, select}
use saga_market_order.Order.Aggregate.{Order, pending, when, apply}
use saga_market_order.Order.Codec.{unmarshal_order_accepted}
use saga_market_order.Order.Commands.{Stamp, quote_price}
use saga_market_order.Order.Emits.{strip}
use saga_market_order.Order.Run.{execute, execute_all}
use saga_market_order.Order.Validity.{Terms, terms_of}
use saga_market_order.AggregateStore.Store.{load_order_aggregate, save_order_aggregate}
use saga_market_order.AggregateStore.Orders.{IsUp, Holds, load-Holds}
use saga_market_order.UseCases.Create.{create_order}
use saga_market_order.UseCases.Accepted.{accepted, created_accepted, accepted_lem, acceptance}
use saga_market_order.UseCases.Creation.{created_held}
use saga_market_order.Saga.World.{World, success, is_processed}
use saga_market_order.Saga.Accept.{Env, handle_order_accepted}
use saga_market_order.Saga.Quote.{quoted, quotes, Holds-events}
use saga_market_order.Result.{ok}

module _ {W : Type 0} ⦃f : Float W⦄ where
  open f use {nought, le, div}

  -- The order that is created of the terms.
  abbrev pub created_order : Stamp → Terms W → Order W
  created_order s t = strip (accepted s t).0

  quoted_terms :
      (env : Env W) (s : Stamp) (t : Terms W) (price : W) (o : Order W)
      → terms_of o ≡ t
      → terms_of (strip (quoted env (acceptance s t) price o)) ≡ t
  unfolding execute_all execute quote_price apply when
  quoted_terms env s t price o h = ground (arith, h)

  -- STEP 1 on an order that has been created: the id was new to the store, nothing else has been
  -- added to the events, and the message that decodes to the order's acceptance is delivered and is
  -- not marked as processed. If the service gives a price that is positive, as is the amount divided
  -- by it, and the calls of the database meet no failure, then the handler returns nil, and the order
  -- can be loaded: it is pending, has the terms of the request, the price, the amount divided by it,
  -- and version 2.
  pub created_then_quoted :
      (link : Link) (s : Stamp) (t : Terms W) (db : Database W) (env : Env W)
      (event_data : Object W) (price : W) (w : World W)
      → select t.id db.events ≡ []
      → (create_order link s t db).1 ≡ none
      → w.database.events ≡ (create_order link s t db).0.events
      → unmarshal_order_accepted event_data ≡ some (acceptance s t)
      → is_processed env.check s.uuid w ≡ false
      → env.price t.from_currency t.to_currency ≡ some price
      → le price nought ≡ false
      → le (div t.from_amount price) nought ≡ false
      → IsUp link
      → IsUp env.load
      → (save_order_aggregate env.save
          (quoted env (acceptance s t) price (created_order s t))
          w.database).2
        ≡ none
      → let (w', end) = handle_order_accepted env event_data w in
        (end ≡ success)
        × ((o : Order W) × (load_order_aggregate env.load t.id w'.database ≡ ok o)
            × (o.status ≡ pending)
            × (terms_of o ≡ t)
            × (o.executed_price ≡ price)
            × (o.to_amount ≡ div t.from_amount price)
            × (o.version ≡ 2))
  created_then_quoted link s t db env event_data price w free done same dec new priced p q up up'
        saved =
      let (accepts, _, _) = created_accepted link s t db done in
      let (id, version, status, terms, _) = accepted_lem s t accepts in
      let o = created_order s t in
      let (_, holds) = created_held link s t db free up done in
      let held =
        subst (λ i. Holds i o w.database) (sym id)
          (Holds-events t.id o (create_order link s t db).0 w.database same holds) in
      let (ended, stored, state, executed, amount, next) =
        quotes env event_data (acceptance s t) price o w dec new priced p q id refl status
          (omega (arith, version)) (omega (arith, version)) held up' saved in
      let o' = strip (quoted env (acceptance s t) price o) in
      let two : o'.version ≡ 2 = next ∙ ap int_suc version in
      (
        ended,
        (
          o',
          load-Holds env.load t.id o' _ up' (omega (arith, two)) (
              subst (λ i. Holds i o' (handle_order_accepted env event_data w).0.database) id
                stored),
          state,
          quoted_terms env s t price o terms,
          executed,
          amount,
          two,
        ),
      )
