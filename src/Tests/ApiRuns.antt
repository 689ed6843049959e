-- ===== src/Tests/ApiRuns.antt =====
-- The HTTP API, and an order from its POST to the GET and to the bus.
use mathlib.Core.List.{Memᴰ}
use Prim.Native.String as Text
use saga_market_order.Prelude.{
  ℕ, zero, suc, ◌<◌, ◌≤◌, ◌≡◌, ◌≢◌, refl, ◌⊎◌, inl, true, ◌==◌, none, some, [], ◌∷◌, map, length,
  arith, ◌↔◌,
}
use saga_market_order.Float.Cents.{Cents, cents_float}
use saga_market_order.Json.{Object, Member}
use saga_market_order.EventStore.Serializer.{serialize_event}
use saga_market_order.EventStore.Postgres.{
  Database, OutboxRow, clashes, clashes_outbox, save, save_events, insert_event,
}
use saga_market_order.Order.Aggregate.{Order, pending, new_order, when, apply}
use saga_market_order.Order.Codec.{marshal, unmarshal_order_accepted}
use saga_market_order.Order.Validity.{terms_of}
use saga_market_order.AggregateStore.Store.{load_order_aggregate, save_order_aggregate}
use saga_market_order.AggregateStore.Orders.{IsUp}
use saga_market_order.UseCases.Create.{create_order}
use saga_market_order.UseCases.Accepted.{acceptance}
use saga_market_order.Messaging.RabbitMq.{Dialing}
use saga_market_order.Outbox.Publisher.{run, pending as pending_rows}
use saga_market_order.Api.Responses.{OrderHistoryResponse, history}
use saga_market_order.Api.Create.{
  CreateOrderRequest, HttpRequest, decode_request, terms_for, validate_and_create,
  handle_create_order,
}
use saga_market_order.Api.Created.{IsWellFormed, create_order_answers}
use saga_market_order.Api.Path.{IsSolid, is_space}
use saga_market_order.Journey.Readback.{created-IsStored, posted_then_read, terms_of_history}
use saga_market_order.Journey.Announcement.{created_is_announced}
use saga_market_order.Wiring.Routes.{serve}
use saga_market_order.Wiring.Startup.{connect_broker, Succeeds, broker_connects}
use saga_market_order.Result.{ok}
use saga_market_order.Tests.Samples.{at, market_terms, link, empty}
use saga_market_order.Tests.UseCaseRuns.{market_order_created, no_events}
use saga_market_order.Tests.OutboxRuns.{bus, tick, tick-IsSort, tick-IsUp, one-IsKeyed}

-- The request leaves the order's type out.
abbrev pub post : HttpRequest Cents
post = record {
  method = "POST";
  body = some (
      ("user_id", Member.string "user-1")
      ∷ ("from_amount", Member.float (some 25))
      ∷ ("from_currency", Member.string "USD")
      ∷ ("to_currency", Member.string "BTC")
      ∷ []);
}

abbrev get : HttpRequest Cents
get = record { method = "GET"; body = none }

link-IsUp : IsUp link
link-IsUp = record { query = refl; scan = refl; rows = refl }

create_order_answers_example :
    let (db', resp) = handle_create_order link (at "event-1") "order-1" post empty in
    ((resp.code ≢ 202) × (db' ≡ empty))
    ⊎ ((resp.code ≡ 202)
        × (post.method == "POST") ≡ true
        × ((req : CreateOrderRequest Cents) × (decode_request post.body ≡ some req)
            × IsWellFormed req
            × ((o : Order Cents) × (load_order_aggregate link "order-1" db' ≡ ok o)
                × (o.status ≡ pending)
                × (terms_of o ≡ terms_for "order-1" req))))
create_order_answers_example =
    create_order_answers link (at "event-1") "order-1" post empty no_events link-IsUp

post_accepted : (serve link (at "event-1") "order-1" "/orders" post empty).1.code ≡ 202
unfolding serve handle_create_order validate_and_create decode_request create_order
    save_order_aggregate save save_events insert_event serialize_event marshal apply when new_order
    clashes
post_accepted = refl

order_1-IsSolid : IsSolid "order-1"
unfolding is_space
order_1-IsSolid = (refl, (refl, (refl, (refl, (refl, (refl, (refl, tt)))))))

posted_then_read_example :
    let db' = (serve link (at "event-1") "order-1" "/orders" post empty).0 in
    (req : CreateOrderRequest Cents) × (h : OrderHistoryResponse Cents) × (decode_request post.body
      ≡ some req)
    × (serve link (at "event-2") "order-2" (Text.◌++◌ "/orders/" "order-1") get db'
        ≡ (db', record { code = 200; body = history h }))
    × (terms_of_history h ≡ terms_for "order-1" req)
    × (h.status ≡ "pending")
    × (map (λ t. t.version) h.timeline ≡ 1 ∷ [])
posted_then_read_example =
    posted_then_read link link (at "event-1") (at "event-2") "order-1" "order-2" post get empty
      no_events order_1-IsSolid refl link-IsUp refl post_accepted

abbrev created_db : Database Cents
created_db = (create_order link (at "event-1") market_terms empty).0

abbrev stored_order : Order Cents
stored_order =
    (created-IsStored link (at "event-1") market_terms empty no_events market_order_created).0

created_outbox : (r : OutboxRow Cents) × (created_db.outbox ≡ r ∷ [])
unfolding create_order save_order_aggregate save save_events insert_event serialize_event marshal
    apply when new_order clashes clashes_outbox
created_outbox = (_, refl)

few_pending : length (pending_rows created_db.outbox) ≤ 100
unfolding pending_rows create_order save_order_aggregate save save_events insert_event
    serialize_event marshal apply when new_order clashes clashes_outbox
few_pending = omega arith

created_is_announced_example :
    (o : Object Cents) × Memᴰ
      (record { event_type = "OrderAccepted"; event_data = some o })
      (run (tick ∷ []) (created_db, bus)).1.sent
    × (unmarshal_order_accepted o ≡ some (acceptance (at "event-1") market_terms))
created_is_announced_example =
    created_is_announced link (at "event-1") market_terms empty bus 1 (tick ∷ [])
      market_order_created (rw (created_outbox.1) one-IsKeyed) few_pending (tick-IsSort, tt)
      (inl (tick-IsUp, tt)) refl

-- The third attempt succeeds.
abbrev dials : ℕ → Dialing
dials (suc (suc zero)) = record { dial = none; channel = none; exchange = none }
dials _ = record { dial = some "connection refused"; channel = none; exchange = none }

broker_connects_example :
    let (r, err) = connect_broker {W = Cents} dials in
    ((err ≡ none) ↔ ((i : ℕ) × (i < 10) × Succeeds (dials i)))
    × ((r.has_channel ≡ true) ⊎ (err ≢ none))
broker_connects_example = broker_connects dials
