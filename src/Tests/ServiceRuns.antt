-- ===== src/Tests/ServiceRuns.antt =====
-- The service at work.
use saga_market_order.Prelude.{◌≡◌, refl, some, List, [], ◌∷◌}
use saga_market_order.Float.Cents.{Cents, cents_float}
use saga_market_order.Order.Validity.{Terms}
use saga_market_order.UseCases.Create.{create_order}
use saga_market_order.Saga.Steps.{Step}
use saga_market_order.Journey.Service.{Service, Operation, operate_all}
use saga_market_order.Journey.Unique.{creates_once}
use saga_market_order.Result.{Failure}
use saga_market_order.Tests.Samples.{at, market_terms, link, empty}
use saga_market_order.Tests.UseCaseRuns.{market_order_created}
use saga_market_order.Tests.OutboxRuns.{bus, tick}
use saga_market_order.Tests.ApiRuns.{post}
use saga_market_order.Tests.NotificationRuns.{delivery}
use saga_market_order.Tests.QuoteRuns.{accept_env, announced_message}

abbrev other_terms : Terms Cents
other_terms = record market_terms { user_id = "user-2"; from_amount = some 40 }

abbrev service : Service Cents
service = record {
  world = record { database = empty; published = []; calls = [] };
  bus = bus;
  told = [];
}

-- The order is published and quoted, another one is created, and a notification is due.
abbrev work : List (Operation Cents)
work =
    Operation.tick tick
    ∷ Operation.delivery (Step.accept accept_env) announced_message.0
    ∷ Operation.request link (at "event-30") "order-2" "/orders" post
    ∷ Operation.notice delivery
    ∷ []

creates_once_example :
    let db = (create_order link (at "event-1") market_terms empty).0 in
    let x = record service { world = record (service.world) { database = db } } in
    let db' = (operate_all work x).world.database in
    let (db'', e) = create_order link (at "event-2") other_terms db' in
    ((y : Failure Cents) × (e ≡ some y)) × (db'' ≡ db')
creates_once_example =
    creates_once link link (at "event-1") (at "event-2") market_terms other_terms service work refl
      market_order_created
