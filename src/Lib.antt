-- ===== src/Lib.antt =====
-- The market order service (Go): orders, limit order books and positions as event-sourced
-- aggregates over an event store in PostgreSQL.
--
-- What models what (paths from the repository's root):
--   Order          domain/order/aggregate.go and events.go: the record `Order`, `When`, `Apply` and
--                  the thirteen commands (Order/Events, Order/Aggregate, Order/Commands); Order/Run
--                  gives the commands as data, and runs of them. Order/Codec is the JSON of the
--                  events, and `deserializeOrderEvent` of application/aggregates/aggregate_store.go.
--   OrderBook      domain/orderbook/aggregate.go and events.go, likewise.
--   Position       domain/position/aggregate.go and events.go, likewise; Position/Codec has the
--                  deserializers of the aggregate store and of
--                  infrastructure/repository/position_repository.go.
--   EventStore     infrastructure/eventstore/serializer.go (Serializer, and ErrorText for the test of
--                  an error's text) and postgres.go (Postgres: `Save` with its transaction, and `Load`;
--                  From: `LoadFromVersion`). The tables and their unique columns are those of
--                  infrastructure/database/migrations.sql.
--   AggregateStore application/aggregates/aggregate_store.go: loading an aggregate by replaying its
--                  stored events, saving its unsaved events.
--   Repository     infrastructure/repository: `Get` and `Save` of orders and positions.
--   UseCases       application/usecases/create_order.go and complete_order_and_update_position.go.
--   Saga           application/saga: World (the database, the messages, the calls of the worker, and
--                  infrastructure/idempotency/processed_events.go; its audit is in Processed),
--                  Compensation (order_saga_refactored.go), Accept, Price, Swap and Complete
--                  (accept.go, price.go, swap.go, complete.go); Steps gives the four handlers as data,
--                  Start the subscriptions.
--   Messaging      infrastructure/messaging/rabbitmq.go: the connection, `Publish`, `Subscribe`,
--                  `Close` (RabbitMq) and the loop that acknowledges or requeues (Consumer).
--   Outbox         infrastructure/outbox/publisher.go: Publisher.
--   Notification   application/notification/service.go: Service and Start.
--   Api            api/handlers.go: Create for `CreateOrder`, Path and History for
--                  `GetOrderHistory`, Responses for the bodies and for `HealthCheck`.
--   Wiring         cmd/main.go: Startup (the loops of attempts to connect, `getEnv`), Routes, Mocks.
--   Journey        several of these together: from the POST of an order to its GET, to the bus, and to
--                  its quote by STEP 1; Service is what the goroutines of cmd/main.go do, as a list of
--                  operations in any order.
--   EventSourcing  the replay loop, and what the three aggregates share of it.
--   Result, Json   errors of the layers above the domain, and how a handler ends; JSON objects.
--   Format         texts of `fmt.Sprintf`, as lists of pieces.
--   Float          `float64` as a type with the operations that the code calls, and, where a proof
--                  wants them, facts of IEEE 754 (Float/Laws); Float/Cents shows that they can be met.
--   Prelude        lists, Boolean tests, Go's `int`, and the contract of `sort.Slice`.
--
-- How state is modelled: a method that mutates its receiver returns the new record and the error,
-- if any; a command that fails leaves the record as it was. `Version` is a 64-bit `int` kept as its
-- bit pattern, so that the increment wraps; where a theorem wants no wrap-around it says so. A time
-- is a number of ticks. A map is the list of its entries; `UpdateOrder` is given them in the order
-- in which Go's `range` meets them. A UUID and the clock's readings are arguments of each command
-- (`Stamp`). No loop needs fuel: all are recursions on a list, or on the number of rounds.
--
-- The price service and the trade worker are functions in the environment of a step. A handler takes
-- the message's JSON, and ends with nil, with an error, or with a nil dereference (`Ending`).
--
-- What can fail outside the code is an argument too: `Link` holds the error of each database
-- statement. Unique violations arise in the model from the rows. An `events` row is without its
-- serial number and metadata, which no code reads. JSON is an object of typed members: texts are not
-- encoded. A tick is a microsecond of a clock in UTC, so that the column `created_at` keeps it. A call
-- of the trade worker is recorded with the database that the worker finds (`SwapCall`).
--
-- Handlers run to their end one after the other: what the goroutines interleave is a list of
-- deliveries or of ticks, in any order and with any failures. The broker may deliver a message any
-- number of times. A SELECT of the outbox may put rows with one time in any order (`sort`). The loops
-- of attempts to connect are recursions on the rounds that are left.
--
-- Not modelled: HTTP, the cleaning of paths by `ServeMux`, the goroutines and the shutdown;
-- the AMQP client and how the broker routes and queues; how a float64 is printed; logging.
pub mod Prelude
pub mod Float
pub mod EventSourcing
pub mod Json
pub mod Format
pub mod Order
pub mod OrderBook
pub mod Position
pub mod Result
pub mod EventStore
pub mod AggregateStore
pub mod Tests
pub mod UseCases
pub mod Saga
pub mod Repository
pub mod Messaging
pub mod Outbox
pub mod Notification
pub mod Api
pub mod Wiring
pub mod Journey
