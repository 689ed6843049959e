-- ===== src/Tests/Samples.antt =====
-- Sample data: an order's commands, a book, a position, a database.
use saga_market_order.Prelude.{String, none, some, List, [], ◌∷◌}
use saga_market_order.Float.Cents.{Cents}
use saga_market_order.Order.Aggregate.{Order, pending, executing, completed}
use saga_market_order.Order.Commands as OrderCommands
use saga_market_order.Order.Run.{Command}
use saga_market_order.Order.Validity.{Terms}
use saga_market_order.OrderBook.Aggregate.{LimitOrder, OrderBook, active}
use saga_market_order.OrderBook.Commands as BookCommands
use saga_market_order.Position.Aggregate as PositionAggregate
use saga_market_order.Position.Aggregate.{Position, status_open, status_closed}
use saga_market_order.EventStore.Postgres.{Link, Database}

abbrev pub at : String → OrderCommands.Stamp
at uuid = record { uuid = uuid; now = 100; later = 101 }

abbrev pub market_terms : Terms Cents
market_terms = record {
  id = "order-1";
  user_id = "user-1";
  from_amount = some 25;
  from_currency = "USD";
  to_currency = "BTC";
  order_type = "market";
}

-- What the saga does to an order that it has accepted.
abbrev pub saga_commands : List (Command Cents × OrderCommands.Stamp)
saga_commands =
    (Command.quote_price (some 5) (some 5), at "event-2")
    ∷ (Command.start_swap_execution "key-1", at "event-3")
    ∷ (
      Command.record_swap_execution "hash-1" (some 25) (some 5) (some 5) (some 1) (some 0),
      at "event-4",
    )
    ∷ (Command.complete_order, at "event-5")
    ∷ []

abbrev pub pending_order : Order Cents
pending_order = record {
  id = "order-1";
  user_id = "user-1";
  from_amount = some 25;
  from_currency = "USD";
  to_currency = "BTC";
  to_amount = some 0;
  executed_price = some 0;
  order_type = "market";
  status = pending;
  version = 1;
  created_at = 100;
  updated_at = 100;
  changes = [];
}

abbrev pub executing_order : Order Cents
executing_order = record pending_order { status = executing; version = 3 }

abbrev pub completed_order : Order Cents
completed_order = record pending_order { status = completed; version = 5 }

abbrev pub limit_order : String → Cents → Cents → String → LimitOrder Cents
limit_order id price amount side = record {
  order_id = id;
  user_id = "user-1";
  price = price;
  amount = amount;
  side = side;
  placed_at = 90;
  remaining_amount = amount;
}

abbrev pub book : OrderBook Cents
book = record {
  id = "book-1";
  trading_pair = "BTC/USD";
  buy_orders =
      limit_order "b1" (some 12) (some 7) "buy" ∷ limit_order "b2" (some 9) (some 4) "buy" ∷ [];
  sell_orders = limit_order "s1" (some 10) (some 5) "sell" ∷ [];
  last_price = some 11;
  status = active;
  version = 4;
  created_at = 80;
  updated_at = 90;
  changes = [];
}

-- The best prices of this book do not meet.
abbrev pub quiet_book : OrderBook Cents
quiet_book = record book { buy_orders = limit_order "b2" (some 9) (some 4) "buy" ∷ [] }

abbrev pub book_at : String → BookCommands.Stamp
book_at uuid = record { uuid = uuid; now = 100; later = 101 }

abbrev pub position : Position Cents
position = record {
  id = "position-1";
  user_id = "user-1";
  order_ids = [];
  remaining_amount = some 0;
  total_value = some 0;
  pnl = some 0;
  status = status_open;
  version = 1;
  created_at = 80;
  updated_at = 80;
  changes = [];
}

abbrev pub closed_position : Position Cents
closed_position = record position { status = status_closed }

abbrev pub position_at : String → PositionAggregate.Stamp
position_at uuid = record { uuid = uuid; now = 100; later = 101 }

-- A database without a failure.
abbrev pub link : Link
link = record {
  begin = none;
  insert = λ _. none;
  insert_outbox = λ _. none;
  commit = none;
  query = none;
  scan = none;
  rows = none;
}

abbrev pub empty : Database Cents
empty = record { events = []; outbox = []; processed = [] }
