-- ===== src/Tests/BookRuns.antt =====
-- Order books.
use saga_market_order.Prelude.{◌≡◌, refl, ◌⊎◌, true, false, none, some, List, [], ◌∷◌, arith}
use saga_market_order.Float.Cents.{Cents, cents_float, Cents-IsFloat}
use saga_market_order.EventSourcing.{replay, run_all}
use saga_market_order.OrderBook.Aggregate.{message, active, when}
use saga_market_order.OrderBook.Commands.{Stamp, contains}
use saga_market_order.OrderBook.Run.{Command, execute}
use saga_market_order.OrderBook.Replay.{strip, replay-book_commands}
use saga_market_order.OrderBook.Invariant.{IsValid, reduce}
use saga_market_order.OrderBook.Preservation.{execute-IsValid}
use saga_market_order.OrderBook.Matching.{
  IsCleared, match_times, match_orders_trade, match_orders_clears,
}
use saga_market_order.OrderBook.Cancel.{Removes, cancel-Removes}
use saga_market_order.Tests.InsertionSort.{insertion_sorter}
use saga_market_order.Tests.Samples.{limit_order, book, quiet_book, book_at}

book-IsValid : IsValid book
book-IsValid = record {
  buys_sorted = ground arith;
  sells_sorted = ground arith;
  buys_open = ground arith;
  sells_open = ground arith;
}

quiet_book-IsValid : IsValid quiet_book
quiet_book-IsValid = record {
  buys_sorted = ground arith;
  sells_sorted = ground arith;
  buys_open = ground arith;
  sells_open = ground arith;
}

execute-IsValid_example :
    IsValid
      (execute
        (Command.add_limit_order "b3" "user-2" (some 11) (some 3) "buy", book_at "e5")
        book).0
execute-IsValid_example =
    execute-IsValid Cents-IsFloat (Command.add_limit_order "b3" "user-2" (some 11) (some 3) "buy")
      (book_at "e5") book (refl, refl) book-IsValid

abbrev stamps : List Stamp
stamps = book_at "e5" ∷ book_at "e6" ∷ book_at "e7" ∷ []

match_orders_clears_example :
    let b' = run_all execute (match_times Cents-IsFloat stamps) book in IsCleared b' × IsValid b'
match_orders_clears_example =
    match_orders_clears Cents-IsFloat stamps book book-IsValid refl (omega arith)

match_orders_trade_example :
    let (b', err) = execute (Command.match_orders, book_at "e5") book in
    (err ≡ none)
    × (b'.buy_orders
        ≡ reduce (some 5) (limit_order "b1" (some 12) (some 7) "buy")
          ∷ limit_order "b2" (some 9) (some 4) "buy"
          ∷ [])
    × (b'.sell_orders ≡ [])
    × (b'.last_price ≡ some 11)
    × (b'.status ≡ active)
match_orders_trade_example =
    match_orders_trade Cents-IsFloat (book_at "e5") (limit_order "b1" (some 12) (some 7) "buy")
      (limit_order "s1" (some 10) (some 5) "sell") (limit_order "b2" (some 9) (some 4) "buy" ∷ [])
      [] book book-IsValid refl refl

cancel-Removes_example :
    let (b', err) = execute (Command.cancel_limit_order "b2" "buy", book_at "e5") book in
    ((contains "b2" book.buy_orders ≡ true)
      × (err ≡ none)
      × Removes "b2" book.buy_orders b'.buy_orders
      × (b'.sell_orders ≡ book.sell_orders))
    ⊎ ((contains "b2" book.buy_orders ≡ false)
        × (err ≡ some (message "order not found in order book"))
        × (b' ≡ book))
cancel-Removes_example = cancel-Removes (book_at "e5") "b2" "buy" book refl

abbrev book_commands : List (Command Cents × Stamp)
book_commands =
    (Command.match_orders, book_at "e5")
    ∷ (Command.cancel_limit_order "b2" "buy", book_at "e6")
    ∷ (Command.update_price (some 13) "oracle", book_at "e7")
    ∷ []

replay-book_commands_example :
    let b' = run_all execute book_commands book in replay when b'.changes book ≡ (strip b', none)
replay-book_commands_example = replay-book_commands book book_commands refl
