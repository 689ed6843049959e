-- ===== src/OrderBook/Replay.antt =====
-- Event sourcing: replaying the recorded events of an order book gives the book.
use saga_market_order.Prelude.{
  ◌≡◌, refl, ap, sym, inl, inr, none, List, [], ◌∷◌, ◌++◌, arith, Option, Bool, true, false,
  if◌then◌else◌,
}
use saga_market_order.Prelude.Sorting.{SortSlice}
use saga_market_order.EventSourcing
use saga_market_order.EventSourcing.{replay, run_all, run_all_inv}
use saga_market_order.Float.{Float}
use saga_market_order.OrderBook.Events.{Event, order_book_created, unknown}
use saga_market_order.OrderBook.Aggregate.{LimitOrder, OrderBook, Error, Outcome, when, apply}
use saga_market_order.OrderBook.Commands.{Stamp, match_best}
use saga_market_order.OrderBook.Run.{Command, execute}

-- The book without its unsaved events.
abbrev pub strip : {W : Type 0} → OrderBook W → OrderBook W
strip b = record b { changes = [] }

strip_lem : {W : Type 0} (b : OrderBook W) → b.changes ≡ [] → strip b ≡ b
strip_lem b h = λ i. record b { changes = sym h i }

abbrev is_known : {W : Type 0} → Event W → Bool
is_known (unknown _) = false
is_known _ = true

module _ {W : Type 0} ⦃f : Float W⦄ ⦃sorter : SortSlice (LimitOrder W)⦄ where
  abbrev IsLawful : OrderBook W → Outcome W → Type 0
  IsLawful = EventSourcing.IsLawful when (λ b. b.changes) strip

  if_rule :
      (c : Bool) (b : OrderBook W) (x y : Outcome W)
      → IsLawful b x
      → IsLawful b y
      → IsLawful b (if c then x else y)
  if_rule true b x y p q = p
  if_rule false b x y p q = q

  refuse-IsLawful : (b : OrderBook W) (err : Option Error) → IsLawful b (b, err)
  refuse-IsLawful b err = inl refl

  when-strip : (e : Event W) (b : OrderBook W) → (when e (strip b)).0 ≡ strip (when e b).0
  unfolding when
  when-strip (order_book_created e) b = refl
  when-strip _ b = ground arith

  when-changes : (e : Event W) (b : OrderBook W) → (when e b).0.changes ≡ b.changes
  unfolding when
  when-changes (order_book_created e) b = refl
  when-changes _ b = ground arith

  apply-IsLawful : (e : Event W) (b : OrderBook W) → is_known e ≡ true → IsLawful b (apply e b)
  unfolding apply when
  apply-IsLawful (unknown _) b h = cc
  apply-IsLawful e b h = inr (
    refl,
    record {
      event = e;
      appended = ap (λ l. l ++ e ∷ []) (when-changes e b);
      replays = ap (λ p. (p, none)) (when-strip e b);
    },
  )

  match_best-IsLawful :
      (s : Stamp) (buys sells : List (LimitOrder W)) (b : OrderBook W)
      → IsLawful b (match_best s buys sells b)
  match_best-IsLawful s [] sells b = inl refl
  match_best-IsLawful s (buy ∷ buys) [] b = inl refl
  match_best-IsLawful s (buy ∷ buys) (sell ∷ sells) b =
      search (if_rule, refuse-IsLawful, apply-IsLawful)

  execute-IsLawful : (c : Command W × Stamp) (b : OrderBook W) → IsLawful b (execute c b)
  unfolding execute
  execute-IsLawful (Command.match_orders, s) b =
      search (if_rule, refuse-IsLawful, match_best-IsLawful)
  execute-IsLawful (Command.create_order_book id pair, s) b = search (apply-IsLawful)
  execute-IsLawful (_, s) b = search (if_rule, refuse-IsLawful, apply-IsLawful) depth 7

  -- Whatever commands are given to a book with no unsaved events, replaying the events that they
  -- record on the book as it was gives the book as it is, but for the list of unsaved events.
  pub replay-book_commands :
      (b : OrderBook W) (cs : List (Command W × Stamp))
      → b.changes ≡ []
      → let b' = run_all execute cs b in replay when b'.changes b ≡ (strip b', none)
  replay-book_commands b cs h =
      EventSourcing.replay-run_all when (λ b. b.changes) strip strip_lem execute execute-IsLawful cs
        b h
