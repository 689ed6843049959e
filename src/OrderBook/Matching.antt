-- ===== src/OrderBook/Matching.antt =====
-- Matching: what one call of `MatchOrders` does, and that repeated calls clear the book.
use saga_market_order.Prelude.{
  ◌+◌, ◌≤◌, ◌<◌, ◌≡◌, refl, ap, ◌∙◌, inl, inr, Bool, true, false, none, List, [], ◌∷◌, arith,
  if◌then◌else◌, All, Bool-cases, length, map,
}
use saga_market_order.EventSourcing.{run_all}
use saga_market_order.Prelude.Sorting.{SortSlice, IsSorted}
use text.Mathlib.TextPositions.{eq_refl}
use saga_market_order.Float.{Float, IsFloat}
use saga_market_order.OrderBook.Aggregate.{
  active, LimitOrder, OrderBook, Outcome, dearer, cheaper, when, apply,
}
use saga_market_order.OrderBook.Commands.{Stamp, match_best}
use saga_market_order.OrderBook.Invariant.{IsOpen, IsValid, reduce}
use saga_market_order.OrderBook.Preservation.{execute-IsValid}
use saga_market_order.OrderBook.Run.{Command, execute}

module _ {W : Type 0} ⦃f : Float W⦄ where
  open f use {le}

  -- The best two orders cross: the test of `MatchOrders`.
  abbrev pub crosses : List (LimitOrder W) → List (LimitOrder W) → Bool
  crosses [] sells = false
  crosses (buy ∷ buys) [] = false
  crosses (buy ∷ buys) (sell ∷ sells) = le sell.price buy.price

  -- No buy order of the book meets the price of a sell order.
  abbrev pub IsCleared : OrderBook W → Type 0
  IsCleared b =
      All (λ buy. All (λ sell. le sell.price buy.price ≡ false) b.sell_orders) b.buy_orders

module _ {W : Type 0} ⦃f : Float W⦄ (laws : IsFloat W) where
  open f use {finite, nought, two, lt, le, add, sub, div}

  -- If the best prices do not meet, no prices do.
  apart :
      (buy sell x y : LimitOrder W)
      → IsOpen buy
      → IsOpen sell
      → IsOpen x
      → IsOpen y
      → le sell.price buy.price ≡ false
      → lt buy.price x.price ≡ false
      → lt y.price sell.price ≡ false
      → le y.price x.price ≡ false
  apart buy sell x y p q u v h k l = ground (
    arith,
    laws.lt-eq-not-le buy.price x.price,
    laws.lt-eq-not-le y.price sell.price,
    laws.le_trans sell.price y.price x.price,
    laws.le_trans sell.price x.price buy.price,
  )

  rest_sells :
      (buy sell x : LimitOrder W) (sells : List (LimitOrder W))
      → IsOpen buy
      → IsOpen sell
      → IsOpen x
      → All IsOpen sells
      → le sell.price buy.price ≡ false
      → lt buy.price x.price ≡ false
      → All (λ y. lt y.price sell.price ≡ false) sells
      → All (λ y. le y.price x.price ≡ false) sells
  rest_sells buy sell x [] p q u v h k l = tt
  rest_sells buy sell x (y ∷ sells) p q u v h k l =
      (apart buy sell x y p q u v.0 h k l.0, rest_sells buy sell x sells p q u v.1 h k l.1)

  rest_buys :
      (buy sell : LimitOrder W) (buys sells : List (LimitOrder W))
      → IsOpen buy
      → IsOpen sell
      → All IsOpen buys
      → All IsOpen (sell ∷ sells)
      → le sell.price buy.price ≡ false
      → All (λ x. lt buy.price x.price ≡ false) buys
      → All (λ y. lt y.price sell.price ≡ false) (sell ∷ sells)
      → All (λ x. All (λ y. le y.price x.price ≡ false) (sell ∷ sells)) buys
  rest_buys buy sell [] sells p q u v h k l = tt
  rest_buys buy sell (x ∷ buys) sells p q u v h k l = (
    rest_sells buy sell x (sell ∷ sells) p q u.0 v h k.0 l,
    rest_buys buy sell buys sells p q u.1 v h k.1 l,
  )

  lt_irrefl : (x : W) → finite x ≡ true → lt x x ≡ false
  lt_irrefl x h = ground (arith, laws.lt-eq-not-le x x, laws.le_refl x)

  no_sells :
      (buys : List (LimitOrder W))
      → All (λ x. All (λ (y : LimitOrder W). le y.price x.price ≡ false) []) buys
  no_sells [] = tt
  no_sells (x ∷ buys) = (tt, no_sells buys)

  crosses-IsCleared :
      (buys sells : List (LimitOrder W))
      → IsSorted dearer buys
      → IsSorted cheaper sells
      → All IsOpen buys
      → All IsOpen sells
      → crosses buys sells ≡ false
      → All (λ x. All (λ y. le y.price x.price ≡ false) sells) buys
  crosses-IsCleared [] sells _ _ _ _ _ = tt
  crosses-IsCleared (buy ∷ buys) [] _ _ _ _ _ = (tt, no_sells buys)
  crosses-IsCleared (buy ∷ buys) (sell ∷ sells) k l p q c =
      rest_buys buy sell (buy ∷ buys) sells p.0 q.0 p q c
        (lt_irrefl buy.price p.0.price_finite, k.0) (lt_irrefl sell.price q.0.price_finite, l.0)

  module _ ⦃sorter : SortSlice (LimitOrder W)⦄ where
    -- On a valid, active book whose best orders do not cross, `MatchOrders` does nothing, and
    -- rightly: no buy order of the book reaches the price of any sell order.
    pub match_orders_idle :
        (s : Stamp) (b : OrderBook W)
        → IsValid b
        → b.status ≡ active
        → crosses b.buy_orders b.sell_orders ≡ false
        → (execute (Command.match_orders, s) b ≡ (b, none)) × IsCleared b
    unfolding execute
    match_orders_idle s b h a c = (
      ground (arith, idle b.buy_orders b.sell_orders c),
      crosses-IsCleared b.buy_orders b.sell_orders h.buys_sorted h.sells_sorted h.buys_open
          h.sells_open c,
    )
      where
        idle :
            (buys sells : List (LimitOrder W))
            → crosses buys sells ≡ false
            → match_best s buys sells b ≡ (b, none)
        idle [] sells c = refl
        idle (buy ∷ buys) [] c = refl
        idle (buy ∷ buys) (sell ∷ sells) c = rw c

    -- A book with these best orders.
    abbrev pub with_best :
        LimitOrder W
        → LimitOrder W
        → List (LimitOrder W)
        → List (LimitOrder W)
        → OrderBook W
        → OrderBook W
    with_best buy sell buys sells c = record c {
      buy_orders = buy ∷ buys;
      sell_orders = sell ∷ sells;
    }

    -- Where the best orders of a valid, active book cross, `MatchOrders` trades the smaller of
    -- their remaining amounts at the middle of their prices: an order that has no more left than
    -- the other leaves the book, and one that has more stays at its place with the rest. All other
    -- orders stay as they are.
    pub match_orders_trade :
        (s : Stamp) (buy sell : LimitOrder W) (buys sells : List (LimitOrder W)) (c : OrderBook W)
        → IsValid (with_best buy sell buys sells c)
        → c.status ≡ active
        → le sell.price buy.price ≡ true
        → let (b', err) = execute (Command.match_orders, s) (with_best buy sell buys sells c) in
          let bought = buy.remaining_amount in
          let sold = sell.remaining_amount in
          (err ≡ none)
          × (b'.buy_orders ≡ (if le bought sold then buys else reduce sold buy ∷ buys))
          × (b'.sell_orders ≡ (if le sold bought then sells else reduce bought sell ∷ sells))
          × (b'.last_price ≡ div (add buy.price sell.price) two)
          × (b'.status ≡ active)
    unfolding execute apply when
    match_orders_trade s buy sell buys sells c h a x =
        let bought = buy.remaining_amount in
        let sold = sell.remaining_amount in
        ground (
          arith,
          eq_refl buy.order_id,
          eq_refl sell.order_id,
          laws.lt-eq-not-le bought sold,
          laws.lt-eq-not-le sold bought,
          laws.le_refl bought,
          laws.le_refl sold,
          laws.le_total bought sold,
          laws.sub_nonpos bought bought,
          laws.sub_nonpos sold sold,
          laws.sub_nonpos bought sold,
          laws.sub_pos bought sold,
          laws.sub_pos sold bought,
        )

    match_progress :
        (s : Stamp) (buys sells : List (LimitOrder W)) (c : OrderBook W)
        → let b = record c { buy_orders = buys; sell_orders = sells } in
          let b' = (execute (Command.match_orders, s) b).0 in
          IsValid b
          → c.status ≡ active
          → crosses buys sells ≡ true
          → (length b'.buy_orders + length b'.sell_orders < length buys + length sells)
            × (b'.status ≡ active)
    match_progress s [] sells c h a x = cc
    match_progress s (buy ∷ buys) [] c h a x = cc
    match_progress s (buy ∷ buys) (sell ∷ sells) c h a x = ground (
      arith,
      match_orders_trade s buy sell buys sells c h a x,
      laws.le_total buy.remaining_amount sell.remaining_amount,
    )

    abbrev pub match_times : List Stamp → List (Command W × Stamp)
    match_times = map (λ s. (Command.match_orders, s))

    idle_times :
        (ss : List Stamp) (b : OrderBook W)
        → IsValid b
        → b.status ≡ active
        → crosses b.buy_orders b.sell_orders ≡ false
        → run_all execute (match_times ss) b ≡ b
    unfolding run_all
    idle_times [] b h a c = refl
    idle_times (s ∷ ss) b h a c =
        ap (λ (p : Outcome W). run_all execute (match_times ss) p.0) (match_orders_idle s b h a c).0
        ∙ idle_times ss b h a c

    empty_crosses :
        (buys sells : List (LimitOrder W))
        → length buys + length sells ≤ 0
        → crosses buys sells ≡ false
    empty_crosses [] sells n = refl
    empty_crosses (buy ∷ buys) sells n = absurd (omega arith)

    -- As many calls of `MatchOrders` as there are orders in a valid, active book clear it: no buy
    -- order reaches the price of a sell order afterwards. The book stays valid.
    pub match_orders_clears :
        (ss : List Stamp) (b : OrderBook W)
        → IsValid b
        → b.status ≡ active
        → length b.buy_orders + length b.sell_orders ≤ length ss
        → let b' = run_all execute (match_times ss) b in IsCleared b' × IsValid b'
    unfolding run_all
    match_orders_clears [] b h a n = (
      crosses-IsCleared b.buy_orders b.sell_orders h.buys_sorted h.sells_sorted h.buys_open
          h.sells_open (empty_crosses b.buy_orders b.sell_orders n),
      h,
    )
    match_orders_clears (s ∷ ss) b h a n = elim (Bool-cases (crosses b.buy_orders b.sell_orders)) [
      | inl c ↦
          let (less, still) = match_progress s b.buy_orders b.sell_orders b h a c in
          match_orders_clears ss (execute (Command.match_orders, s) b).0
            (execute-IsValid laws Command.match_orders s b tt h) still (omega arith)
      | inr c ↦ rw (idle_times (s ∷ ss) b h a c) ((match_orders_idle s b h a c).1, h)
    ]
