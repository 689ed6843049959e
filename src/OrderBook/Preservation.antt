-- ===== src/OrderBook/Preservation.antt =====
-- Every command keeps the order book's invariant.
use saga_market_order.Prelude.{
  ◌≡◌, inl, inr, Bool, true, false, List, [], ◌∷◌, ◌++◌, arith, String, ◌==◌, All, All-append,
  Bool-cases,
}
use saga_market_order.Prelude.Sorting.{SortSlice, IsWeakOrder, All-perm, All-mem}
use mathlib.Core.List.{Memᴰ}
use saga_market_order.Float.{Float, IsFloat}
use saga_market_order.OrderBook.Aggregate.{
  LimitOrder, OrderBook, dearer, cheaper, take_from, place, when, apply,
}
use saga_market_order.OrderBook.Commands.{Stamp, match_best, min}
use saga_market_order.OrderBook.Invariant.{
  IsOpen, IsValid, IsFinite, reduce, drop_order-All, drop_order-IsSorted, take_from-All,
  take_from-dearer, take_from-cheaper,
}
use saga_market_order.OrderBook.Run.{Command, execute}

module _ {W : Type 0} ⦃f : Float W⦄ (laws : IsFloat W) where
  open f use {finite, nought, lt, le, sub}

  reduce-IsOpen :
      (m : W) (o : LimitOrder W)
      → finite m ≡ true
      → le m nought ≡ false
      → IsOpen o
      → le (sub o.remaining_amount m) nought ≡ false
      → IsOpen (reduce m o)
  reduce-IsOpen m o fm pm h left = ground (
    arith,
    laws.sub_nonpos o.remaining_amount m,
    laws.lt-eq-not-le m o.remaining_amount,
    laws.sub_finite m o.remaining_amount,
    laws.sub-le m o.remaining_amount,
    laws.le_trans (sub o.remaining_amount m) o.remaining_amount o.amount,
  )

  lt_asym : (x y : W) → finite x ≡ true → finite y ≡ true → lt x y ≡ true → lt y x ≡ false
  lt_asym x y p q h =
      ground
        (arith, laws.lt-eq-not-le x y, laws.lt-eq-not-le y x, laws.le_total x y, laws.le_total y x)

  lt_negative :
      (x y z : W)
      → finite x ≡ true
      → finite y ≡ true
      → finite z ≡ true
      → lt x y ≡ false
      → lt y z ≡ false
      → lt x z ≡ false
  lt_negative x y z p q r h k = ground (
    arith,
    laws.lt-eq-not-le x y,
    laws.lt-eq-not-le y z,
    laws.lt-eq-not-le x z,
    laws.le_trans z y x,
  )

  dearer-IsWeakOrder : (os : List (LimitOrder W)) → All IsOpen os → IsWeakOrder dearer os
  dearer-IsWeakOrder os h = record {
    asym = λ a b p q. lt_asym b.price a.price (fin b q) (fin a p);
    negative =
        λ a b c p q r h k. lt_negative c.price b.price a.price (fin c r) (fin b q) (fin a p) k h;
  }
    where
      fin : (a : LimitOrder W) → Memᴰ a os → finite a.price ≡ true
      fin a m = (All-mem IsOpen os h m).price_finite

  cheaper-IsWeakOrder : (os : List (LimitOrder W)) → All IsOpen os → IsWeakOrder cheaper os
  cheaper-IsWeakOrder os h = record {
    asym = λ a b p q. lt_asym a.price b.price (fin a p) (fin b q);
    negative = λ a b c p q r. lt_negative a.price b.price c.price (fin a p) (fin b q) (fin c r);
  }
    where
      fin : (a : LimitOrder W) → Memᴰ a os → finite a.price ≡ true
      fin a m = (All-mem IsOpen os h m).price_finite

  module _ ⦃sorter : SortSlice (LimitOrder W)⦄ where
    sort-IsOpen :
        (less : LimitOrder W → LimitOrder W → Bool) (os : List (LimitOrder W)) (o : LimitOrder W)
        → All IsOpen os
        → IsOpen o
        → All IsOpen (sorter.sort less (os ++ o ∷ []))
    sort-IsOpen less os o h k =
        All-perm IsOpen (sorter.perm less (os ++ o ∷ [])) (All-append IsOpen os (o ∷ []) h (k, tt))

    place-IsValid :
        (o : LimitOrder W) (side : String) (b : OrderBook W)
        → IsOpen o
        → IsValid b
        → IsValid (place o side b)
    place-IsValid o side b k h = elim (Bool-cases (side == "buy")) [
      | inl buy ↦ rw buy (record {
        buys_sorted =
            sorter.sorted dearer (b.buy_orders ++ o ∷ [])
              (dearer-IsWeakOrder _ (All-append IsOpen b.buy_orders (o ∷ []) h.buys_open (k, tt)));
        sells_sorted = h.sells_sorted;
        buys_open = sort-IsOpen dearer b.buy_orders o h.buys_open k;
        sells_open = h.sells_open;
      })
      | inr sell ↦ rw sell (record {
        buys_sorted = h.buys_sorted;
        sells_sorted =
            sorter.sorted cheaper (b.sell_orders ++ o ∷ []) (
              cheaper-IsWeakOrder _
                (All-append IsOpen b.sell_orders (o ∷ []) h.sells_open (k, tt)));
        buys_open = h.buys_open;
        sells_open = sort-IsOpen cheaper b.sell_orders o h.sells_open k;
      })
    ]

    take_from-IsOpen :
        (id : String) (x y : W) (os : List (LimitOrder W))
        → finite x ≡ true
        → finite y ≡ true
        → le x nought ≡ false
        → le y nought ≡ false
        → All IsOpen os
        → All IsOpen (take_from id (min x y) os)
    take_from-IsOpen id x y os p q u v h =
        take_from-All IsOpen id (min x y) os
          (λ o k l. reduce-IsOpen (min x y) o (ground arith) (ground arith) k l) h

    match_best-IsValid :
        (s : Stamp) (buys sells : List (LimitOrder W)) (b : OrderBook W)
        → All IsOpen buys
        → All IsOpen sells
        → IsValid b
        → IsValid (match_best s buys sells b).0
    unfolding apply when
    match_best-IsValid s [] sells b p q h = h
    match_best-IsValid s (buy ∷ buys) [] b p q h = h
    match_best-IsValid s (buy ∷ buys) (sell ∷ sells) b p q h =
        let x = buy.remaining_amount in
        let y = sell.remaining_amount in
        let filled = λ (id : String) (os : List (LimitOrder W)) (k : All IsOpen os).
          take_from-IsOpen id x y os p.0.remaining_finite q.0.remaining_finite
            p.0.remaining_positive q.0.remaining_positive k in
        ground (
          arith,
          take_from-dearer buy.order_id (min x y) b.buy_orders,
          take_from-cheaper sell.order_id (min x y) b.sell_orders,
          filled buy.order_id b.buy_orders h.buys_open,
          filled sell.order_id b.sell_orders h.sells_open,
        )

    add-IsValid :
        (s : Stamp) (id user side : String) (price amount : W) (b : OrderBook W)
        → finite price ≡ true
        → finite amount ≡ true
        → IsValid b
        → IsValid (execute (Command.add_limit_order id user price amount side, s) b).0
    unfolding execute apply when
    add-IsValid s id user side price amount b p q h =
        let o : LimitOrder W = record {
          order_id = id;
          user_id = user;
          price = price;
          amount = amount;
          side = side;
          placed_at = s.later;
          remaining_amount = amount;
        } in
        ground (arith, place-IsValid o side b, laws.le_refl amount)

    -- Every command whose numbers are finite keeps the book valid: both sides stay in price order,
    -- and each order has finite values, a positive price, and a part left to fill that is positive
    -- and not above its amount.
    pub execute-IsValid :
        (c : Command W) (s : Stamp) (b : OrderBook W)
        → IsFinite c
        → IsValid b
        → IsValid (execute (c, s) b).0
    unfolding execute apply when
    execute-IsValid (Command.create_order_book id pair) s b n h = ground arith
    execute-IsValid (Command.add_limit_order id user price amount side) s b n h =
        add-IsValid s id user side price amount b n.0 n.1 h
    execute-IsValid Command.match_orders s b n h =
        ground (arith, match_best-IsValid s b.buy_orders b.sell_orders b)
    execute-IsValid (Command.cancel_limit_order id side) s b n h = ground (
      arith,
      drop_order-IsSorted dearer id b.buy_orders,
      drop_order-IsSorted cheaper id b.sell_orders,
      drop_order-All IsOpen id b.buy_orders,
      drop_order-All IsOpen id b.sell_orders,
    )
    execute-IsValid (Command.update_price price source) s b n h = ground arith
