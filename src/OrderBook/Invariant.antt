-- ===== src/OrderBook/Invariant.antt =====
-- The order book's invariant: both sides are in price order, and every order in the book is open.
use saga_market_order.Prelude.{◌≡◌, Bool, true, false, List, [], ◌∷◌, arith, String, All}
use saga_market_order.Prelude.Sorting.{IsSorted}
use saga_market_order.Float.{Float}
use saga_market_order.OrderBook.Aggregate.{
  LimitOrder, OrderBook, dearer, cheaper, take_from, drop_order,
}
use saga_market_order.OrderBook.Run.{Command}

module _ {W : Type 0} ⦃f : Float W⦄ where
  open f use {finite, nought, lt, le, sub}

  -- An order of the book: finite values, a positive price, and a part of the amount left to fill.
  pub record IsOpen (o : LimitOrder W) : Type 0 where
    pub price_finite : finite o.price ≡ true
    pub price_positive : le o.price nought ≡ false
    pub amount_finite : finite o.amount ≡ true
    pub remaining_finite : finite o.remaining_amount ≡ true
    pub remaining_positive : le o.remaining_amount nought ≡ false
    pub remaining_le : le o.remaining_amount o.amount ≡ true

  pub record IsValid (b : OrderBook W) : Type 0 where
    pub buys_sorted : IsSorted dearer b.buy_orders
    pub sells_sorted : IsSorted cheaper b.sell_orders
    pub buys_open : All IsOpen b.buy_orders
    pub sells_open : All IsOpen b.sell_orders

  -- The numbers of a command are finite, as those read from JSON are.
  abbrev pub IsFinite : Command W → Type 0
  IsFinite (Command.add_limit_order _ _ price amount _) =
      (finite price ≡ true) × (finite amount ≡ true)
  IsFinite _ = Unit

  pub drop_order-All :
      (P : LimitOrder W → Type 0) (id : String) (os : List (LimitOrder W))
      → All P os
      → All P (drop_order id os)
  unfolding drop_order
  drop_order-All P id [] h = tt
  drop_order-All P id (o ∷ os) h = ground (arith, drop_order-All P id os)

  pub drop_order-IsSorted :
      (less : LimitOrder W → LimitOrder W → Bool) (id : String) (os : List (LimitOrder W))
      → IsSorted less os
      → IsSorted less (drop_order id os)
  unfolding drop_order
  drop_order-IsSorted less id [] h = tt
  drop_order-IsSorted less id (o ∷ os) h =
      ground (arith, drop_order-IsSorted less id os, drop_order-All (λ x. less x o ≡ false) id os)

  -- The order with another part left to fill.
  abbrev pub reduce : W → LimitOrder W → LimitOrder W
  reduce matched o = record o { remaining_amount = sub o.remaining_amount matched }

  pub take_from-All :
      (P : LimitOrder W → Type 0) (id : String) (m : W) (os : List (LimitOrder W))
      → ((o : LimitOrder W) → P o → le (sub o.remaining_amount m) nought ≡ false → P (reduce m o))
      → All P os
      → All P (take_from id m os)
  unfolding take_from
  take_from-All P id m [] k h = tt
  take_from-All P id m (o ∷ os) k h = ground (arith, k o h.0, take_from-All P id m os k)

  pub take_from-dearer :
      (id : String) (m : W) (os : List (LimitOrder W))
      → IsSorted dearer os
      → IsSorted dearer (take_from id m os)
  unfolding take_from
  take_from-dearer id m [] h = tt
  take_from-dearer id m (o ∷ os) h = ground (
    arith,
    take_from-dearer id m os,
    take_from-All (λ x. dearer x o ≡ false) id m os (λ y p _. p),
  )

  pub take_from-cheaper :
      (id : String) (m : W) (os : List (LimitOrder W))
      → IsSorted cheaper os
      → IsSorted cheaper (take_from id m os)
  unfolding take_from
  take_from-cheaper id m [] h = tt
  take_from-cheaper id m (o ∷ os) h = ground (
    arith,
    take_from-cheaper id m os,
    take_from-All (λ x. cheaper x o ≡ false) id m os (λ y p _. p),
  )
