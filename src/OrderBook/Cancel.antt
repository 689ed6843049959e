-- ===== src/OrderBook/Cancel.antt =====
-- Cancelling: exactly one order leaves the book.
use saga_market_order.Prelude.{
  ◌≡◌, refl, ap, ◌⊎◌, inl, inr, true, false, none, some, List, [], ◌∷◌, ◌++◌, arith, String, ◌==◌,
  eq_iff, if◌then◌else◌, Bool-cases,
}
use saga_market_order.Prelude.Sorting.{SortSlice}
use saga_market_order.Float.{Float}
use saga_market_order.OrderBook.Aggregate.{
  active, message, LimitOrder, OrderBook, drop_order, when, apply,
}
use saga_market_order.OrderBook.Commands.{Stamp, contains}
use saga_market_order.OrderBook.Run.{Command, execute}

-- `after` is `before` without its first order of the id.
pub record Removes {W : Type 0} (id : String) (before after : List (LimitOrder W)) : Type 0 where
  pub front : List (LimitOrder W)
  pub order : LimitOrder W
  pub back : List (LimitOrder W)
  pub was : before ≡ front ++ order ∷ back
  pub is : after ≡ front ++ back
  pub named : order.order_id ≡ id
  pub first : contains id front ≡ false

-- The list that a side names, and the other one.
abbrev pub side_of : {W : Type 0} → String → OrderBook W → List (LimitOrder W)
side_of side b = if side == "buy" then b.buy_orders else b.sell_orders

abbrev pub other_side_of : {W : Type 0} → String → OrderBook W → List (LimitOrder W)
other_side_of side b = if side == "buy" then b.sell_orders else b.buy_orders

module _ {W : Type 0} ⦃f : Float W⦄ where
  drop_order-Removes :
      (id : String) (os : List (LimitOrder W))
      → contains id os ≡ true
      → Removes id os (drop_order id os)
  unfolding drop_order contains
  drop_order-Removes id [] h = cc
  drop_order-Removes id (o ∷ os) h = elim (Bool-cases (o.order_id == id)) [
    | inl same ↦ rw same (record {
      front = [];
      order = o;
      back = os;
      was = refl;
      is = refl;
      named = (eq_iff o.order_id id).0 same;
      first = refl;
    })
    | inr differs ↦
        let r = drop_order-Removes id os (rw (differs, contains) at h) in
        rw differs (record {
          front = o ∷ r.front;
          order = r.order;
          back = r.back;
          was = ap (λ l. o ∷ l) r.was;
          is = ap (λ l. o ∷ l) r.is;
          named = r.named;
          first = rw differs r.first;
        })
  ]

  module _ ⦃sorter : SortSlice (LimitOrder W)⦄ where
    -- On an active book `CancelLimitOrder` succeeds exactly if the side that it names holds an order
    -- of the id. Then the first such order leaves that side, all others and the other side stay;
    -- if there is none, the book is left as it was, with the error.
    pub cancel-Removes :
        (s : Stamp) (id side : String) (b : OrderBook W)
        → b.status ≡ active
        → let (b', err) = execute (Command.cancel_limit_order id side, s) b in
          ((contains id (side_of side b) ≡ true)
            × (err ≡ none)
            × Removes id (side_of side b) (side_of side b')
            × (other_side_of side b' ≡ other_side_of side b))
          ⊎ ((contains id (side_of side b) ≡ false)
              × (err ≡ some (message "order not found in order book"))
              × (b' ≡ b))
    unfolding execute apply when
    cancel-Removes s id side b a = elim (Bool-cases (contains id (side_of side b))) [
      | inl found ↦
          let after = (execute (Command.cancel_limit_order id side, s) b).0 in
          let e : side_of side after ≡ drop_order id (side_of side b) = ground arith in
          inl
            (found, ground arith, rw e (drop_order-Removes id (side_of side b) found), ground arith)
      | inr missing ↦ inr (missing, ground arith, ground arith)
    ]
