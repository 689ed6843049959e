-- ===== src/Position/Orders.antt =====
-- The orders of a position: what `AddOrder` gathers while the position is open.
use saga_market_order.Prelude.{
  ◌≡◌, refl, ap, sym, ◌∙◌, List, [], ◌∷◌, ◌++◌, arith, String, Bool, true, false, foldl, map,
  append_assoc, append-nil, All, eq_iff,
}
use saga_market_order.EventSourcing.{run_all}
use saga_market_order.Float.{Float}
use saga_market_order.Position.Aggregate.{Position, Stamp, status_open, status_closed, when, apply}
use saga_market_order.Position.Run.{Command, execute}

-- An order that joins a position: its id, its amount, the total value and the profit or loss.
pub record Joining (W : Type 0) : Type 0 where
  pub order_id : String
  pub to_amount : W
  pub total_value : W
  pub pnl : W

abbrev pub join : {W : Type 0} → Joining W × Stamp → Command W × Stamp
join (j, s) = (Command.add_order j.order_id j.to_amount j.total_value j.pnl, s)

abbrev pub ids_of : {W : Type 0} → List (Joining W × Stamp) → List String
ids_of = map (λ j. j.0.order_id)

abbrev pub is_create : {W : Type 0} → Command W → Bool
is_create (Command.create_position _ _) = true
is_create _ = false

module _ {W : Type 0} ⦃f : Float W⦄ where
  open f use {add}

  add_order_lem :
      (j : Joining W) (s : Stamp) (p : Position W)
      → p.status ≡ status_open
      → let p' = (execute (join (j, s)) p).0 in
        (p'.status ≡ status_open)
        × (p'.order_ids ≡ p.order_ids ++ j.order_id ∷ [])
        × (p'.remaining_amount ≡ add p.remaining_amount j.to_amount)
  unfolding execute apply when
  add_order_lem j s p h = ground (arith, eq_iff p.status status_open)

  abbrev pub add_amount : W → Joining W × Stamp → W
  add_amount sum (j, _) = add sum j.to_amount

  -- An open position gathers every order that is added: their ids in order, and the sum of their
  -- amounts, added from the left. It stays open.
  pub add_orders :
      (js : List (Joining W × Stamp)) (p : Position W)
      → p.status ≡ status_open
      → let p' = run_all execute (map join js) p in
        (p'.status ≡ status_open)
        × (p'.order_ids ≡ p.order_ids ++ ids_of js)
        × (p'.remaining_amount ≡ foldl add_amount p.remaining_amount js)
  unfolding run_all
  add_orders [] p h = (h, sym (append-nil _), refl)
  add_orders ((j, s) ∷ js) p h =
      let (still, ids, sum) = add_order_lem j s p h in
      let (done, rest, total) = add_orders js (execute (join (j, s)) p).0 still in
      (
        done,
        rest
            ∙ ap (λ l. l ++ ids_of js) ids
            ∙ append_assoc p.order_ids (j.order_id ∷ []) (ids_of js),
        total ∙ ap (λ a. foldl add_amount a js) sum,
      )

  over :
      (c : Command W) (s : Stamp) (p : Position W)
      → is_create c ≡ false
      → p.status ≡ status_closed
      → (execute (c, s) p).0 ≡ p
  unfolding execute
  over (Command.create_position _ _) s p n h = cc
  over (Command.add_order _ _ _ _) s p n h = rw h refl
  over (Command.close_position _) s p n h = ground (arith, eq_iff p.status status_closed)

  -- A closed position is final: no commands but `CreatePosition` change anything of it.
  pub closed_is_final :
      (cs : List (Command W × Stamp)) (p : Position W)
      → All (λ c. is_create c.0 ≡ false) cs
      → p.status ≡ status_closed
      → run_all execute cs p ≡ p
  unfolding run_all
  closed_is_final [] p n h = refl
  closed_is_final ((c, s) ∷ cs) p n h =
      ap (run_all execute cs) (over c s p n.0 h) ∙ closed_is_final cs p n.1 h
