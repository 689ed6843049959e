-- ===== src/Order/Validity.antt =====
-- The terms of an order: what `AcceptOrder` checks, and what the later commands keep of it.
use saga_market_order.Prelude.{
  ◌≡◌, refl, ◌∙◌, ap, ◌↔◌, map, Bool, true, false, none, List, [], ◌∷◌, arith, String, ◌==◌, ◌||◌,
  All, foldl,
}
use saga_market_order.Float.{Float}
use saga_market_order.Order.Aggregate.{pending, executing, Order, apply, when}
use saga_market_order.Order.Commands.{Stamp}
use saga_market_order.Order.Run.{Command, execute, execute_all}
use saga_market_order.Order.Versions.{is_accept}

abbrev pub is_update : {W : Type 0} → Command W → Bool
is_update (Command.update_order _) = true
is_update _ = false

-- Neither `AcceptOrder` nor `UpdateOrder` is among the commands.
abbrev pub KeepTerms : {W : Type 0} → List (Command W × Stamp) → Type 0
KeepTerms = All (λ c. (is_accept c.0 || is_update c.0) ≡ false)

-- The fields that say what was ordered.
pub record Terms (W : Type 0) : Type 0 where
  pub id : String
  pub user_id : String
  pub from_amount : W
  pub from_currency : String
  pub to_currency : String
  pub order_type : String

abbrev pub terms_of : {W : Type 0} → Order W → Terms W
terms_of o = record {
  id = o.id;
  user_id = o.user_id;
  from_amount = o.from_amount;
  from_currency = o.from_currency;
  to_currency = o.to_currency;
  order_type = o.order_type;
}

-- A fill: the amount, the price at which it was made and the hash of its transaction.
abbrev pub Fill : Type 0 → Type 0
Fill W = W × W × String

module _ {W : Type 0} ⦃f : Float W⦄ where
  open f use {nought, ten, lt, le, add}

  -- The terms that the validation lets through.
  pub record IsValid (t : Terms W) : Type 0 where
    pub positive : le t.from_amount nought ≡ false
    pub minimum : lt t.from_amount ten ≡ false
    pub kind : (t.order_type == "market" || t.order_type == "limit") ≡ true

  abbrev pub accept : Terms W → Command W
  accept t =
      Command.accept_order t.id t.user_id t.from_amount t.from_currency t.to_currency t.order_type

  accept_sound :
      (s : Stamp) (t : Terms W) (o : Order W)
      → (execute (accept t) s o).1 ≡ none
      → IsValid t
        × (terms_of (execute (accept t) s o).0 ≡ t)
        × ((execute (accept t) s o).0.status ≡ pending)
  unfolding execute apply when
  accept_sound s t o h = (ground arith, ground arith, ground arith)

  accept_complete :
      (s : Stamp) (t : Terms W) (o : Order W) → IsValid t → (execute (accept t) s o).1 ≡ none
  unfolding execute apply when
  accept_complete s t o v = ground arith

  execute-terms_of :
      (c : Command W) (s : Stamp) (o : Order W)
      → (is_accept c || is_update c) ≡ false
      → terms_of (execute c s o).0 ≡ terms_of o
  unfolding execute apply when
  execute-terms_of (Command.accept_order _ _ _ _ _ _) s o h = cc
  execute-terms_of (Command.update_order _) s o h = cc
  execute-terms_of _ s o h = ground arith

  execute_all-terms_of :
      (cs : List (Command W × Stamp)) (o : Order W)
      → KeepTerms cs
      → terms_of (execute_all cs o) ≡ terms_of o
  unfolding execute_all
  execute_all-terms_of [] o h = refl
  execute_all-terms_of ((c, s) ∷ cs) o h =
      execute_all-terms_of cs (execute c s o).0 h.1 ∙ execute-terms_of c s o h.0

  -- `AcceptOrder` succeeds exactly on an amount that is positive and at least 10 and on the type
  -- "market" or "limit".
  pub accept_iff :
      (s : Stamp) (t : Terms W) (o : Order W) → ((execute (accept t) s o).1 ≡ none) ↔ IsValid t
  accept_iff s t o = (λ h. (accept_sound s t o h).0, accept_complete s t o)

  -- After `AcceptOrder` has succeeded, the order holds the terms that it was given, and these passed
  -- the validation, whatever commands follow, unless one is `AcceptOrder` or `UpdateOrder`.
  pub accepted_terms :
      (s : Stamp) (t : Terms W) (o : Order W) (cs : List (Command W × Stamp))
      → (execute (accept t) s o).1 ≡ none
      → KeepTerms cs
      → let o' = execute_all cs (execute (accept t) s o).0 in
        (terms_of o' ≡ t) × IsValid (terms_of o')
  accepted_terms s t o cs h keep =
      let (valid, same, _) = accept_sound s t o h in
      let e : terms_of (execute_all cs (execute (accept t) s o).0) ≡ t =
        execute_all-terms_of cs _ keep ∙ same in
      (e, rw e valid)

  abbrev pub fill : Fill W → Command W
  fill (amount, price, hash) = Command.partially_fill amount price hash

  -- What `PartiallyFill` lets through: each amount by itself is positive and not above `FromAmount`.
  abbrev pub Fits : W → Fill W → Type 0
  Fits total (amount, _, _) = (le amount nought || lt total amount) ≡ false

  fill_lem :
      (x : Fill W) (s : Stamp) (o : Order W)
      → o.status ≡ executing
      → Fits o.from_amount x
      → let (o', err) = execute (fill x) s o in
        (err ≡ none)
        × (o'.status ≡ executing)
        × (o'.from_amount ≡ o.from_amount)
        × (o'.to_amount ≡ add o.to_amount x.0)
  unfolding execute apply when
  fill_lem x s o e h = ground arith

  abbrev pub add_fill : W → Fill W × Stamp → W
  add_fill sum (x, _) = add sum x.0

  abbrev pub as_command : Fill W × Stamp → Command W × Stamp
  as_command (x, s) = (fill x, s)

  -- An executing order takes any number of fills of which each is positive and not above
  -- `FromAmount`, and adds them all to `ToAmount`: their sum is not compared with anything.
  pub fills_add_up :
      (xs : List (Fill W × Stamp)) (o : Order W)
      → o.status ≡ executing
      → All (λ x. Fits o.from_amount x.0) xs
      → let o' = execute_all (map as_command xs) o in
        (o'.status ≡ executing) × (o'.to_amount ≡ foldl add_fill o.to_amount xs)
  unfolding execute_all
  fills_add_up [] o e h = (e, refl)
  fills_add_up ((x, s) ∷ xs) o e h =
      let (_, still, total, sum) = fill_lem x s o e h.0 in
      let (done, rest) = fills_add_up xs (execute (fill x) s o).0 still (rw total h.1) in
      (done, rest ∙ ap (λ a. foldl add_fill a xs) sum)
