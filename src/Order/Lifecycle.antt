-- ===== src/Order/Lifecycle.antt =====
-- The life of an order: the transitions of its status, and what ends it.
use saga_market_order.Prelude.{
  ◌≡◌, refl, ap, ◌⊎◌, inl, inr, Bool, true, false, List, [], ◌∷◌, arith, String,
}
use saga_market_order.Float.{Float}
use saga_market_order.Order.Aggregate.{
  OrderStatus, unset, pending, executing, completed, failed, Order, apply, when,
}
use saga_market_order.Order.Commands.{Stamp}
use saga_market_order.Order.Run.{Command, execute, execute_all}
use saga_market_order.Order.Emits.{update_fields_same}
use saga_market_order.Order.Versions.{is_accept, AreFollowUps}

abbrev pub is_quiet : OrderStatus → Bool
is_quiet executing = false
is_quiet completed = false
is_quiet _ = true

infix 40 ◌⟶◌
pub data ◌⟶◌ : OrderStatus → OrderStatus → Type 0 where
  start : pending ⟶ executing
  finish : executing ⟶ completed
  drop_unset : unset ⟶ failed
  drop_pending : pending ⟶ failed
  drop_executing : executing ⟶ failed

ruleset edges = (start, finish, drop_unset, drop_pending, drop_executing)

abbrev is_start : {W : Type 0} → Command W → Bool
is_start (Command.start_swap_execution _) = true
is_start _ = false

abbrev is_complete : {W : Type 0} → Command W → Bool
is_complete Command.complete_order = true
is_complete _ = false

clash : {st : OrderStatus} → is_quiet st ≡ true → st ≡ completed → ⊥
clash q d = cc (ap is_quiet d, q)

clash_executing : {st : OrderStatus} → st ≡ executing → st ≡ completed → ⊥
clash_executing q d = cc

module _ {W : Type 0} ⦃f : Float W⦄ where
  -- A command other than `AcceptOrder` leaves the status, or moves it from pending to executing,
  -- from executing to completed, or to failed from any status but completed and failed.
  pub status_moves :
      (c : Command W) (s : Stamp) (o : Order W)
      → is_accept c ≡ false
      → ((execute c s o).0.status ≡ o.status) ⊎ (o.status ⟶ (execute c s o).0.status)
  unfolding execute apply when
  status_moves (Command.accept_order _ _ _ _ _ _) s o h = cc
  status_moves (Command.update_order params) s o h = ground (arith, update_fields_same params o)
  status_moves _ s o h = grind (arith, edges)

  abbrev pub IsOver : Order W → Type 0
  IsOver o = (o.status ≡ completed) ⊎ (o.status ≡ failed)

  execute_over :
      (c : Command W) (s : Stamp) (o : Order W)
      → is_accept c ≡ false
      → IsOver o
      → (execute c s o).0 ≡ o
  unfolding execute apply when
  execute_over (Command.accept_order _ _ _ _ _ _) s o h over = cc
  execute_over _ s o h over = ground arith

  -- A completed or failed order is final: no commands but `AcceptOrder` change anything of it.
  pub execute_all_over :
      (cs : List (Command W × Stamp)) (o : Order W)
      → AreFollowUps cs
      → IsOver o
      → execute_all cs o ≡ o
  unfolding execute_all
  execute_all_over [] o h over = refl
  execute_all_over ((c, s) ∷ cs) o h over =
      rw (execute_over c s o h.0 over) (execute_all_over cs o h.1 over)

  -- `CompleteOrder` is among the commands.
  pub data Completes : List (Command W × Stamp) → Type 0 where
    here :
        (s : Stamp) (cs : List (Command W × Stamp)) → Completes ((Command.complete_order, s) ∷ cs)
    later :
        (c : Command W × Stamp) {cs : List (Command W × Stamp)} → Completes cs → Completes (c ∷ cs)

  -- `StartSwapExecution` is among the commands, and `CompleteOrder` behind it.
  pub data SwapsThenCompletes : List (Command W × Stamp) → Type 0 where
    swap :
        (key : String) (s : Stamp) {cs : List (Command W × Stamp)}
        → Completes cs
        → SwapsThenCompletes ((Command.start_swap_execution key, s) ∷ cs)
    skip :
        (c : Command W × Stamp) {cs : List (Command W × Stamp)}
        → SwapsThenCompletes cs
        → SwapsThenCompletes (c ∷ cs)

  forget_swap : {cs : List (Command W × Stamp)} → SwapsThenCompletes cs → Completes cs
  forget_swap (swap key s p) = later (Command.start_swap_execution key, s) p
  forget_swap (skip c p) = later c (forget_swap p)

  -- Where one command can take an order.
  start_quiet :
      (key : String) (s : Stamp) (o : Order W)
      → let o' = (execute (Command.start_swap_execution key) s o).0 in
        is_quiet o.status ≡ true → (is_quiet o'.status ≡ true) ⊎ (o'.status ≡ executing)
  unfolding execute apply when
  start_quiet key s o q = ground arith

  step_quiet :
      (c : Command W) (s : Stamp) (o : Order W)
      → is_start c ≡ false
      → is_quiet o.status ≡ true
      → is_quiet (execute c s o).0.status ≡ true
  unfolding execute apply when
  step_quiet (Command.start_swap_execution key) s o n q = cc
  step_quiet (Command.update_order params) s o n q = ground (arith, update_fields_same params o)
  step_quiet _ s o n q = ground arith

  step_executing :
      (c : Command W) (s : Stamp) (o : Order W)
      → is_complete c ≡ false
      → o.status ≡ executing
      → ((execute c s o).0.status ≡ executing) ⊎ (is_quiet (execute c s o).0.status ≡ true)
  unfolding execute apply when
  step_executing Command.complete_order s o n q = cc
  step_executing (Command.update_order params) s o n q = ground (arith, update_fields_same params o)
  step_executing _ s o n q = ground arith

  mutual
    unfolding execute_all

    quiet_lem :
        (cs : List (Command W × Stamp)) (o : Order W)
        → is_quiet o.status ≡ true
        → (execute_all cs o).status ≡ completed
        → SwapsThenCompletes cs
    quiet_lem [] o q d = absurd (clash q d)
    quiet_lem ((Command.start_swap_execution key, s) ∷ cs) o q d = elim (start_quiet key s o q) [
      | inl still ↦ skip _ (quiet_lem cs _ still d)
      | inr going ↦ swap key s (executing_lem cs _ going d)
    ]
    quiet_lem ((c, s) ∷ cs) o q d = skip (c, s) (quiet_lem cs _ (step_quiet c s o refl q) d)

    executing_lem :
        (cs : List (Command W × Stamp)) (o : Order W)
        → o.status ≡ executing
        → (execute_all cs o).status ≡ completed
        → Completes cs
    executing_lem [] o q d = absurd (clash_executing q d)
    executing_lem ((Command.complete_order, s) ∷ cs) o q d = here s cs
    executing_lem ((c, s) ∷ cs) o q d = elim (step_executing c s o refl q) [
      | inl still ↦ later (c, s) (executing_lem cs _ still d)
      | inr quiet ↦ later (c, s) (forget_swap (quiet_lem cs _ quiet d))
    ]

  -- An order that is neither executing nor completed is completed only by commands among which
  -- `StartSwapExecution` stands before `CompleteOrder`.
  pub completed_needs_swap :
      (cs : List (Command W × Stamp)) (o : Order W)
      → is_quiet o.status ≡ true
      → (execute_all cs o).status ≡ completed
      → SwapsThenCompletes cs
  completed_needs_swap cs o q d = quiet_lem cs o q d
