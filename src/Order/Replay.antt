-- ===== src/Order/Replay.antt =====
-- Event sourcing: replaying the recorded events of an order gives the order.
use saga_market_order.Prelude.{◌≡◌, inl, inr, none, List, [], ◌∷◌, subst, sym}
use saga_market_order.EventSourcing
use saga_market_order.EventSourcing.{replay}
use saga_market_order.Float.{Float}
use saga_market_order.Order.Aggregate.{Order, when}
use saga_market_order.Order.Commands.{Stamp}
use saga_market_order.Order.Run.{Command, execute, execute_all}
use saga_market_order.Order.Emits.{strip, execute-IsLawful}

module _ {W : Type 0} ⦃f : Float W⦄ where
  abbrev IsReplay : Order W → Order W → Type 0
  IsReplay = EventSourcing.IsReplay when (λ o. o.changes) strip

  IsLawful-step :
      (c : Command W) (s : Stamp) (o : Order W)
      → EventSourcing.IsLawful when (λ o. o.changes) strip o (execute c s o)
  IsLawful-step c s o = elim (execute-IsLawful c s o) [
    | inl same ↦ inl same
    | inr (succeeds, e) ↦ inr (succeeds, e.step)
  ]

  execute-IsReplay :
      (base o : Order W) (c : Command W) (s : Stamp)
      → IsReplay base o
      → IsReplay base (execute c s o).0
  execute-IsReplay base o c s h =
      EventSourcing.IsLawful-IsReplay when (λ o. o.changes) strip base o (execute c s o)
        (IsLawful-step c s o) h

  execute_all-IsReplay :
      (base o : Order W) (cs : List (Command W × Stamp))
      → IsReplay base o
      → IsReplay base (execute_all cs o)
  unfolding execute_all
  execute_all-IsReplay base o [] h = h
  execute_all-IsReplay base o ((c, s) ∷ cs) h =
      execute_all-IsReplay base (execute c s o).0 cs (execute-IsReplay base o c s h)

  unsaved-IsReplay : (o : Order W) → o.changes ≡ [] → IsReplay o o
  unfolding replay
  unsaved-IsReplay o h =
      subst (λ l. replay when l o ≡ (strip o, none)) (sym h)
        (λ i. (record o { changes = h i }, none))

  -- Whatever commands are given to an order with no unsaved events, refused ones among them,
  -- replaying the events that they record on the order as it was gives the order as it is, but for
  -- the list of unsaved events, and raises no error.
  pub replay-execute_all :
      (o : Order W) (cs : List (Command W × Stamp))
      → o.changes ≡ []
      → replay when (execute_all cs o).changes o ≡ (strip (execute_all cs o), none)
  replay-execute_all o cs h = execute_all-IsReplay o o cs (unsaved-IsReplay o h)
