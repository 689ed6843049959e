-- ===== src/Order/Readable.antt =====
-- The commands of the saga and of the use cases record events that the stores read back.
use saga_market_order.Prelude.{
  ◌≡◌, Bool, true, false, none, some, List, [], ◌∷◌, All, All-append, if◌then◌else◌,
}
use saga_market_order.Float.{Float}
use saga_market_order.Order.Events.{Event, base_of, type_name}
use saga_market_order.Order.Aggregate.{Order, Outcome, record_change, when, apply}
use saga_market_order.Order.Commands.{Stamp}
use saga_market_order.Order.Emits.{when-changes}
use saga_market_order.Order.Roundtrip.{is_stored}
use saga_market_order.Order.Run.{Command, execute, execute_all}

-- An event that its aggregate's store can read back: of a stored type that it names rightly.
abbrev pub IsReadable : {W : Type 0} → Event W → Type 0
IsReadable e = (is_stored e ≡ true) × ((base_of e).event_type ≡ type_name e)

-- The commands that the use cases and the saga give.
abbrev pub is_core : {W : Type 0} → Command W → Bool
is_core (Command.accept_order _ _ _ _ _ _) = true
is_core (Command.quote_price _ _) = true
is_core (Command.start_swap_execution _) = true
is_core (Command.record_swap_execution _ _ _ _ _ _) = true
is_core Command.complete_order = true
is_core (Command.fail_order _) = true
is_core _ = false

abbrev pub AreCore : {W : Type 0} → List (Command W × Stamp) → Type 0
AreCore = All (λ c. is_core c.0 ≡ true)

module _ {W : Type 0} ⦃f : Float W⦄ where
  abbrev Reads : Outcome W → Type 0
  Reads out = All IsReadable out.0.changes

  if_rule : (b : Bool) (x y : Outcome W) → Reads x → Reads y → Reads (if b then x else y)
  if_rule true x y p q = p
  if_rule false x y p q = q

  record-Reads :
      (e : Event W) (out : Outcome W) → IsReadable e → Reads out → Reads (record_change e out)
  record-Reads e (o, none) r h = All-append IsReadable o.changes (e ∷ []) h (r, tt)
  record-Reads e (o, some x) r h = h

  apply-Reads :
      (e : Event W) (o : Order W)
      → is_stored e ≡ true
      → (base_of e).event_type ≡ type_name e
      → All IsReadable o.changes
      → Reads (apply e o)
  unfolding apply
  apply-Reads e o s t h = record-Reads e (when e o) (s, t) (rw (when-changes e o) h)

  ruleset reads = (if_rule, apply-Reads)

  execute-Reads :
      (c : Command W) (s : Stamp) (o : Order W)
      → is_core c ≡ true
      → All IsReadable o.changes
      → Reads (execute c s o)
  unfolding execute
  execute-Reads (Command.accept_order _ _ _ _ _ _) s o k h = search reads
  execute-Reads (Command.quote_price _ _) s o k h = search reads
  execute-Reads (Command.start_swap_execution _) s o k h = search reads
  execute-Reads (Command.record_swap_execution _ _ _ _ _ _) s o k h = search reads
  execute-Reads Command.complete_order s o k h = search reads
  execute-Reads (Command.fail_order _) s o k h = search reads
  execute-Reads _ s o k h = cc

  -- Whatever commands of the use cases and the saga are given to an order, refused ones among them:
  -- if each of its unsaved events is one that the stores read back, so are those that it has
  -- afterwards.
  pub execute_all-Reads :
      (cs : List (Command W × Stamp)) (o : Order W)
      → AreCore cs
      → All IsReadable o.changes
      → All IsReadable (execute_all cs o).changes
  unfolding execute_all
  execute_all-Reads [] o k h = h
  execute_all-Reads ((c, s) ∷ cs) o k h =
      execute_all-Reads cs (execute c s o).0 k.1 (execute-Reads c s o k.0 h)
