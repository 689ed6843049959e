-- ===== src/Position/Replay.antt =====
-- Event sourcing: replaying the recorded events of a position gives the position.
use saga_market_order.Prelude.{
  ◌≡◌, refl, sym, inl, inr, none, List, [], Option, Bool, true, false, if◌then◌else◌,
}
use saga_market_order.EventSourcing
use saga_market_order.EventSourcing.{replay, run_all}
use saga_market_order.Float.{Float}
use saga_market_order.Position.Events.{Event, position_created, unknown}
use saga_market_order.Position.Aggregate.{Position, Error, Outcome, Stamp, when, apply}
use saga_market_order.Position.Run.{Command, execute}

-- The position without its unsaved events.
abbrev pub strip : {W : Type 0} → Position W → Position W
strip p = record p { changes = [] }

strip_lem : {W : Type 0} (p : Position W) → p.changes ≡ [] → strip p ≡ p
strip_lem p h = λ i. record p { changes = sym h i }

abbrev is_known : {W : Type 0} → Event W → Bool
is_known (unknown _) = false
is_known _ = true

module _ {W : Type 0} ⦃f : Float W⦄ where
  abbrev IsLawful : Position W → Outcome W → Type 0
  IsLawful = EventSourcing.IsLawful when (λ p. p.changes) strip

  if_rule :
      (c : Bool) (p : Position W) (x y : Outcome W)
      → IsLawful p x
      → IsLawful p y
      → IsLawful p (if c then x else y)
  if_rule true p x y h k = h
  if_rule false p x y h k = k

  refuse-IsLawful : (p : Position W) (err : Option Error) → IsLawful p (p, err)
  refuse-IsLawful p err = inl refl

  apply-IsLawful : (e : Event W) (p : Position W) → is_known e ≡ true → IsLawful p (apply e p)
  unfolding apply when
  apply-IsLawful (unknown _) p h = cc
  apply-IsLawful (position_created e) p h =
      inr (refl, record { event = position_created e; appended = refl; replays = refl })
  apply-IsLawful e p h = inr (refl, record { event = e; appended = refl; replays = refl })

  execute-IsLawful : (c : Command W × Stamp) (p : Position W) → IsLawful p (execute c p)
  unfolding execute
  execute-IsLawful (Command.create_position id user, s) p = search apply-IsLawful
  execute-IsLawful (_, s) p = search (if_rule, refuse-IsLawful, apply-IsLawful)

  -- Whatever commands are given to a position with no unsaved events, replaying the events that they
  -- record on the position as it was gives the position as it is, but for the list of unsaved
  -- events.
  pub replay-position_commands :
      (p : Position W) (cs : List (Command W × Stamp))
      → p.changes ≡ []
      → let p' = run_all execute cs p in replay when p'.changes p ≡ (strip p', none)
  replay-position_commands p cs h =
      EventSourcing.replay-run_all when (λ p. p.changes) strip strip_lem execute execute-IsLawful cs
        p h
