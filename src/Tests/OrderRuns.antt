-- ===== src/Tests/OrderRuns.antt =====
-- Orders.
use saga_market_order.Prelude.{
  ◌≡◌, refl, inl, none, some, List, [], ◌∷◌, arith, map, All, length, ◌+◌,
}
use saga_market_order.Float.Cents.{Cents, cents_float}
use saga_market_order.EventSourcing.{replay}
use saga_market_order.Order.Events.{Event, base_of, order_completed}
use saga_market_order.Order.Aggregate.{when, apply, new_order, executing, completed}
use saga_market_order.Order.Codec.{marshal, deserialize}
use saga_market_order.Order.Roundtrip.{deserialize-marshal}
use saga_market_order.Order.Run.{Command, execute, execute_all}
use saga_market_order.Order.Emits.{strip, IsLawful, execute-IsLawful}
use saga_market_order.Order.Replay.{replay-execute_all}
use saga_market_order.Order.Versions.{numbers, versions-execute_all}
use saga_market_order.Order.Lifecycle.{execute_all_over, SwapsThenCompletes, completed_needs_swap}
use saga_market_order.Order.Validity.{
  terms_of, IsValid, accept, accepted_terms, Fill, as_command, fills_add_up,
}
use saga_market_order.Order.Commands.{Stamp}
use saga_market_order.Tests.Samples.{
  at, market_terms, saga_commands, pending_order, executing_order, completed_order,
}

replay-execute_all_example :
    replay when (execute_all saga_commands pending_order).changes pending_order
    ≡ (strip (execute_all saga_commands pending_order), none)
replay-execute_all_example = replay-execute_all pending_order saga_commands refl

execute-IsLawful_example :
    IsLawful pending_order (execute Command.complete_order (at "event-2") pending_order)
execute-IsLawful_example = execute-IsLawful Command.complete_order (at "event-2") pending_order

saga_run_versions : length (execute_all saga_commands pending_order).changes ≡ 4
unfolding execute_all execute apply when
saga_run_versions = refl

versions-execute_all_example :
    let o' = execute_all saga_commands pending_order in
    (map (λ e. (base_of e).version) o'.changes ≡ numbers 1 o'.changes)
    × All (λ e. (base_of e).aggregate_id ≡ "order-1") o'.changes
    × (o'.version ≡ 1 + length o'.changes)
versions-execute_all_example =
    versions-execute_all pending_order saga_commands refl (refl, (refl, (refl, (refl, tt))))
      (omega (arith, saga_run_versions))

saga_run_completes : (execute_all saga_commands pending_order).status ≡ completed
unfolding execute_all execute apply when
saga_run_completes = refl

completed_needs_swap_example : SwapsThenCompletes saga_commands
completed_needs_swap_example =
    completed_needs_swap saga_commands pending_order refl saga_run_completes

execute_all_over_example : execute_all saga_commands completed_order ≡ completed_order
execute_all_over_example =
    execute_all_over saga_commands completed_order (refl, (refl, (refl, (refl, tt)))) (inl refl)

accepted : (execute (accept market_terms) (at "event-1") new_order).1 ≡ none
unfolding execute apply when
accepted = refl

accepted_terms_example :
    let o' = execute_all saga_commands (execute (accept market_terms) (at "event-1") new_order).0 in
    (terms_of o' ≡ market_terms) × IsValid (terms_of o')
accepted_terms_example =
    accepted_terms (at "event-1") market_terms new_order saga_commands accepted
      (refl, (refl, (refl, (refl, tt))))

-- Two fills that are together above the amount.
abbrev two_fills : List (Fill Cents × Stamp)
two_fills =
    ((some 20, some 5, "hash-1"), at "event-4") ∷ ((some 20, some 5, "hash-2"), at "event-5") ∷ []

fills_add_up_example :
    let o' = execute_all (map as_command two_fills) executing_order in
    (o'.status ≡ executing) × (o'.to_amount ≡ some 40)
fills_add_up_example = fills_add_up two_fills executing_order refl (refl, (refl, tt))

abbrev completed_event : Event Cents
completed_event = order_completed record {
  base = record {
    event_id = "event-5";
    aggregate_id = "order-1";
    aggregate_type = "Order";
    event_type = "OrderCompleted";
    version = 5;
    timestamp = 100;
    metadata = [];
  };
  from_amount = some 25;
  to_amount = some 5;
  executed_price = some 5;
  status = "completed";
}

completed_event_stored : (o : _) × (marshal completed_event ≡ some o)
unfolding marshal
completed_event_stored = (_, refl)

deserialize-marshal_example :
    deserialize "OrderCompleted" completed_event_stored.0 ≡ some completed_event
deserialize-marshal_example = deserialize-marshal completed_event refl completed_event_stored.1
