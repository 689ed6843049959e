-- ===== src/Saga/Once.antt =====
-- An event that a step has handled with success stays marked, whatever is delivered behind it.
use saga_market_order.Saga.Redelivery.{handle-IsMarked}
use saga_market_order.Prelude.{String, ◌≡◌, ap, none, some, List}
use saga_market_order.Float.{Float}
use saga_market_order.Json.{Object}
use saga_market_order.Messaging.Consumer.{consume, consume-inv}
use saga_market_order.Saga.World.{World, Outcome, success, is_processed}
use saga_market_order.Saga.Steps.{Step, check_of, mark_of, IsServed, id_of, handle}
use saga_market_order.Saga.Skips.{processed_skipped}
use saga_market_order.Saga.Keeps.{handle-Keeps}
use saga_market_order.Saga.Marks.{IsMarked, IsMarked-IsStable}

-- A delivery: the step that it is made to, with what that step's calls meet, and the body.
abbrev pub Delivery : Type 0 → Type 0
Delivery W = Step W × Object W

module _ {W : Type 0} ⦃f : Float W⦄ where
  -- The saga's handlers at work on what the broker delivers.
  abbrev pub deliver : Delivery W → World W → Outcome W
  deliver (step, o) w = handle step o w

  -- Over a bus that may deliver again: a step that has returned nil on a message, with the price
  -- service and the trade worker not failing and with the check and the mark answered by the
  -- database, has the message skipped whenever a step gets it again with a check that is
  -- answered, however many other messages have been delivered to any of the steps in between, and
  -- whatever failed in them: the handler returns nil and changes nothing, publishes nothing and
  -- asks for no swap.
  pub acknowledged_once :
      (step step' : Step W) (event_data : Object W) (w w' : World W) (id : String)
      (between : List (Delivery W))
      → IsServed step
      → id_of step event_data ≡ some id
      → id_of step' event_data ≡ some id
      → check_of step ≡ none
      → check_of step' ≡ none
      → mark_of step ≡ none
      → handle step event_data w ≡ (w', success)
      → let w'' = (consume deliver between w').0 in handle step' event_data w'' ≡ (w'', success)
  acknowledged_once step step' o w w' id between served h h' c c' n done =
      let marked =
        (handle-IsMarked step o w id served h c n).marked (ap (λ (x : Outcome W). x.1) done) in
      let kept =
        consume-inv deliver (λ (w : World W). IsMarked id w.database)
          (λ (d : Delivery W) w. handle-Keeps (IsMarked id) (IsMarked-IsStable id) d.0 d.1 w)
          between w' (rw done at marked) in
      processed_skipped step' o (consume deliver between w').0 id h'
        (unfold is_processed in rw c' kept)
