-- ===== src/Messaging/Consumer.antt =====
-- infrastructure/messaging/rabbitmq.go: the goroutine of `Subscribe`, which hands each delivery to
-- the handler and answers it. The broker chooses the deliveries and their order.
use saga_market_order.Prelude.{List, [], ◌∷◌}
use saga_market_order.Result.{Ending, success, fails, panics}

pub data Verdict : Type 0 where
  acked requeued : Verdict

module _ {W A S : Type 0} (handler : A → S → S × Ending W) where
  abbrev answered : Verdict → S × List Verdict → S × List Verdict
  answered v (s, verdicts) = (s, v ∷ verdicts)

  -- `Nack` with requeue on an error, else `Ack`. A panic ends the loop, and the process.
  abbrev reply : Ending W → S → S × List Verdict → S × List Verdict
  reply success s rest = answered acked rest
  reply (fails e) s rest = answered requeued rest
  reply panics s rest = (s, [])

  -- The loop over `msgs`. Behind a panic no delivery has a verdict.
  unfoldable pub consume : List A → S → S × List Verdict
  consume [] s = (s, [])
  consume (d ∷ ds) s = let (s', end) = handler d s in reply end s' (consume ds s')

  -- The invariant rule of the loop.
  pub consume-inv :
      (P : S → Type 0)
      → ((d : A) (s : S) → P s → P (handler d s).0)
      → (ds : List A) (s : S) → P s
      → P (consume ds s).0
  unfolding consume
  consume-inv P keep [] s h = h
  consume-inv P keep (d ∷ ds) s h =
      let (s', end) = handler d s in
      replied end s' (consume ds s') (keep d s h) (consume-inv P keep ds s' (keep d s h))
    where
      replied :
          (end : Ending W) (s : S) (rest : S × List Verdict)
          → P s
          → P rest.0
          → P (reply end s rest).0
      replied success s rest h k = k
      replied (fails e) s rest h k = k
      replied panics s rest h k = h
