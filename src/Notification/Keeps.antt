-- ===== src/Notification/Keeps.antt =====
-- What no change of the tables takes away from the database, no delivery takes away.
use saga_market_order.Format.{Piece}
use saga_market_order.Prelude.{String, inl, inr, Bool, true, false, Option, none, some, List}
use saga_market_order.Float.{Float}
use saga_market_order.Order.Events.{BaseEvent}
use saga_market_order.Order.Aggregate.{Order}
use saga_market_order.Repository.Store.{get_order}
use saga_market_order.EventStore.Postgres.{Database}
use saga_market_order.Saga.Keeps.{IsStable}
use saga_market_order.Notification.Service.{
  Notification, Desk, Env, processed, told, on_result, unless_processed, notify,
}
use saga_market_order.Result.{Result, ok, err, Ending}
use saga_market_order.Notification.Delivery.{
  Delivery, deliver, deliver-notify, notification, loading,
}

module _ {W : Type 0} ⦃f : Float W⦄ (P : Database W → Type 0) (stable : IsStable P) where
  told-Keeps :
      (send mark : Option String) (e : BaseEvent W) (n : Notification W) (s : Desk W)
      → P s.database
      → P (told send mark e n s).0.database
  told-Keeps (some m) mark e n s h = h
  told-Keeps none (some m) e n s h = h
  told-Keeps none none e n s h = stable.marked _ s.database h

  on_result-Keeps :
      {A : Type 0} (r : Result W A) (s : Desk W) (k : A → Desk W × Ending W)
      → P s.database
      → ((a : A) → P (k a).0.database)
      → P (on_result r s k).0.database
  on_result-Keeps (ok a) s k h g = g a
  on_result-Keeps (err x) s k h g = h

  unless-Keeps :
      (b : Bool) (s : Desk W) (out : Desk W × Ending W)
      → P s.database
      → P out.0.database
      → P (unless_processed b s out).0.database
  unless-Keeps true s out h k = h
  unless-Keeps false s out h k = k

  notify-Keeps :
      (env : Env) (e : BaseEvent W) (message : Order W → List (Piece W)) (s : Desk W)
      → P s.database
      → P (notify env e message s).0.database
  unfolding notify
  notify-Keeps env e message s h =
      let sending = λ (b : Bool). unless_processed b s (loading env e message s) in
      on_result-Keeps (processed env.check e.event_id s) s sending h λ b.
        unless-Keeps b s (loading env e message s) h (
          on_result-Keeps (get_order env.load e.aggregate_id s.database) s
            (λ o. told env.send env.mark e (notification message o) s) h
            λ o. told-Keeps env.send env.mark e (notification message o) s h)

  pub deliver-Keeps : (d : Delivery W) (s : Desk W) → P s.database → P (deliver d s).0.database
  deliver-Keeps d s h = elim (deliver-notify d s) [
    | inl (_, same) ↦ rw same h
    | inr (e, message, _, same) ↦ rw same (notify-Keeps d.1 e message s h)
  ]
