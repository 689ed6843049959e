-- ===== src/Notification/Delivery.antt =====
-- How the two handlers of the notification service end.
use mathlib.Core.Option
use saga_market_order.Format.{Piece}
use saga_market_order.Prelude.{
  String, ◌≡◌, ◌≢◌, refl, ◌⊎◌, inl, inr, Bool, true, false, Option, none, some, List, [], ◌∷◌, ◌++◌,
  Option-cases,
}
use saga_market_order.Float.{Float}
use saga_market_order.Json.{Object}
use saga_market_order.Order.Events.{BaseEvent}
use saga_market_order.Order.Codec.{unmarshal_order_completed, unmarshal_order_failed}
use saga_market_order.Order.Aggregate.{Order}
use saga_market_order.Repository.Store.{get_order}
use saga_market_order.Saga.World.{has_row}
use saga_market_order.Saga.Redelivery.{insert_processed-has_row}
use saga_market_order.Notification.Service.{
  Notification, Desk, Env, processed, told, on_result, unless_processed, notify,
  handle_order_completed, handle_order_failed, completed_text, failed_text,
}
use saga_market_order.Result.{Result, ok, err, Ending, success, fails, panics, text}

-- The two subscriptions.
pub data Kind : Type 0 where
  completes fails_order : Kind

-- A delivery: which handler gets it, what its calls meet, and the body.
abbrev pub Delivery : Type 0 → Type 0
Delivery W = Kind × Env × Object W

module _ {W : Type 0} ⦃f : Float W⦄ where
  -- The event that a delivery decodes to, and the text that its handler makes of an order.
  unfoldable pub reads : Delivery W → Option (BaseEvent W × (Order W → List (Piece W)))
  unfolding unmarshal_order_completed unmarshal_order_failed completed_text failed_text
  reads (completes, env, o) =
      Option.map (λ e. (e.base, completed_text)) (unmarshal_order_completed o)
  reads (fails_order, env, o) = Option.map (λ e. (e.base, failed_text e)) (unmarshal_order_failed o)

  abbrev pub deliver : Delivery W → Desk W → Desk W × Ending W
  deliver (completes, env, o) = handle_order_completed env o
  deliver (fails_order, env, o) = handle_order_failed env o

  pub deliver-notify :
      (d : Delivery W) (s : Desk W)
      → ((reads d ≡ none) × (deliver d s ≡ (s, fails (text "invalid JSON"))))
        ⊎ ((e : BaseEvent W) × (message : Order W → List (Piece W)) × (reads d ≡ some (e, message))
            × (deliver d s ≡ notify d.1 e message s))
  unfolding reads handle_order_completed handle_order_failed
  deliver-notify (completes, env, o) s = elim (Option-cases (unmarshal_order_completed o)) [
    | inl e ↦ inl (rw e refl, rw e refl)
    | inr (evt, e) ↦ inr (evt.base, completed_text, rw e refl, rw e refl)
  ]
  deliver-notify (fails_order, env, o) s = elim (Option-cases (unmarshal_order_failed o)) [
    | inl e ↦ inl (rw e refl, rw e refl)
    | inr (evt, e) ↦ inr (evt.base, failed_text evt, rw e refl, rw e refl)
  ]

  abbrev pub IsMarked : String → Desk W → Type 0
  IsMarked id s = has_row id s.database.processed ≡ true

  -- The notification that a handler makes of the order that it loads.
  abbrev pub notification : (Order W → List (Piece W)) → Order W → Notification W
  notification message o = record { user_id = o.user_id; message = message o }

  -- How a handler ends behind the decoding: it has skipped an event that is marked; it has sent one
  -- notification and marked the event; it has failed and changed nothing; or it has sent one and
  -- failed to mark the event.
  abbrev pub Ends :
      Env → BaseEvent W → (Order W → List (Piece W)) → Desk W → Desk W × Ending W → Type 0
  Ends env e message s (s', success) =
      ((s' ≡ s) × IsMarked e.event_id s)
      ⊎ ((o : Order W) × (get_order env.load e.aggregate_id s.database ≡ ok o)
          × (s'.sent ≡ s.sent ++ notification message o ∷ [])
          × IsMarked e.event_id s')
  Ends env e message s (s', fails x) =
      (s' ≡ s)
      ⊎ ((o : Order W) × (get_order env.load e.aggregate_id s.database ≡ ok o)
          × (s' ≡ record s { sent = s.sent ++ notification message o ∷ [] })
          × (env.mark ≢ none))
  Ends env e message s (s', panics) = ⊥

  -- Behind the idempotency check.
  abbrev pub loading : Env → BaseEvent W → (Order W → List (Piece W)) → Desk W → Desk W × Ending W
  loading env e message s =
      on_result (get_order env.load e.aggregate_id s.database) s
        λ o. told env.send env.mark e (notification message o) s

  told-Ends :
      (env : Env) (send mark : Option String) (e : BaseEvent W) (message : Order W → List (Piece W))
      (s : Desk W) (o : Order W)
      → mark ≡ env.mark
      → get_order env.load e.aggregate_id s.database ≡ ok o
      → Ends env e message s (told send mark e (notification message o) s)
  told-Ends env (some m) mark e message s o h g = inl refl
  told-Ends env none (some m) e message s o h g = inr (o, g, refl, λ k. cc)
  told-Ends env none none e message s o h g =
      inr (o, g, refl, insert_processed-has_row _ s.database.processed)

  loaded-Ends :
      (env : Env) (e : BaseEvent W) (message : Order W → List (Piece W)) (s : Desk W)
      (r : Result W (Order W))
      → get_order env.load e.aggregate_id s.database ≡ r
      → Ends env e message s
          (on_result r s λ o. told env.send env.mark e (notification message o) s)
  loaded-Ends env e message s (err x) h = inl refl
  loaded-Ends env e message s (ok o) h = told-Ends env env.send env.mark e message s o refl h

  checked-Ends :
      (env : Env) (e : BaseEvent W) (message : Order W → List (Piece W)) (s : Desk W) (b : Bool)
      (out : Desk W × Ending W)
      → has_row e.event_id s.database.processed ≡ b
      → Ends env e message s out
      → Ends env e message s (unless_processed b s out)
  checked-Ends env e message s true out h k = inl (refl, h)
  checked-Ends env e message s false out h k = k

  pub notify-Ends :
      (env : Env) (e : BaseEvent W) (message : Order W → List (Piece W)) (s : Desk W)
      → Ends env e message s (notify env e message s)
  unfolding notify
  notify-Ends env e message s = by_check env.check
    where
      by_check :
          (check : Option String)
          → Ends env e message s (
              on_result (processed check e.event_id s) s λ is_processed.
                unless_processed is_processed s (
                  on_result
                    (get_order env.load e.aggregate_id s.database)
                    s
                    λ o. told env.send env.mark e (notification message o) s))
      by_check (some m) = inl refl
      by_check none = checked-Ends env e message s _ _ refl (loaded-Ends env e message s _ refl)

  -- Every delivery ends in one of five ways. Its body does not decode, which is an error and
  -- changes nothing. Without an error, the event was marked and nothing is done, or the user of
  -- the loaded order is sent one notification and the event is then marked. With an error,
  -- nothing has changed, or the notification was sent and only the marking failed.
  pub deliver-Ends :
      (d : Delivery W) (s : Desk W)
      → ((reads d ≡ none) × (deliver d s ≡ (s, fails (text "invalid JSON"))))
        ⊎ ((e : BaseEvent W) × (message : Order W → List (Piece W)) × (reads d ≡ some (e, message))
            × Ends d.1 e message s (deliver d s))
  deliver-Ends d s = elim (deliver-notify d s) [
    | inl refused ↦ inl refused
    | inr (e, message, h, same) ↦ inr (e, message, h, rw same (notify-Ends d.1 e message s))
  ]
