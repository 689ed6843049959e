-- ===== src/Notification/Once.antt =====
-- How often a notification is sent, over deliveries of which any call may fail.
use saga_market_order.Format.{Piece}
use saga_market_order.Prelude.{◌≡◌, refl, sym, ◌∙◌, inl, inr, none, some, List, subst}
use saga_market_order.Float.{Float}
use saga_market_order.Order.Events.{BaseEvent}
use saga_market_order.Order.Aggregate.{Order}
use saga_market_order.Messaging.Consumer.{consume, consume-inv}
use saga_market_order.Notification.Keeps.{deliver-Keeps}
use saga_market_order.Saga.Marks.{IsMarked as IsMarkedIn, IsMarked-IsStable}
use saga_market_order.Notification.Service.{Desk, Env, notify}
use saga_market_order.Result.{success}
use saga_market_order.Notification.Delivery.{
  Delivery, reads, deliver, deliver-notify, IsMarked, Ends, notify-Ends,
}

some_inj : {A : Type 0} {x y : A} → some x ≡ some y → x ≡ y
some_inj h = cc

module _ {W : Type 0} ⦃f : Float W⦄ where
  success-IsMarked :
      (env : Env) (e : BaseEvent W) (message : Order W → List (Piece W)) (s s' : Desk W)
      → Ends env e message s (s', success)
      → IsMarked e.event_id s'
  success-IsMarked env e message s s' (inl (same, h)) = rw same h
  success-IsMarked env e message s s' (inr (o, g, sent, h)) = h

  skips :
      (env : Env) (e : BaseEvent W) (message : Order W → List (Piece W)) (s : Desk W)
      → env.check ≡ none
      → IsMarked e.event_id s
      → notify env e message s ≡ (s, success)
  unfolding notify
  skips env e message s c h = rw (c, h) refl

  deliver-reads :
      (d : Delivery W) (s : Desk W) (e : BaseEvent W) (message : Order W → List (Piece W))
      → reads d ≡ some (e, message)
      → deliver d s ≡ notify d.1 e message s
  deliver-reads d s e message r = elim (deliver-notify d s) [
    | inl (nothing, _) ↦ cc
    | inr (x, m, h, ends) ↦
        subst (λ (y : BaseEvent W × (Order W → List (Piece W))). deliver d s ≡ notify d.1 y.0 y.1 s)
          (some_inj (sym h ∙ r)) ends
  ]

  delivered-IsMarked :
      (d : Delivery W) (s s' : Desk W) (e : BaseEvent W) (message : Order W → List (Piece W))
      → reads d ≡ some (e, message)
      → deliver d s ≡ (s', success)
      → IsMarked e.event_id s'
  delivered-IsMarked d s s' e message r done = success-IsMarked d.1 e message s s' (
      subst (Ends d.1 e message s) (sym (deliver-reads d s e message r) ∙ done)
        (notify-Ends d.1 e message s))

  -- Behind a delivery that has ended without an error, its event is not told again: each further
  -- delivery of the event, to either handler, ends without an error too, sends nothing and
  -- changes nothing, if its check is answered. This holds behind any number of other deliveries
  -- in between, whatever failed in them.
  pub notified_once :
      (d d' : Delivery W) (e e' : BaseEvent W) (message message' : Order W → List (Piece W))
      (s s' : Desk W) (between : List (Delivery W))
      → reads d ≡ some (e, message)
      → reads d' ≡ some (e', message')
      → e'.event_id ≡ e.event_id
      → d'.1.check ≡ none
      → deliver d s ≡ (s', success)
      → let s'' = (consume deliver between s').0 in deliver d' s'' ≡ (s'', success)
  notified_once d d' e e' message message' s s' between r r' same c done =
      let marked = delivered-IsMarked d s s' e message r done in
      let s'' = (consume deliver between s').0 in
      let kept : IsMarked e.event_id s'' =
        consume-inv deliver (IsMarked e.event_id)
          (deliver-Keeps (IsMarkedIn e.event_id) (IsMarked-IsStable e.event_id)) between s'
          marked in
      deliver-reads d' s'' e' message' r' ∙ skips d'.1 e' message' s'' c (rw same kept)
