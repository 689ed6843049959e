-- ===== src/Api/Times.antt =====
-- The times of the history: the timestamps of an order's first and last event.
use saga_market_order.Prelude.{
  ◌≡◌, refl, ap, sym, ◌∙◌, Bool, true, false, none, List, [], ◌∷◌, map, All,
}
use saga_market_order.Float.{Float}
use saga_market_order.EventSourcing.{replay}
use saga_market_order.Json.{Object}
use saga_market_order.EventStore.Serializer.{BaseFields, order_event, serialize_event}
use saga_market_order.EventStore.Postgres.{Row, row_of}
use saga_market_order.Order.Events.{Event, Time, base_of, OrderAccepted}
use saga_market_order.Order.Roundtrip.{is_stored}
use saga_market_order.Order.Readable.{IsReadable}
use saga_market_order.Order.Aggregate.{Order, Outcome, new_order, when}
use saga_market_order.AggregateStore.Orders.{serialized_order, replay_cons}
use saga_market_order.Result.{ok}
use saga_market_order.Api.History.{last_created_at}

abbrev pub is_acceptance : {W : Type 0} → Event W → Bool
is_acceptance (Event.order_accepted _) = true
is_acceptance _ = false

module _ {W : Type 0} ⦃f : Float W⦄ where
  row_time :
      (e : Event W) (s : Object W × BaseFields)
      → serialize_event (order_event e) ≡ ok s
      → (row_of s).created_at ≡ (base_of e).timestamp
  row_time e s h = let (_, b) = serialized_order e s h in ap (λ (x : BaseFields). x.timestamp) b

  times :
      (c u : Time) (o' : Order W) (x : Outcome W)
      → x ≡ (o', none)
      → x.0.created_at ≡ c
      → x.0.updated_at ≡ u
      → (o'.created_at ≡ c) × (o'.updated_at ≡ u)
  times c u o' x h created updated = (
    sym (ap (λ (y : Outcome W). y.0.created_at) h) ∙ created,
    sym (ap (λ (y : Outcome W). y.0.updated_at) h) ∙ updated,
  )

  -- Every stored event moves the time of the update to its own, and no event but an acceptance that of the
  -- creation.
  when-times :
      (e : Event W) (o o' : Order W)
      → is_stored e ≡ true
      → is_acceptance e ≡ false
      → when e o ≡ (o', none)
      → (o'.created_at ≡ o.created_at) × (o'.updated_at ≡ (base_of e).timestamp)
  unfolding when
  when-times (Event.order_accepted e) o o' s a h = cc
  when-times (Event.price_quoted e) o o' s a h =
      times o.created_at e.timestamp o' (when (Event.price_quoted e) o) h refl refl
  when-times (Event.swap_executing e) o o' s a h =
      times o.created_at e.timestamp o' (when (Event.swap_executing e) o) h refl refl
  when-times (Event.swap_executed e) o o' s a h =
      times o.created_at e.timestamp o' (when (Event.swap_executed e) o) h refl refl
  when-times (Event.order_completed e) o o' s a h =
      times o.created_at e.timestamp o' (when (Event.order_completed e) o) h refl refl
  when-times (Event.order_failed e) o o' s a h =
      times o.created_at e.timestamp o' (when (Event.order_failed e) o) h refl refl
  when-times _ o o' s a h = cc

  times_rows :
      (es : List (Event W)) (ss : List (Object W × BaseFields)) (r : Row W) (o p : Order W)
      → map serialize_event (map order_event es) ≡ map ok ss
      → All IsReadable es
      → All (λ e. is_acceptance e ≡ false) es
      → replay when es o ≡ (p, none)
      → o.updated_at ≡ r.created_at
      → (p.created_at ≡ o.created_at) × (last_created_at r (map row_of ss) ≡ p.updated_at)
  unfolding replay last_created_at
  times_rows [] [] r o p h q a k u =
      let e : o ≡ p = cc in
      (ap (λ (x : Order W). x.created_at) (sym e), sym u ∙ ap (λ (x : Order W). x.updated_at) e)
  times_rows [] (s ∷ ss) r o p h q a k u = cc
  times_rows (e ∷ es) [] r o p h q a k u = cc
  times_rows (e ∷ es) (s ∷ ss) r o p h (q, qs) (a, as') k u =
      let (o', ho, rest) = replay_cons e es o p k in
      let (created, updated) = when-times e o o' q.0 a ho in
      let (c, l) =
        times_rows es ss (row_of s) o' p (cc) qs as' rest (updated ∙ sym (row_time e s (cc))) in
      (c ∙ created, l)

  -- Of stored events that replay to an order, the first has the time of its creation, and the last
  -- that of its update.
  pub stored_times :
      (a : OrderAccepted W) (later : List (Event W)) (first : Object W × BaseFields)
      (stored : List (Object W × BaseFields)) (o : Order W)
      → map serialize_event (map order_event (Event.order_accepted a ∷ later))
        ≡ map ok (first ∷ stored)
      → All IsReadable later
      → All (λ e. is_acceptance e ≡ false) later
      → replay when (Event.order_accepted a ∷ later) new_order ≡ (o, none)
      → ((row_of first).created_at ≡ o.created_at)
        × (last_created_at (row_of first) (map row_of stored) ≡ o.updated_at)
  unfolding when
  stored_times a later first stored o h readable others k =
      let (o', ho, rest) = replay_cons (Event.order_accepted a) later new_order o k in
      let t = row_time (Event.order_accepted a) first (cc) in
      let made : (o'.created_at ≡ a.timestamp) × (o'.updated_at ≡ a.timestamp) =
        times a.timestamp a.timestamp o' (when (Event.order_accepted a) new_order) ho refl refl in
      let (c, l) =
        times_rows later stored (row_of first) o' o (cc) readable others rest (made.1 ∙ sym t) in
      (t ∙ sym made.0 ∙ sym c, l)
