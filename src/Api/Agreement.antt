-- ===== src/Api/Agreement.antt =====
-- The history's summary is the order that the replay of its events gives.
use saga_market_order.Api.Responses.{OrderHistoryResponse, history}
use saga_market_order.Api.Path.{order_id_of}
use saga_market_order.Prelude.{
  String, ◌≡◌, refl, ap, ◌∙◌, true, false, none, some, List, [], ◌∷◌, ◌==◌, map, All, ap₂,
}
use saga_market_order.Float.{Float}
use saga_market_order.EventSourcing.{replay}
use saga_market_order.Json.{Object}
use saga_market_order.EventStore.Serializer.{BaseFields, order_event, serialize_event}
use saga_market_order.EventStore.Postgres.{Row, row_of, Database, select, Link, load}
use saga_market_order.Order.Events.{Event, base_of, type_name, OrderAccepted}
use saga_market_order.Order.Aggregate.{status_text, Order, new_order, when}
use saga_market_order.Order.Codec.{marshal}
use saga_market_order.Order.Roundtrip.{is_stored}
use saga_market_order.Order.Readable.{IsReadable}
use saga_market_order.AggregateStore.Orders.{serialized_order, replay_cons, IsUp, scan_free}
use saga_market_order.Result.{ok}
use saga_market_order.Api.History.{
  Summary, update_state, update_all, first_state, summary, timeline_event, handle_get_order_history,
  history_of,
}
use saga_market_order.Api.Times.{is_acceptance, stored_times}
use saga_market_order.Api.Members.{
  accepted_members, quoted_members, executed_members, completed_members,
}

-- The summary that an order's fields make.
abbrev pub summary_of : {W : Type 0} → Order W → Summary W
summary_of o = record {
  user_id = o.user_id;
  from_amount = o.from_amount;
  from_currency = o.from_currency;
  to_currency = o.to_currency;
  to_amount = o.to_amount;
  executed_price = o.executed_price;
  order_type = o.order_type;
  status = status_text o.status;
}

module _ {W : Type 0} ⦃f : Float W⦄ where
  update_step :
      (e : Event W) (r : Row W) (o : Order W)
      → is_stored e ≡ true
      → is_acceptance e ≡ false
      → r.event_type ≡ type_name e
      → marshal e ≡ some r.event_data
      → update_state r (summary_of o) ≡ summary_of (when e o).0
  unfolding update_state when
  update_step (Event.order_accepted e) r o s a t m = cc
  update_step (Event.price_quoted e) r o s a t m =
      let (price, to_amount) = quoted_members e r.event_data m in rw (t, price, to_amount) refl
  update_step (Event.swap_executing e) r o s a t m = rw t refl
  update_step (Event.swap_executed e) r o s a t m =
      let (to_amount, price) = executed_members e r.event_data m in rw (t, price, to_amount) refl
  update_step (Event.order_completed e) r o s a t m =
      let (from_amount, to_amount, price) = completed_members e r.event_data m in
      rw (t, price, from_amount, to_amount) refl
  update_step (Event.order_failed e) r o s a t m = rw t refl
  update_step _ r o s a t m = cc

  -- A row of a readable event has its type's name, and its JSON.
  row_lem :
      (e : Event W) (s : Object W × BaseFields)
      → serialize_event (order_event e) ≡ ok s
      → IsReadable e
      → ((row_of s).event_type ≡ type_name e)
        × (marshal e ≡ some s.0)
        × (s.1.version ≡ (base_of e).version)
  row_lem e s h (stored, named) =
      let (m, b) = serialized_order e s h in
      (ap (λ (x : BaseFields). x.event_type) b ∙ named, m, ap (λ (x : BaseFields). x.version) b)

  update_rows :
      (es : List (Event W)) (ss : List (Object W × BaseFields)) (o p : Order W)
      → map serialize_event (map order_event es) ≡ map ok ss
      → All IsReadable es
      → All (λ e. is_acceptance e ≡ false) es
      → replay when es o ≡ (p, none)
      → update_all (map row_of ss) (summary_of o) ≡ summary_of p
  unfolding update_all replay
  update_rows [] [] o p h r a k = ap (λ (x : Order W × _). summary_of x.0) k
  update_rows [] (s ∷ ss) o p h r a k = cc
  update_rows (e ∷ es) [] o p h r a k = cc
  update_rows (e ∷ es) (s ∷ ss) o p h (r, rs) (a, as') k =
      let (t, m, _) = row_lem e s (cc) r in
      let (o', ho, rest) = replay_cons e es o p k in
      let step : update_state (row_of s) (summary_of o) ≡ summary_of o' =
        update_step e (row_of s) o r.0 a t m ∙ ap (λ (x : Order W × _). summary_of x.0) ho in
      ap (update_all (map row_of ss)) step ∙ update_rows es ss o' p (cc) rs as' rest

  first_step :
      (a : OrderAccepted W) (r : Row W)
      → r.event_type ≡ "OrderAccepted"
      → marshal (Event.order_accepted a) ≡ some r.event_data
      → update_state r (first_state r) ≡ summary_of (when (Event.order_accepted a) new_order).0
  unfolding update_state first_state when new_order
  first_step a r t m =
      let (user, amount, from, to, kind) = accepted_members a r.event_data m in
      rw (t, user, amount, from, to, kind) refl

  -- What the store has of an order: its acceptance, and later events that the stores read back and of
  -- which none is an acceptance; the order is what they make of a new one.
  pub record IsStored (id : String) (o : Order W) (db : Database W) : Type 0 where
    pub acceptance : OrderAccepted W
    pub later : List (Event W)
    pub first : Object W × BaseFields
    pub stored : List (Object W × BaseFields)
    pub serialized :
        map serialize_event (map order_event (Event.order_accepted acceptance ∷ later))
        ≡ map ok (first ∷ stored)
    pub rows : select id db.events ≡ row_of first ∷ map row_of stored
    pub readable : All IsReadable (Event.order_accepted acceptance ∷ later)
    pub no_other : All (λ e. is_acceptance e ≡ false) later
    pub replays : replay when (Event.order_accepted acceptance ∷ later) new_order ≡ (o, none)

  summary_lem :
      (id : String) (o : Order W) (db : Database W) (h : IsStored id o db)
      → summary (row_of h.first) (map row_of h.stored) ≡ summary_of o
  unfolding summary update_all
  summary_lem id o db h =
      let (t, m, _) =
        row_lem (Event.order_accepted h.acceptance) h.first (cc (h.serialized)) h.readable.0 in
      let (o', ho, rest) =
        replay_cons (Event.order_accepted h.acceptance) h.later new_order o h.replays in
      let step : update_state (row_of h.first) (first_state (row_of h.first)) ≡ summary_of o' =
        first_step h.acceptance (row_of h.first) t m
        ∙ ap (λ (x : Order W × _). summary_of x.0) ho in
      ap (update_all (map row_of h.stored)) step
      ∙ update_rows h.later h.stored o' o (cc (h.serialized)) h.readable.1 h.no_other rest

  timeline_lem :
      (es : List (Event W)) (ss : List (Object W × BaseFields))
      → map serialize_event (map order_event es) ≡ map ok ss
      → All IsReadable es
      → map (λ t. t.version) (map timeline_event (map row_of ss))
        ≡ map (λ e. (base_of e).version) es
  unfolding timeline_event
  timeline_lem [] [] h r = refl
  timeline_lem [] (s ∷ ss) h r = cc
  timeline_lem (e ∷ es) [] h r = cc
  timeline_lem (e ∷ es) (s ∷ ss) h (r, rs) =
      let (_, _, v) = row_lem e s (cc) r in ap₂ (λ x xs. x ∷ xs) v (timeline_lem es ss (cc) rs)

  loads :
      (link : Link) (id : String) (db : Database W) (rows : List (Row W))
      → IsUp link
      → select id db.events ≡ rows
      → load link id db ≡ ok rows
  unfolding load
  loads link id db rows up h = rw (h, up.query, scan_free link rows up.scan, up.rows) refl

  pub history_agrees :
      (link : Link) (path id : String) (o : Order W) (db : Database W) (h : IsStored id o db)
      → order_id_of path ≡ id
      → (id == "") ≡ false
      → IsUp link
      → (r : OrderHistoryResponse W) × (handle_get_order_history link "GET" path db
          ≡ record { code = 200; body = history r })
        × (r.order_id ≡ id)
        × ((r.user_id ≡ o.user_id) × (r.order_type ≡ o.order_type))
        × ((r.from_amount ≡ o.from_amount) × (r.from_currency ≡ o.from_currency))
        × ((r.to_amount ≡ o.to_amount) × (r.to_currency ≡ o.to_currency))
        × (r.executed_price ≡ o.executed_price)
        × (r.status ≡ status_text o.status)
        × ((r.created_at ≡ o.created_at) × (r.updated_at ≡ o.updated_at))
        × (map (λ t. t.version) r.timeline
            ≡ map (λ e. (base_of e).version) (Event.order_accepted h.acceptance ∷ h.later))
  unfolding handle_get_order_history
  history_agrees link path id o db h same some_id up =
      let e = summary_lem id o db h in
      let rows = loads link id db _ up h.rows in
      let times =
        stored_times h.acceptance h.later h.first h.stored o h.serialized h.readable.1 h.no_other
          h.replays in
      (
        history_of id (row_of h.first) (map row_of h.stored),
        rw (same, some_id, rows) refl,
        refl,
        (ap (λ (s : Summary W). s.user_id) e, ap (λ (s : Summary W). s.order_type) e),
        (ap (λ (s : Summary W). s.from_amount) e, ap (λ (s : Summary W). s.from_currency) e),
        (ap (λ (s : Summary W). s.to_amount) e, ap (λ (s : Summary W). s.to_currency) e),
        ap (λ (s : Summary W). s.executed_price) e,
        ap (λ (s : Summary W). s.status) e,
        times,
        timeline_lem (Event.order_accepted h.acceptance ∷ h.later) (h.first ∷ h.stored) h.serialized
            h.readable,
      )
