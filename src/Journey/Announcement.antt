-- ===== src/Journey/Announcement.antt =====
-- application/usecases, infrastructure/eventstore and infrastructure/outbox: the transactional
-- outbox, from the creation of an order to the bus.
use mathlib.Core.List.{Memᴰ}
use saga_market_order.Prelude.{
  ℕ, ◌*◌, ◌≤◌, ◌≡◌, refl, ap, subst, Option, none, some, List, true, length, All, String,
}
use saga_market_order.Prelude.Membership.{mem_append_right}
use saga_market_order.Float.{Float}
use saga_market_order.Json.{Object, ◌>>=◌}
use saga_market_order.EventStore.Serializer.{BaseFields}
use saga_market_order.EventStore.Postgres.{Database, Link, outbox_row_of}
use saga_market_order.Order.Events.{OrderAccepted, Event}
use saga_market_order.Order.Commands.{Stamp}
use saga_market_order.Order.Codec.{deserialize, unmarshal_order_accepted}
use saga_market_order.Order.Roundtrip.{deserialize-marshal}
use saga_market_order.Order.Validity.{Terms}
use saga_market_order.AggregateStore.Orders.{serialized_order}
use saga_market_order.UseCases.Create.{create_order}
use saga_market_order.UseCases.Accepted.{acceptance, created_stored}
use saga_market_order.Messaging.RabbitMq.{RabbitMq}
use saga_market_order.Outbox.Publisher.{Tick, pending, run}
use saga_market_order.Outbox.Sent.{IsSort, IsKeyed}
use saga_market_order.Outbox.Backlog.{HasUp}
use saga_market_order.Outbox.Drain.{drains}

module _ {W : Type 0} ⦃f : Float W⦄ where
  read_back :
      (a : OrderAccepted W) (o : Object W)
      → deserialize "OrderAccepted" o ≡ some (Event.order_accepted a)
      → unmarshal_order_accepted o ≡ some a
  unfolding deserialize
  read_back a o h = go (unmarshal_order_accepted o) h
    where
      go :
          (x : Option (OrderAccepted W))
          → (x >>= λ e. some (Event.order_accepted e)) ≡ some (Event.order_accepted a)
          → x ≡ some a
      go none h = cc
      go (some e) h = cc

  -- An order that has been created is announced: with an open channel, and over ticks of which `k`
  -- succeed in all their calls while at most 100 * k rows of the outbox wait, the bus gets a message
  -- "OrderAccepted" whose body STEP 1 decodes to the event with the order's id and terms. No two rows
  -- share an event id, each SELECT sorts the rows that there are, and no event is added meanwhile.
  pub created_is_announced :
      (link : Link) (s : Stamp) (t : Terms W) (db : Database W) (bus : RabbitMq W) (k : ℕ)
      (ts : List (Tick W))
      → (create_order link s t db).1 ≡ none
      → IsKeyed (create_order link s t db).0.outbox
      → length (pending (create_order link s t db).0.outbox) ≤ 100 * k
      → All IsSort ts
      → HasUp k ts
      → bus.has_channel ≡ true
      → (o : Object W) × Memᴰ
          (record { event_type = "OrderAccepted"; event_data = some o })
          (run ts ((create_order link s t db).0, bus)).1.sent
        × (unmarshal_order_accepted o ≡ some (acceptance s t))
  created_is_announced link s t db bus k ts done keyed few sorts ups on =
      let db' = (create_order link s t db).0 in
      let (r, serialized, _, outbox, _) = created_stored link s t db done in
      let (m, fields) = serialized_order (Event.order_accepted (acceptance s t)) r serialized in
      let there : Memᴰ (outbox_row_of r) db'.outbox =
        rw outbox (mem_append_right db.outbox (Memᴰ.head refl)) in
      let sent = (drains k ts db' bus sorts ups on keyed few).1 (outbox_row_of r) there refl in
      (
        r.0,
        subst
            (λ (kind : String).
              Memᴰ (record { event_type = kind; event_data = some r.0 }) (run ts (db', bus)).1.sent)
            (ap (λ (b : BaseFields). b.event_type) fields) sent,
        read_back (acceptance s t) r.0
            (deserialize-marshal (Event.order_accepted (acceptance s t)) refl m),
      )
