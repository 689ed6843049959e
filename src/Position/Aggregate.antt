-- ===== src/Position/Aggregate.antt =====
-- domain/position/aggregate.go: the position, its `When` and `Apply`, and its commands.
use saga_market_order.Prelude.{
  ℕ, String, Option, none, some, List, [], ◌∷◌, ◌++◌, not, ◌==◌, if◌then◌else◌, int_suc,
}
use saga_market_order.Float.{Float}
use saga_market_order.Position.Events.{
  Time, BaseEvent, Event, position_created, position_updated, position_closed, unknown,
}

-- `PositionStatus` is a string, and takes any value that a `PositionCreated` event has.
abbrev pub status_open : String
status_open = "open"

abbrev pub status_closed : String
status_closed = "closed"

pub record Position (W : Type 0) : Type 0 where
  pub id : String
  pub user_id : String
  pub order_ids : List String
  pub remaining_amount : W
  pub total_value : W
  pub pnl : W
  pub status : String
  pub version : ℕ
  pub created_at : Time
  pub updated_at : Time
  pub changes : List (Event W)

pub data Error : Type 0 where
  position_is : String → Error
  unknown_event : String → Error

abbrev pub Outcome : Type 0 → Type 0
Outcome W = Position W × Option Error

pub record Stamp : Type 0 where
  pub uuid : String
  pub now : Time
  pub later : Time

module _ {W : Type 0} ⦃f : Float W⦄ where
  open f use {nought, add}

  unfoldable pub new_position : Position W
  new_position = record {
    id = "";
    user_id = "";
    order_ids = [];
    remaining_amount = nought;
    total_value = nought;
    pnl = nought;
    status = "";
    version = 0;
    created_at = 0;
    updated_at = 0;
    changes = [];
  }

  -- `p.Version = e.Version; p.UpdatedAt = e.Timestamp`, the end of every case of `When`.
  abbrev pub touch : BaseEvent → Position W → Position W
  touch e p = record p { version = e.version; updated_at = e.timestamp }

  unfoldable pub when : Event W → Position W → Outcome W
  when (position_created e) p = (
    touch e.base (record p {
      id = e.aggregate_id;
      user_id = e.user_id;
      remaining_amount = e.remaining_amount;
      status = e.status;
      created_at = e.timestamp;
    }),
    none,
  )
  when (position_updated e) p = (
    touch e.base (record p {
      order_ids = p.order_ids ++ e.added_order_id ∷ [];
      remaining_amount = e.remaining_amount;
      total_value = e.total_value;
      pnl = e.pnl;
    }),
    none,
  )
  when (position_closed e) p = (touch e.base (record p { status = status_closed }), none)
  when (unknown kind) p = (p, some (unknown_event kind))

  abbrev pub record_change : Event W → Outcome W → Outcome W
  record_change e (p, some err) = (p, some err)
  record_change e (p, none) = (record p { changes = p.changes ++ e ∷ [] }, none)

  unfoldable pub apply : Event W → Position W → Outcome W
  apply e p = record_change e (when e p)

  -- The `BaseEvent` literal of `AddOrder` and `ClosePosition`.
  abbrev pub next_base : Stamp → Position W → String → BaseEvent
  next_base s p event_type = record {
    event_id = s.uuid;
    aggregate_id = p.id;
    aggregate_type = "Position";
    event_type = event_type;
    version = int_suc p.version;
    timestamp = s.now;
  }

  unfoldable pub create_position : Stamp → String → String → Position W → Outcome W
  create_position s position_id user_id p =
      apply
        (position_created record {
          base = record {
            event_id = s.uuid;
            aggregate_id = position_id;
            aggregate_type = "Position";
            event_type = "PositionCreated";
            version = 1;
            timestamp = s.now;
          };
          user_id = user_id;
          remaining_amount = nought;
          status = "open";
        })
        p

  unfoldable pub add_order : Stamp → String → W → W → W → Position W → Outcome W
  add_order s order_id to_amount total_value pnl p =
      if not (p.status == status_open)
      then (p, some (position_is p.status))
      else apply
          (position_updated record {
            base = next_base s p "PositionUpdated";
            added_order_id = order_id;
            remaining_amount = add p.remaining_amount to_amount;
            total_value = total_value;
            pnl = pnl;
          })
          p

  -- A closed position is left as it is, without an error.
  unfoldable pub close_position : Stamp → String → Position W → Outcome W
  close_position s reason p =
      if p.status == status_closed
      then (p, none)
      else apply
          (position_closed
            record { base = next_base s p "PositionClosed"; reason = reason; closed_at = s.later })
          p
