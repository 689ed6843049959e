-- ===== src/Position/Events.antt =====
-- domain/position/events.go: the events of a position.
use saga_market_order.Prelude.{ℕ, String, Option, none, some}

abbrev pub Time : Type 0
Time = ℕ

pub record BaseEvent : Type 0 where
  pub event_id : String
  pub aggregate_id : String
  pub aggregate_type : String
  pub event_type : String
  pub version : ℕ
  pub timestamp : Time

pub record PositionCreated (W : Type 0) : Type 0 where
  pub base : BaseEvent
  pub open base use *
  pub user_id : String
  pub remaining_amount : W
  pub status : String

pub record PositionUpdated (W : Type 0) : Type 0 where
  pub base : BaseEvent
  pub open base use *
  pub added_order_id : String
  pub remaining_amount : W
  pub total_value : W
  pub pnl : W

pub record PositionClosed : Type 0 where
  pub base : BaseEvent
  pub open base use *
  pub reason : String
  pub closed_at : Time

-- The `interface{}` that holds an event of this package; `unknown` is a value of any other type,
-- with the type's name.
pub data Event (W : Type 0) : Type 0 where
  position_created : PositionCreated W → Event W
  position_updated : PositionUpdated W → Event W
  position_closed : PositionClosed → Event W
  unknown : String → Event W

-- The embedded `BaseEvent`, which every event's `GetBaseEvent` reads.
abbrev pub base_of : {W : Type 0} → Event W → Option BaseEvent
base_of (position_created e) = some e.base
base_of (position_updated e) = some e.base
base_of (position_closed e) = some e.base
base_of (unknown _) = none
