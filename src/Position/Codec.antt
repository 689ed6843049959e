-- ===== src/Position/Codec.antt =====
-- The JSON of a position's events (the struct tags of domain/position/events.go), and the type
-- switches of `deserializePositionEvent`: that of application/aggregates/aggregate_store.go, and
-- that of infrastructure/repository/position_repository.go.
use saga_market_order.Prelude.{String, Option, none, some, List, [], ◌∷◌, ◌++◌, ◌==◌, if◌then◌else◌}
use saga_market_order.Float.{Float}
use saga_market_order.Json.{
  Object, string, float, int, time, ◌>>=◌, get_string, get_int, get_time, get_float, all_finite,
}
use saga_market_order.Position.Events.{
  BaseEvent, PositionCreated, PositionUpdated, PositionClosed, Event, position_created,
  position_updated, position_closed, unknown,
}

module _ {W : Type 0} ⦃f : Float W⦄ where
  abbrev base_members : BaseEvent → Object W
  base_members b =
      ("event_id", string b.event_id)
      ∷ ("aggregate_id", string b.aggregate_id)
      ∷ ("aggregate_type", string b.aggregate_type)
      ∷ ("event_type", string b.event_type)
      ∷ ("version", int b.version)
      ∷ ("timestamp", time b.timestamp)
      ∷ []

  abbrev encode : BaseEvent → List W → Object W → Option (Object W)
  encode b floats members = if all_finite floats then some (members ++ base_members b) else none

  -- `json.Marshal` of an event; of a value of another type nothing is known.
  unfoldable pub marshal : Event W → Option (Object W)
  marshal (position_created e) = encode e.base (e.remaining_amount ∷ []) (
      ("user_id", string e.user_id)
      ∷ ("remaining_amount", float e.remaining_amount)
      ∷ ("status", string e.status)
      ∷ [])
  marshal (position_updated e) = encode e.base (e.remaining_amount ∷ e.total_value ∷ e.pnl ∷ []) (
      ("added_order_id", string e.added_order_id)
      ∷ ("remaining_amount", float e.remaining_amount)
      ∷ ("total_value", float e.total_value)
      ∷ ("pnl", float e.pnl)
      ∷ [])
  marshal (position_closed e) =
      encode e.base [] (("reason", string e.reason) ∷ ("closed_at", time e.closed_at) ∷ [])
  marshal (unknown _) = none

  abbrev unmarshal_base : Object W → Option BaseEvent
  unmarshal_base o = do
    event_id ← get_string "event_id" o
    aggregate_id ← get_string "aggregate_id" o
    aggregate_type ← get_string "aggregate_type" o
    event_type ← get_string "event_type" o
    version ← get_int "version" o
    timestamp ← get_time "timestamp" o
    some (record {
      event_id = event_id;
      aggregate_id = aggregate_id;
      aggregate_type = aggregate_type;
      event_type = event_type;
      version = version;
      timestamp = timestamp;
    })

  abbrev unmarshal_created : Object W → Option (PositionCreated W)
  unmarshal_created o = do
    base ← unmarshal_base o
    user_id ← get_string "user_id" o
    remaining_amount ← get_float "remaining_amount" o
    status ← get_string "status" o
    some (record {
      base = base;
      user_id = user_id;
      remaining_amount = remaining_amount;
      status = status;
    })

  abbrev unmarshal_updated : Object W → Option (PositionUpdated W)
  unmarshal_updated o = do
    base ← unmarshal_base o
    added_order_id ← get_string "added_order_id" o
    remaining_amount ← get_float "remaining_amount" o
    total_value ← get_float "total_value" o
    pnl ← get_float "pnl" o
    some (record {
      base = base;
      added_order_id = added_order_id;
      remaining_amount = remaining_amount;
      total_value = total_value;
      pnl = pnl;
    })

  abbrev unmarshal_closed : Object W → Option PositionClosed
  unmarshal_closed o = do
    base ← unmarshal_base o
    reason ← get_string "reason" o
    closed_at ← get_time "closed_at" o
    some (record { base = base; reason = reason; closed_at = closed_at })

  -- In the aggregate store: `PositionUpdated` is an unknown type there.
  unfoldable pub deserialize : String → Object W → Option (Event W)
  deserialize kind o =
      if kind == "PositionCreated"
      then (do e ← unmarshal_created o; some (position_created e))
      else if kind == "PositionClosed"
      then (do e ← unmarshal_closed o; some (position_closed e))
      else none

  -- In the repository.
  unfoldable pub deserialize_all : String → Object W → Option (Event W)
  deserialize_all kind o =
      if kind == "PositionCreated"
      then (do e ← unmarshal_created o; some (position_created e))
      else if kind == "PositionUpdated"
      then (do e ← unmarshal_updated o; some (position_updated e))
      else if kind == "PositionClosed"
      then (do e ← unmarshal_closed o; some (position_closed e))
      else none
