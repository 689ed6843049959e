-- ===== src/Api/History.antt =====
-- api/handlers.go: `GetOrderHistory`, the handler of `GET /orders/{orderID}`.
use saga_market_order.Prelude.{String, Option, none, some, List, [], ◌∷◌, ◌==◌, if◌then◌else◌, map}
use saga_market_order.Float.{Float}
use saga_market_order.Format.{Piece, verbatim, two_decimals, eight_decimals}
use saga_market_order.Json.{Object, Member, string, float, member}
use saga_market_order.Order.Events.{Time}
use saga_market_order.EventStore.Postgres.{Row, Database, Link, load}
use saga_market_order.Result.{Result, ok, err}
use saga_market_order.Api.Responses.{
  TimelineEvent, OrderHistoryResponse, Response, http_error, history,
}
use saga_market_order.Api.Path.{order_id_of}

-- The variables of the handler.
pub record Summary (W : Type 0) : Type 0 where
  pub user_id : String
  pub from_amount : W
  pub from_currency : String
  pub to_currency : String
  pub to_amount : W
  pub executed_price : W
  pub order_type : String
  pub status : String

-- `v, _ := m[key].(string)`
abbrev pub or_empty : Option String → String
or_empty none = ""
or_empty (some s) = s

module _ {W : Type 0} where
  -- `m[key].(float64)`. No event has an `int` under the keys that the handler reads.
  abbrev as_float : Option (Member W) → Option W
  as_float (some (float x)) = some x
  as_float _ = none

  abbrev as_string : Option (Member W) → Option String
  as_string (some (string s)) = some s
  as_string _ = none

  abbrev pub float_at : String → Object W → Option W
  float_at key o = as_float (member key o)

  abbrev pub string_at : String → Object W → Option String
  string_at key o = as_string (member key o)

  -- `if v, ok := …; ok { variable = v }`
  abbrev pub or_old : W → Option W → W
  or_old x none = x
  or_old x (some y) = y

  -- The body of the loop `Update state based on event type`.
  unfoldable pub update_state : Row W → Summary W → Summary W
  update_state r s =
      if r.event_type == "PriceQuoted"
      then record s {
        executed_price = or_old s.executed_price (float_at "price" r.event_data);
        to_amount = or_old s.to_amount (float_at "to_amount" r.event_data);
      }
      else if r.event_type == "SwapExecuting"
      then record s { status = "executing" }
      else if r.event_type == "SwapExecuted"
      then record s {
        to_amount = or_old s.to_amount (float_at "to_amount" r.event_data);
        executed_price = or_old s.executed_price (float_at "executed_price" r.event_data);
      }
      else if r.event_type == "OrderCompleted"
      then record s {
        status = "completed";
        from_amount = or_old s.from_amount (float_at "from_amount" r.event_data);
        to_amount = or_old s.to_amount (float_at "to_amount" r.event_data);
        executed_price = or_old s.executed_price (float_at "executed_price" r.event_data);
      }
      else if r.event_type == "OrderFailed"
      then record s { status = "failed" }
      else s

  unfoldable pub update_all : List (Row W) → Summary W → Summary W
  unfolding update_state
  update_all [] s = s
  update_all (r ∷ rows) s = update_all rows (update_state r s)

  -- `Price quoted: …`, unless one of the numbers is missing.
  abbrev quote_text : Option W → Option W → List (Piece W)
  quote_text (some price) (some to_amount) =
      verbatim "Price quoted: "
      ∷ two_decimals price
      ∷ verbatim " per unit, receiving "
      ∷ eight_decimals to_amount
      ∷ verbatim " units"
      ∷ []
  quote_text _ _ = []

  abbrev with_text : String → Option String → List (Piece W)
  with_text label none = []
  with_text label (some s) = verbatim label ∷ verbatim s ∷ []

  -- The human-readable description.
  unfoldable pub describe : Row W → List (Piece W)
  describe r =
      if r.event_type == "OrderAccepted"
      then verbatim "Order created and accepted for processing" ∷ []
      else if r.event_type == "PriceQuoted"
      then quote_text (float_at "price" r.event_data) (float_at "to_amount" r.event_data)
      else if r.event_type == "SwapExecuting"
      then verbatim "Swap execution started" ∷ []
      else if r.event_type == "SwapExecuted"
      then with_text "Swap executed successfully: " (string_at "transaction_hash" r.event_data)
      else if r.event_type == "OrderCompleted"
      then verbatim "Order completed successfully" ∷ []
      else if r.event_type == "OrderFailed"
      then with_text "Order failed: " (string_at "reason" r.event_data)
      else if r.event_type == "PositionCreated"
      then verbatim "Position created" ∷ []
      else if r.event_type == "PositionUpdated"
      then verbatim "Position updated with order results" ∷ []
      else verbatim r.event_type ∷ []

  -- The loop `Build timeline from events`.
  unfoldable pub timeline_event : Row W → TimelineEvent W
  unfolding describe
  timeline_event r = record {
    timestamp = r.created_at;
    event_type = r.event_type;
    version = r.version;
    description = describe r;
    details = r.event_data;
  }

  -- `events[len(events)-1].CreatedAt`
  unfoldable pub last_created_at : Row W → List (Row W) → Time
  last_created_at r [] = r.created_at
  last_created_at r (x ∷ rows) = last_created_at x rows

module _ {W : Type 0} ⦃f : Float W⦄ where
  open f use {nought}

  abbrev or_nought : Option W → W
  or_nought none = nought
  or_nought (some x) = x

  -- `Parse first event (OrderAccepted) for basic info`
  unfoldable pub first_state : Row W → Summary W
  first_state r = record {
    user_id = or_empty (string_at "user_id" r.event_data);
    from_amount = or_nought (float_at "from_amount" r.event_data);
    from_currency = or_empty (string_at "from_currency" r.event_data);
    to_currency = or_empty (string_at "to_currency" r.event_data);
    to_amount = nought;
    executed_price = nought;
    order_type = or_empty (string_at "order_type" r.event_data);
    status = "pending";
  }

  unfoldable pub summary : Row W → List (Row W) → Summary W
  unfolding first_state update_all
  summary r rows = update_all (r ∷ rows) (first_state r)

  -- `Build response`
  abbrev pub history_of : String → Row W → List (Row W) → OrderHistoryResponse W
  history_of id r rows =
      let s = summary r rows in
      record {
        order_id = id;
        user_id = s.user_id;
        from_amount = s.from_amount;
        from_currency = s.from_currency;
        to_currency = s.to_currency;
        to_amount = s.to_amount;
        executed_price = s.executed_price;
        order_type = s.order_type;
        status = s.status;
        created_at = r.created_at;
        updated_at = last_created_at r rows;
        timeline = map timeline_event (r ∷ rows);
      }

  -- Behind the loading.
  abbrev pub respond : String → Result W (List (Row W)) → Response W
  respond id (err e) = http_error "Failed to load order history" 500
  respond id (ok []) = http_error "Order not found" 404
  respond id (ok (r ∷ rows)) = record { code = 200; body = history (history_of id r rows) }

  unfoldable pub handle_get_order_history : Link → String → String → Database W → Response W
  unfolding order_id_of load summary last_created_at timeline_event
  handle_get_order_history link method path db =
      let id = order_id_of path in
      if method == "GET"
      then (if id == ""
          then http_error "order_id is required" 400
          else respond id (load link id db))
      else http_error "Method not allowed" 405
