-- ===== src/Api/Responses.antt =====
-- api/handlers.go: the bodies of the requests and of the responses.
use saga_market_order.Prelude.{ℕ, String, List}
use saga_market_order.Json.{Object}
use saga_market_order.Format.{Piece}
use saga_market_order.Order.Events.{Time}
use saga_market_order.Result.{Failure}

-- `orderID, "pending", "Order accepted …"`
pub record CreateOrderResponse : Type 0 where
  pub order_id : String
  pub status : String
  pub message : String

pub record TimelineEvent (W : Type 0) : Type 0 where
  pub timestamp : Time
  pub event_type : String
  pub version : ℕ
  pub description : List (Piece W)
  pub details : Object W

pub record OrderHistoryResponse (W : Type 0) : Type 0 where
  pub order_id : String
  pub user_id : String
  pub from_amount : W
  pub from_currency : String
  pub to_currency : String
  pub to_amount : W
  pub executed_price : W
  pub order_type : String
  pub status : String
  pub created_at : Time
  pub updated_at : Time
  pub timeline : List (TimelineEvent W)

-- The text of `http.Error`, alone or with an error's text behind it, or the JSON of a struct.
pub data Body (W : Type 0) : Type 0 where
  plain : String → Body W
  plain_with : String → Failure W → Body W
  created : CreateOrderResponse → Body W
  history : OrderHistoryResponse W → Body W
  healthy : Body W

pub record Response (W : Type 0) : Type 0 where
  pub code : ℕ
  pub body : Body W

abbrev pub http_error : {W : Type 0} → String → ℕ → Response W
http_error message code = record { code = code; body = plain message }

-- `HealthCheck`
unfoldable pub health_check : {W : Type 0} → Response W
health_check = record { code = 200; body = healthy }
