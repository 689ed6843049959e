-- ===== src/Api/Create.antt =====
-- api/handlers.go: `CreateOrder`, the handler of `POST /orders`.
use saga_market_order.Prelude.{
  Bool, true, false, String, Option, none, some, ◌||◌, ◌==◌, if◌then◌else◌,
}
use saga_market_order.Float.{Float}
use saga_market_order.Json.{Object, ◌>>=◌, get_string, get_float}
use saga_market_order.EventStore.Postgres.{Database, Link}
use saga_market_order.Order.Commands.{Stamp}
use saga_market_order.Order.Validity.{Terms}
use saga_market_order.UseCases.Create.{create_order}
use saga_market_order.Result.{Failure}
use saga_market_order.Api.Responses.{Response, http_error, plain_with, created}

-- What the request's body decodes to.
pub record CreateOrderRequest (W : Type 0) : Type 0 where
  pub user_id : String
  pub from_amount : W
  pub from_currency : String
  pub to_currency : String
  pub order_type : String

-- `body` is the JSON of the request, if it is an object; `null` counts as the empty object.
pub record HttpRequest (W : Type 0) : Type 0 where
  pub method : String
  pub body : Option (Object W)

module _ {W : Type 0} where
  -- A check of the validation, and what follows it.
  abbrev pub refuse_if :
      Bool → String → Database W → Database W × Response W → Database W × Response W
  refuse_if true message db out = (db, http_error message 400)
  refuse_if false message db out = out

  abbrev pub on_post : Bool → Database W → Database W × Response W → Database W × Response W
  on_post true db out = out
  on_post false db out = (db, http_error "Method not allowed" 405)

  -- The end of the handler, behind the use case.
  abbrev pub answered : String → Database W × Option (Failure W) → Database W × Response W
  answered order_id (db, some e) =
      (db, record { code = 500; body = plain_with "Failed to create order: " e })
  answered order_id (db, none) = (
    db,
    record {
      code = 202;
      body = created (record {
        order_id = order_id;
        status = "pending";
        message = "Order accepted and will be processed asynchronously";
      });
    },
  )

module _ {W : Type 0} ⦃f : Float W⦄ where
  open f use {nought, le}

  -- `Decode` of the body.
  unfoldable pub decode_request : Option (Object W) → Option (CreateOrderRequest W)
  decode_request none = none
  decode_request (some o) = do
    user_id ← get_string "user_id" o
    from_amount ← get_float "from_amount" o
    from_currency ← get_string "from_currency" o
    to_currency ← get_string "to_currency" o
    order_type ← get_string "order_type" o
    some (record {
      user_id = user_id;
      from_amount = from_amount;
      from_currency = from_currency;
      to_currency = to_currency;
      order_type = order_type;
    })

  -- The use case's request; the order's type is "market" by default.
  abbrev pub terms_for : String → CreateOrderRequest W → Terms W
  terms_for order_id req = record {
    id = order_id;
    user_id = req.user_id;
    from_amount = req.from_amount;
    from_currency = req.from_currency;
    to_currency = req.to_currency;
    order_type = if req.order_type == "" then "market" else req.order_type;
  }

  -- Behind the decoding: the validation, and the use case.
  unfoldable pub validate_and_create :
      Link → Stamp → String → CreateOrderRequest W → Database W → Database W × Response W
  unfolding create_order
  validate_and_create link s order_id req db =
      refuse_if (req.user_id == "") "user_id is required" db (
        refuse_if (le req.from_amount nought) "from_amount must be positive" db (
          refuse_if (req.from_currency == "" || req.to_currency == "")
            "from_currency and to_currency are required" db
            (answered order_id (create_order link s (terms_for order_id req) db))))

  abbrev pub on_decoded :
      Option (CreateOrderRequest W)
      → (CreateOrderRequest W → Database W × Response W)
      → Database W
      → Database W × Response W
  on_decoded none k db = (db, http_error "Invalid request body" 400)
  on_decoded (some req) k db = k req

  -- `order_id` is what `pkguuid.New` returns.
  unfoldable pub handle_create_order :
      Link → Stamp → String → HttpRequest W → Database W → Database W × Response W
  unfolding validate_and_create decode_request
  handle_create_order link s order_id r db =
      on_post (r.method == "POST") db
        (on_decoded (decode_request r.body) (λ req. validate_and_create link s order_id req db) db)
