-- ===== src/Api/Created.antt =====
-- What `POST /orders` answers, and what it leaves in the store.
use saga_market_order.Prelude.{
  String, ◌≡◌, ◌≢◌, refl, ap, sym, ◌∙◌, ◌⊎◌, inl, inr, Bool, true, false, Option, none, some, [],
  ◌==◌, ◌||◌, arith,
}
use saga_market_order.Float.{Float}
use saga_market_order.EventStore.Postgres.{Database, Link, select}
use saga_market_order.Order.Aggregate.{Order, pending}
use saga_market_order.Order.Commands.{Stamp}
use saga_market_order.Order.Validity.{terms_of}
use saga_market_order.AggregateStore.Store.{load_order_aggregate}
use saga_market_order.AggregateStore.Orders.{IsUp}
use saga_market_order.UseCases.Create.{create_order}
use saga_market_order.UseCases.Accepted.{create_order-unchanged}
use saga_market_order.UseCases.Creation.{created_loads}
use saga_market_order.Result.{Failure, ok}
use saga_market_order.Api.Responses.{Response}
use saga_market_order.Api.Create.{
  CreateOrderRequest, HttpRequest, answered, decode_request, terms_for, validate_and_create,
  on_decoded, handle_create_order, refuse_if, on_post,
}

module _ {W : Type 0} ⦃f : Float W⦄ where
  open f use {nought, le}

  -- What the handler asks of a request before it calls the use case.
  pub record IsWellFormed (req : CreateOrderRequest W) : Type 0 where
    pub user : (req.user_id == "") ≡ false
    pub amount : le req.from_amount nought ≡ false
    pub currencies : (req.from_currency == "" || req.to_currency == "") ≡ false

  -- The use case has been called, and has succeeded.
  pub record Creates (link : Link) (s : Stamp) (order_id : String) (req : CreateOrderRequest W)
      (db : Database W) (out : Database W × Response W) : Type 0 where
    pub well_formed : IsWellFormed req
    pub succeeds : (create_order link s (terms_for order_id req) db).1 ≡ none
    pub stored : out.0 ≡ (create_order link s (terms_for order_id req) db).0
    pub code : out.1.code ≡ 202

  abbrev pub Refuses : Database W → Database W × Response W → Type 0
  Refuses db out = (out.1.code ≢ 202) × (out.0 ≡ db)

  answered-cases :
      (link : Link) (s : Stamp) (order_id : String) (req : CreateOrderRequest W) (db : Database W)
      (made : Database W × Option (Failure W))
      → IsWellFormed req
      → create_order link s (terms_for order_id req) db ≡ made
      → Creates link s order_id req db (answered order_id made)
        ⊎ Refuses db (answered order_id made)
  answered-cases link s order_id req db (db', none) w h = inl (record {
    well_formed = w;
    succeeds = ap (λ (x : Database W × Option (Failure W)). x.1) h;
    stored = rw h refl;
    code = refl;
  })
  answered-cases link s order_id req db (db', some e) w h = inr (
    ground arith,
    ap (λ (x : Database W × Option (Failure W)). x.0) (sym h)
        ∙ create_order-unchanged link s (terms_for order_id req) db
            (ap (λ (x : Database W × Option (Failure W)). x.1) h),
  )

  refuse-cases :
      (P : Database W × Response W → Type 0) (b : Bool) (message : String) (db : Database W)
      (out : Database W × Response W)
      → (b ≡ false → P out ⊎ Refuses db out)
      → P (refuse_if b message db out) ⊎ Refuses db (refuse_if b message db out)
  refuse-cases P true message db out h = inr (ground arith, refl)
  refuse-cases P false message db out h = h refl

  validate-cases :
      (link : Link) (s : Stamp) (order_id : String) (req : CreateOrderRequest W) (db : Database W)
      → let out = validate_and_create link s order_id req db in
        Creates link s order_id req db out ⊎ Refuses db out
  unfolding validate_and_create
  validate-cases link s order_id req db =
      let P = Creates link s order_id req db in
      refuse-cases P _ _ db _ λ user. refuse-cases P _ _ db _ λ amount.
        refuse-cases P _ _ db _ λ currencies.
          answered-cases link s order_id req db _
            (record { user = user; amount = amount; currencies = currencies }) refl

  -- The handler has accepted a request.
  pub record Accepts (link : Link) (s : Stamp) (order_id : String) (r : HttpRequest W)
      (db : Database W) (out : Database W × Response W) : Type 0 where
    pub post : (r.method == "POST") ≡ true
    pub req : CreateOrderRequest W
    pub decodes : decode_request r.body ≡ some req
    pub creates : Creates link s order_id req db out

  decoded-cases :
      (link : Link) (s : Stamp) (order_id : String) (r : HttpRequest W) (db : Database W)
      (d : Option (CreateOrderRequest W))
      → (r.method == "POST") ≡ true
      → decode_request r.body ≡ d
      → let out = on_decoded d (λ req. validate_and_create link s order_id req db) db in
        Accepts link s order_id r db out ⊎ Refuses db out
  decoded-cases link s order_id r db none post h = inr (ground arith, refl)
  decoded-cases link s order_id r db (some req) post h =
      elim (validate-cases link s order_id req db) [
        | inl c ↦ inl (record { post = post; req = req; decodes = h; creates = c })
        | inr refuses ↦ inr refuses
      ]

  post-cases :
      (P : Database W × Response W → Type 0) (b : Bool) (db : Database W)
      (out : Database W × Response W)
      → (b ≡ true → P out ⊎ Refuses db out)
      → P (on_post b db out) ⊎ Refuses db (on_post b db out)
  post-cases P true db out h = h refl
  post-cases P false db out h = inr (ground arith, refl)

  pub handle-cases :
      (link : Link) (s : Stamp) (order_id : String) (r : HttpRequest W) (db : Database W)
      → let out = handle_create_order link s order_id r db in
        Accepts link s order_id r db out ⊎ Refuses db out
  unfolding handle_create_order
  handle-cases link s order_id r db =
      post-cases (Accepts link s order_id r db) _ db _
        λ post. decoded-cases link s order_id r db _ post refl

  -- With a new id that the store does not know and a database that answers its queries, `POST
  -- /orders` either answers with another code than 202 and changes nothing, or with 202. In the
  -- latter case the request was a POST with a body that decodes to a well-formed order of a user,
  -- and the store now holds under the id a pending order with the terms of the request, "market"
  -- being the type by default.
  pub create_order_answers :
      (link : Link) (s : Stamp) (order_id : String) (r : HttpRequest W) (db : Database W)
      → select order_id db.events ≡ []
      → IsUp link
      → let (db', resp) = handle_create_order link s order_id r db in
        ((resp.code ≢ 202) × (db' ≡ db))
        ⊎ ((resp.code ≡ 202)
            × (r.method == "POST") ≡ true
            × ((req : CreateOrderRequest W) × (decode_request r.body ≡ some req)
                × IsWellFormed req
                × ((o : Order W) × (load_order_aggregate link order_id db' ≡ ok o)
                    × (o.status ≡ pending)
                    × (terms_of o ≡ terms_for order_id req))))
  create_order_answers link s order_id r db free up =
      let (db', resp) = handle_create_order link s order_id r db in
      elim (handle-cases link s order_id r db) [
        | inr refuses ↦ inl refuses
        | inl a ↦
            let (o, loads, status, _, terms, _, _) =
              created_loads link s (terms_for order_id a.req) db free up a.creates.succeeds in
            inr (
              a.creates.code,
              a.post,
              (
                a.req,
                a.decodes,
                a.creates.well_formed,
                (o, rw a.creates.stored loads, status, terms),
              ),
            )
      ]
