-- ===== src/Journey/Readback.antt =====
-- cmd/main.go, api and application/usecases: what `POST /orders` accepts, `GET /orders/{id}` shows.
use saga_market_order.Api.Created.{handle-cases}
use saga_market_order.Api.History.{handle_get_order_history}
use saga_market_order.AggregateStore.Reloads.{no_rows-IsBelow}
use saga_market_order.EventStore.Selection.{select-append}
use saga_market_order.EventStore.Serializer.{BaseFields}
use saga_market_order.Order.Events.{Event, base_of}
use Prim.Native.String as Text
use saga_market_order.Prelude.{
  String, ◌≡◌, refl, ap, sym, ◌∙◌, false, none, [], ◌∷◌, ◌++◌, ◌==◌, map, arith, Bool-cases, inl,
  inr, eq_iff, some,
}
use saga_market_order.Float.{Float}
use saga_market_order.EventSourcing.{replay_one}
use saga_market_order.EventStore.Postgres.{Database, Link, row_of, select}
use saga_market_order.Order.Aggregate.{Order, new_order, when, pending, status_text}
use saga_market_order.Order.Commands.{Stamp}
use saga_market_order.Order.Validity.{Terms, terms_of}
use saga_market_order.AggregateStore.Orders.{IsUp, serialized_order}
use saga_market_order.UseCases.Create.{create_order}
use saga_market_order.UseCases.Accepted.{acceptance, created_stored}
use saga_market_order.Api.Responses.{OrderHistoryResponse, history, Response}
use saga_market_order.Api.Create.{
  CreateOrderRequest, HttpRequest, decode_request, terms_for, handle_create_order,
}
use saga_market_order.Api.Path.{IsSolid, order_id-route, behind, behind-append}
use saga_market_order.Api.Agreement.{IsStored, history_agrees}
use saga_market_order.Wiring.Routes.{serve}

-- No path of another route begins with `/orders/`.
no_literal :
    (id path : String) → behind "/orders/" path ≡ none → (Text.◌++◌ "/orders/" id == path) ≡ false
no_literal id path h = elim (Bool-cases (Text.◌++◌ "/orders/" id == path)) [
  | inr other ↦ other
  | inl same ↦
      let e = (eq_iff (Text.◌++◌ "/orders/" id) path).0 same in
      cc (h, sym (behind-append "/orders/" id) ∙ ap (behind "/orders/") e)
]

-- The terms that a history shows.
abbrev pub terms_of_history : {W : Type 0} → OrderHistoryResponse W → Terms W
terms_of_history h = record {
  id = h.order_id;
  user_id = h.user_id;
  from_amount = h.from_amount;
  from_currency = h.from_currency;
  to_currency = h.to_currency;
  order_type = h.order_type;
}

module _ {W : Type 0} ⦃f : Float W⦄ where
  pub created-IsStored :
      (link : Link) (s : Stamp) (t : Terms W) (db : Database W)
      → select t.id db.events ≡ []
      → (create_order link s t db).1 ≡ none
      → (o : Order W) × (h : IsStored t.id o (create_order link s t db).0) × (o.status ≡ pending)
        × (terms_of o ≡ t)
        × (map (λ e. (base_of e).version) (Event.order_accepted h.acceptance ∷ h.later) ≡ 1 ∷ [])
  created-IsStored link s t db free h =
      let (r, serialized, events, _, (o, made, pending', terms)) = created_stored link s t db h in
      let (_, fields) = serialized_order (Event.order_accepted (acceptance s t)) r serialized in
      let db' = (create_order link s t db).0 in
      let only : select t.id db'.events ≡ row_of r ∷ [] = rw events (
        select-append t.id 0 db.events (row_of r ∷ []) (no_rows-IsBelow t.id 0 db.events free) (
          ap (λ (b : BaseFields). b.aggregate_id) fields,
          omega (arith, ap (λ (b : BaseFields). b.version) fields),
          tt,
        )
        ∙ ap (λ l. l ++ row_of r ∷ []) free) in
      (
        o,
        record {
          acceptance = acceptance s t;
          later = [];
          first = r;
          stored = [];
          serialized = ap (λ x. x ∷ []) serialized;
          rows = only;
          readable = ((refl, refl), tt);
          no_other = tt;
          replays = replay_one when (Event.order_accepted (acceptance s t)) new_order o made;
        },
        pending',
        terms,
        refl,
      )

  served_get :
      (link : Link) (s : Stamp) (new_id id : String) (r : HttpRequest W) (db : Database W)
      → serve link s new_id (Text.◌++◌ "/orders/" id) r db
        ≡ (db, handle_get_order_history link r.method (Text.◌++◌ "/orders/" id) db)
  unfolding serve
  served_get link s new_id id r db =
      rw
        (
          no_literal id "/health" (unfold behind in refl),
          no_literal id "/orders" (unfold behind in refl),
          behind-append "/orders/" id,
        )
        refl

  served_post :
      (link : Link) (s : Stamp) (new_id : String) (r : HttpRequest W) (db : Database W)
      → serve link s new_id "/orders" r db ≡ handle_create_order link s new_id r db
  unfolding serve
  served_post link s new_id r db = refl

  same_terms :
      (h : OrderHistoryResponse W) (o : Order W) (id : String)
      → h.order_id ≡ id
      → o.id ≡ id
      → h.user_id ≡ o.user_id
      → h.order_type ≡ o.order_type
      → h.from_amount ≡ o.from_amount
      → h.from_currency ≡ o.from_currency
      → h.to_currency ≡ o.to_currency
      → terms_of_history h ≡ terms_of o
  same_terms h o id a b user kind amount from to = λ i. record {
    id = (a ∙ sym b) i;
    user_id = user i;
    from_amount = amount i;
    from_currency = from i;
    to_currency = to i;
    order_type = kind i;
  }

  -- What `POST /orders` accepts, `GET /orders/{id}` shows. If the server answers a POST with 202,
  -- under a new id that is not empty and has no space in it, a GET for this id, with a database
  -- that answers, is answered with 200 and a pending order: it has the user, the amount and the
  -- currencies of the request, its type, "market" by default, and a timeline of one event,
  -- version 1. The GET changes nothing.
  pub posted_then_read :
      (link link' : Link) (s s' : Stamp) (id id' : String) (r r' : HttpRequest W) (db : Database W)
      → select id db.events ≡ []
      → IsSolid id
      → (id == "") ≡ false
      → IsUp link'
      → r'.method ≡ "GET"
      → (serve link s id "/orders" r db).1.code ≡ 202
      → let db' = (serve link s id "/orders" r db).0 in
        (req : CreateOrderRequest W) × (h : OrderHistoryResponse W) × (decode_request r.body
          ≡ some req)
        × (serve link' s' id' (Text.◌++◌ "/orders/" id) r' db'
            ≡ (db', record { code = 200; body = history h }))
        × (terms_of_history h ≡ terms_for id req)
        × (h.status ≡ "pending")
        × (map (λ t. t.version) h.timeline ≡ 1 ∷ [])
  posted_then_read link link' s s' id id' r r' db free solid some_id up get accepted =
      elim (handle-cases link s id r db) [
        | inr (refused, _) ↦ absurd (refused (rw (served_post link s id r db) at accepted))
        | inl a ↦
            let t = terms_for id a.req in
            let (o, stored, status, terms, one) =
              created-IsStored link s t db free a.creates.succeeds in
            let (h, answer, same, (user, kind), (amount, from), (_, to), _, state, _, versions) =
              history_agrees link' (Text.◌++◌ "/orders/" id) id o (create_order link s t db).0
                stored (order_id-route id solid) some_id up in
            let db' = (serve link s id "/orders" r db).0 in
            let made : db' ≡ (create_order link s t db).0 =
              ap (λ (x : Database W × Response W). x.0) (served_post link s id r db)
              ∙ a.creates.stored in
            let path = Text.◌++◌ "/orders/" id in
            (
              a.req,
              h,
              a.decodes,
              served_get link' s' id' id r' db'
                  ∙ ap (λ x. (db', x))
                      (ap (λ m. handle_get_order_history link' m path db') get
                        ∙ ap (handle_get_order_history link' "GET" path) made
                        ∙ answer),
              same_terms h o id same (ap (λ (x : Terms W). x.id) terms) user kind amount from to
                  ∙ terms,
              state ∙ ap status_text status,
              versions ∙ one,
            )
      ]
