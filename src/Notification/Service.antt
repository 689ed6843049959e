-- ===== src/Notification/Service.antt =====
-- application/notification/service.go: `NotificationService`. What the calls meet is an argument.
use saga_market_order.Format.{Piece, verbatim, two_decimals, eight_decimals}
use saga_market_order.Prelude.{String, Bool, true, false, Option, none, some, List, [], ◌∷◌, ◌++◌}
use saga_market_order.Float.{Float}
use saga_market_order.Json.{Object}
use saga_market_order.EventStore.Postgres.{Database, Link}
use saga_market_order.Order.Events.{BaseEvent, OrderFailed}
use saga_market_order.Order.Codec.{unmarshal_order_completed, unmarshal_order_failed}
use saga_market_order.Order.Aggregate.{status_text, Order}
use saga_market_order.Repository.Store.{get_order}
use saga_market_order.Saga.World.{has_row, insert_processed, decoded}
use saga_market_order.Result.{Result, text, wrap, ok, err, Ending, success, fails}

pub record Notification (W : Type 0) : Type 0 where
  pub user_id : String
  pub message : List (Piece W)

-- The database, and what the `Notifier` has sent.
pub record Desk (W : Type 0) : Type 0 where
  pub database : Database W
  pub sent : List (Notification W)

pub record Env : Type 0 where
  pub check : Option String
  pub load : Link
  pub send : Option String
  pub mark : Option String

module _ {W : Type 0} where
  unfoldable pub completed_text : Order W → List (Piece W)
  completed_text o =
      verbatim "✅ Order Completed!\n\nOrder ID: "
      ∷ verbatim o.id
      ∷ verbatim "\nFrom: "
      ∷ two_decimals o.from_amount
      ∷ verbatim " "
      ∷ verbatim o.from_currency
      ∷ verbatim "\nTo: "
      ∷ eight_decimals o.to_amount
      ∷ verbatim " "
      ∷ verbatim o.to_currency
      ∷ verbatim "\nPrice: "
      ∷ two_decimals o.executed_price
      ∷ verbatim " "
      ∷ verbatim o.from_currency
      ∷ verbatim "/"
      ∷ verbatim o.to_currency
      ∷ verbatim "\nStatus: "
      ∷ verbatim (status_text o.status)
      ∷ []

  unfoldable pub failed_text : OrderFailed W → Order W → List (Piece W)
  failed_text evt o =
      verbatim "❌ Order Failed\n\nOrder ID: "
      ∷ verbatim o.id
      ∷ verbatim "\nAmount: "
      ∷ two_decimals o.from_amount
      ∷ verbatim " "
      ∷ verbatim o.from_currency
      ∷ verbatim "\nReason: "
      ∷ verbatim evt.reason
      ∷ verbatim "\nStatus: "
      ∷ verbatim (status_text o.status)
      ∷ []

  -- `IsProcessed`, whose error is returned here.
  abbrev pub processed : Option String → String → Desk W → Result W Bool
  processed (some m) id d = err (wrap "failed to check processed event" (text m))
  processed none id d = ok (has_row id d.database.processed)

  -- `return MarkAsProcessed(…)`
  abbrev pub marked : Option String → BaseEvent W → Desk W → Desk W × Ending W
  marked (some m) e d = (d, fails (wrap "failed to mark event as processed" (text m)))
  marked none e d = (
    record d {
      database = record (d.database) {
        processed =
            insert_processed
              (record {
                event_id = e.event_id;
                aggregate_id = e.aggregate_id;
                event_type = e.event_type;
                processed_by = "notification-service";
              })
              d.database.processed;
      };
    },
    success,
  )

  -- From the sending of the message on.
  abbrev pub told :
      Option String → Option String → BaseEvent W → Notification W → Desk W → Desk W × Ending W
  told (some m) mark e n d = (d, fails (text m))
  told none mark e n d = marked mark e (record d { sent = d.sent ++ n ∷ [] })

  abbrev pub on_result :
      {A : Type 0} → Result W A → Desk W → (A → Desk W × Ending W) → Desk W × Ending W
  on_result (ok a) d k = k a
  on_result (err e) d k = (d, fails e)

  -- Behind the idempotency check.
  abbrev pub unless_processed : Bool → Desk W → Desk W × Ending W → Desk W × Ending W
  unless_processed true d out = (d, success)
  unless_processed false d out = out

module _ {W : Type 0} ⦃f : Float W⦄ where
  -- What both handlers do behind the decoding; they differ in the text.
  unfoldable pub notify :
      Env → BaseEvent W → (Order W → List (Piece W)) → Desk W → Desk W × Ending W
  unfolding get_order has_row insert_processed
  notify env e message d = on_result (processed env.check e.event_id d) d λ is_processed.
      unless_processed is_processed d (
        on_result (get_order env.load e.aggregate_id d.database) d
          λ o. told env.send env.mark e (record { user_id = o.user_id; message = message o }) d)

  unfoldable pub handle_order_completed : Env → Object W → Desk W → Desk W × Ending W
  unfolding unmarshal_order_completed notify completed_text
  handle_order_completed env event_data d =
      on_result (decoded (unmarshal_order_completed event_data)) d
        λ evt. notify env evt.base completed_text d

  unfoldable pub handle_order_failed : Env → Object W → Desk W → Desk W × Ending W
  unfolding unmarshal_order_failed notify failed_text
  handle_order_failed env event_data d =
      on_result (decoded (unmarshal_order_failed event_data)) d
        λ evt. notify env evt.base (failed_text evt) d
