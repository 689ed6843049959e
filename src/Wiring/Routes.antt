-- ===== src/Wiring/Routes.antt =====
-- cmd/main.go: the routes of the HTTP server. A path is clean, as `ServeMux` makes sure.
use Prim.Native.String.{String}
use saga_market_order.Prelude.{Bool, true, false, Option, none, some, ◌==◌, if◌then◌else◌}
use saga_market_order.Float.{Float}
use saga_market_order.EventStore.Postgres.{Database, Link}
use saga_market_order.Order.Commands.{Stamp}
use saga_market_order.Api.Responses.{Response, http_error, health_check}
use saga_market_order.Api.Create.{HttpRequest, handle_create_order}
use saga_market_order.Api.Path.{behind}
use saga_market_order.Api.History.{handle_get_order_history}

abbrev pub is_some : Option String → Bool
is_some none = false
is_some (some _) = true

module _ {W : Type 0} ⦃f : Float W⦄ where
  -- What the mux calls: of the patterns that fit, the longest.
  unfoldable pub serve :
      Link → Stamp → String → String → HttpRequest W → Database W → Database W × Response W
  unfolding behind health_check handle_create_order handle_get_order_history
  serve link s order_id path r db =
      if path == "/health"
      then (db, health_check)
      else if path == "/orders"
      then handle_create_order link s order_id r db
      else if is_some (behind "/orders/" path)
      then (db, handle_get_order_history link r.method path db)
      else (db, http_error "404 page not found" 404)
