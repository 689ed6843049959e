-- ===== src/Messaging/RabbitMq.antt =====
-- infrastructure/messaging/rabbitmq.go: `RabbitMQ`. What the client library and the broker answer
-- is an argument: the message of each call's error, if any. `sent` lists the messages for which the
-- client's publish call returned no error; it asks for no confirmation of the broker.
use saga_market_order.Prelude.{
  String, Bool, true, false, Option, none, some, List, [], ◌∷◌, ◌++◌, if◌then◌else◌,
}
use saga_market_order.Json.{Object}
use saga_market_order.Result.{Failure, text, wrap}

-- A message on the bus; `none` is the nil that a failed `json.Marshal` leaves.
pub record Message (W : Type 0) : Type 0 where
  pub event_type : String
  pub event_data : Option (Object W)

-- `connected` and `has_channel`: the two fields are not nil.
pub record RabbitMq (W : Type 0) : Type 0 where
  pub connected : Bool
  pub has_channel : Bool
  pub sent : List (Message W)

pub record Dialing : Type 0 where
  pub dial : Option String
  pub channel : Option String
  pub exchange : Option String

pub record Subscribing : Type 0 where
  pub queue : Option String
  pub bind : Option String
  pub consume : Option String

module _ {W : Type 0} where
  abbrev pub new_rabbit_mq : RabbitMq W
  new_rabbit_mq = record { connected = false; has_channel = false; sent = [] }

  -- `if err != nil { return fmt.Errorf(context: %w, err) }`, and what follows it.
  abbrev check {ℓ} : {A : Type ℓ} → String → Option String → (Failure W → A) → A → A
  check context none fail next = next
  check context (some m) fail next = fail (wrap context (text m))

  -- `Connect`. The fields are set before the exchange is declared.
  unfoldable pub connect : Dialing → RabbitMq W → RabbitMq W × Option (Failure W)
  connect d r =
      check "failed to connect to RabbitMQ" d.dial (λ e. (r, some e))
        (check "failed to open channel" d.channel (λ e. (r, some e))
          (let r' = record r { connected = true; has_channel = true } in
            check "failed to declare exchange" d.exchange (λ e. (r', some e)) (r', none)))

  -- `Publish`.
  unfoldable pub publish_event :
      Option String → String → Option (Object W) → RabbitMq W → RabbitMq W × Option (Failure W)
  publish_event answer event_type event_data r =
      if r.has_channel
      then check "failed to publish event" answer (λ e. (r, some e))
          (
            record r {
              sent = r.sent ++ record { event_type = event_type; event_data = event_data } ∷ [];
            },
            none,
          )
      else (r, some (text "RabbitMQ channel not initialized"))

  -- `Subscribe`, up to the start of the goroutine that consumes.
  unfoldable pub subscribe : Subscribing → RabbitMq W → Option (Failure W)
  subscribe s r =
      if r.has_channel
      then check "failed to declare queue" s.queue some
          (check "failed to bind queue" s.bind some (check "failed to consume" s.consume some none))
      else some (text "RabbitMQ channel not initialized")

  abbrev failed : Option String → Option (Failure W)
  failed none = none
  failed (some m) = some (text m)

  -- `Close`; `answer` is the error of closing the connection. That of closing the channel is dropped,
  -- and no field changes.
  unfoldable pub close : Option String → RabbitMq W → Option (Failure W)
  close answer r = if r.connected then failed answer else none

  -- `Subscribe` for one event type after another, up to the first error: the `Start` of a service.
  unfoldable pub subscribe_all :
      (String → Subscribing) → List String → RabbitMq W → Option (Failure W)
  unfolding subscribe
  subscribe_all s [] r = none
  subscribe_all s (event_type ∷ rest) r = elim (subscribe (s event_type) r) [
    | some e ↦ some e
    | none ↦ subscribe_all s rest r
  ]
