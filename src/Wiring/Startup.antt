-- ===== src/Wiring/Startup.antt =====
-- cmd/main.go: the connections to PostgreSQL and to RabbitMQ, each with its loop of attempts, and
-- `getEnv`.
use native.Mathlib.Decide.{ℕ_discrete}
use saga_market_order.Prelude.{
  ℕ, zero, suc, ◌+◌, ◌<◌, ◌≡◌, ◌≢◌, refl, ◌⊎◌, inl, inr, String, true, Option, none, some, arith,
  ◌==◌, if◌then◌else◌, ◌≤◌, ◌↔◌, ap, ◌∙◌, sym, subst,
}
use saga_market_order.Messaging.RabbitMq.{RabbitMq, Dialing, new_rabbit_mq, connect}
use saga_market_order.Result.{Failure}

-- What the `i`-th attempt meets: the errors of `sql.Open` and of `Ping`.
pub record Opening : Type 0 where
  pub open_error : Option String
  pub ping_error : Option String

-- What an attempt leaves in `err`.
abbrev pub attempt_error : Opening → Option String
attempt_error a = elim a.open_error [ some m ↦ some m | none ↦ a.ping_error ]

abbrev pub opened : Option String → (Option String → Option String) → Option String
opened none rest = none
opened (some m) rest = rest (some m)

-- The loop `for i := 0; i < 3; i++`, with the rounds left, `i` and `err`. It ends at the first
-- success.
unfoldable pub open_loop : (ℕ → Opening) → ℕ → ℕ → Option String → Option String
open_loop a zero i err = err
open_loop a (suc rounds) i err = opened (attempt_error (a i)) (open_loop a rounds (i + 1))

-- What `main` finds in `err` behind the loop: it goes on without an error only.
unfoldable pub open_database : (ℕ → Opening) → Option String
unfolding open_loop
open_database a = open_loop a 3 0 none

module _ {W : Type 0} where
  abbrev pub after_attempt :
      RabbitMq W × Option (Failure W)
      → (RabbitMq W → Option (Failure W) → RabbitMq W × Option (Failure W))
      → RabbitMq W × Option (Failure W)
  after_attempt (r, none) rest = (r, none)
  after_attempt (r, some e) rest = rest r (some e)

  -- The loop `for i := 0; i < 10; i++`.
  unfoldable pub connect_loop :
      (ℕ → Dialing) → ℕ → ℕ → RabbitMq W → Option (Failure W) → RabbitMq W × Option (Failure W)
  unfolding connect
  connect_loop d zero i r err = (r, err)
  connect_loop d (suc rounds) i r err =
      after_attempt (connect (d i) r) (connect_loop d rounds (i + 1))

  unfoldable pub connect_broker : (ℕ → Dialing) → RabbitMq W × Option (Failure W)
  unfolding connect_loop
  connect_broker d = connect_loop d 10 0 new_rabbit_mq none

-- `getEnv`; `value` is the variable's value, the empty text if it is not set.
unfoldable pub get_env : String → String → String
get_env value default_value = if value == "" then default_value else value

opened-none :
    (e : Option String) (rest : Option String → Option String)
    → ((m : String) → rest (some m) ≡ none)
    → opened e rest ≡ none
opened-none none rest h = refl
opened-none (some m) rest h = h m

opened-inv :
    (e : Option String) (rest : Option String → Option String)
    → opened e rest ≡ none
    → (e ≡ none) ⊎ ((m : String) × (rest (some m) ≡ none))
opened-inv none rest h = inl refl
opened-inv (some m) rest h = inr (m, h)

some_attempt :
    (a : ℕ → Opening) (rounds i j : ℕ) (err : Option String)
    → i ≤ j
    → j < i + rounds
    → attempt_error (a j) ≡ none
    → open_loop a rounds i err ≡ none
unfolding open_loop
some_attempt a zero i j err h k s = absurd (omega arith)
some_attempt a (suc rounds) i j err h k s = elim (ℕ_discrete i j) [
  | yes here ↦
      ap (λ e. opened e (open_loop a rounds (i + 1))) (ap (λ n. attempt_error (a n)) here ∙ s)
  | no later ↦
      opened-none (attempt_error (a i)) (open_loop a rounds (i + 1))
        λ m. some_attempt a rounds (i + 1) j (some m) (omega arith) (omega arith) s
]

which_attempt :
    (a : ℕ → Opening) (rounds i : ℕ) (m : String)
    → open_loop a rounds i (some m) ≡ none
    → (j : ℕ) × (j < i + rounds) × (attempt_error (a j) ≡ none)
unfolding open_loop
which_attempt a zero i m h = cc
which_attempt a (suc rounds) i m h =
    elim (opened-inv (attempt_error (a i)) (open_loop a rounds (i + 1)) h) [
      | inl up ↦ (i, omega arith, up)
      | inr (m', rest) ↦
          let (j, k, s) = which_attempt a rounds (i + 1) m' rest in (j, omega arith, s)
    ]

-- The service goes on behind the loop exactly if one of three attempts to open the database and to
-- ping it succeeds.
pub database_opens :
    (a : ℕ → Opening)
    → (open_database a ≡ none) ↔ ((i : ℕ) × (i < 3) × (attempt_error (a i) ≡ none))
unfolding open_database
database_opens a = (
  λ h. which_attempt a 3 0 "" h,
  λ (i, h, s). some_attempt a 3 0 i none (omega arith) (omega arith) s,
)

-- All calls of the attempt succeed.
abbrev pub Succeeds : Dialing → Type 0
Succeeds d = (d.dial ≡ none) × (d.channel ≡ none) × (d.exchange ≡ none)

module _ {W : Type 0} where
  -- How an attempt ends.
  abbrev Connects : Dialing → RabbitMq W × Option (Failure W) → Type 0
  Connects d out =
      ((out.1 ≡ none) × Succeeds d × (out.0.has_channel ≡ true))
      ⊎ (((e : Failure W) × (out.1 ≡ some e)) × (Succeeds d → ⊥))

  connect_with :
      (dial channel exchange : Option String) (r : RabbitMq W)
      → let d : Dialing = record { dial = dial; channel = channel; exchange = exchange } in
        Connects d (connect d r)
  unfolding connect
  connect_with (some m) channel exchange r = inr ((_, refl), λ (a, b, c). cc)
  connect_with none (some m) exchange r = inr ((_, refl), λ (a, b, c). cc)
  connect_with none none (some m) r = inr ((_, refl), λ (a, b, c). cc)
  connect_with none none none r = inl (refl, (refl, refl, refl), refl)

  connect-Connects : (d : Dialing) (r : RabbitMq W) → Connects d (connect d r)
  connect-Connects d r = connect_with d.dial d.channel d.exchange r

  -- How the loop ends, with the attempts from `i` on, `rounds` of them.
  abbrev Ends : (ℕ → Dialing) → ℕ → ℕ → RabbitMq W × Option (Failure W) → Type 0
  Ends d i rounds out =
      ((out.1 ≡ none)
        × (out.0.has_channel ≡ true)
        × ((j : ℕ) × (i ≤ j) × (j < i + rounds) × Succeeds (d j)))
      ⊎ (((e : Failure W) × (out.1 ≡ some e))
          × ((j : ℕ) → i ≤ j → j < i + rounds → Succeeds (d j) → ⊥))

  attempt-Ends :
      (d : ℕ → Dialing) (i rounds : ℕ) (out : RabbitMq W × Option (Failure W))
      (rest : RabbitMq W → Option (Failure W) → RabbitMq W × Option (Failure W))
      → Connects (d i) out
      → ((r : RabbitMq W) (e : Failure W) → Ends d (i + 1) rounds (rest r (some e)))
      → Ends d i (suc rounds) (after_attempt out rest)
  attempt-Ends d i rounds (r, none) rest (inl (_, s, on)) h =
      inl (refl, on, (i, omega arith, omega arith, s))
  attempt-Ends d i rounds (r, none) rest (inr ((e, k), _)) h = cc
  attempt-Ends d i rounds (r, some e) rest (inl (k, _, _)) h = cc
  attempt-Ends d i rounds (r, some e) rest (inr (_, fails)) h = elim (h r e) [
    | inl (k, on, (j, low, high, s)) ↦ inl (k, on, (j, omega arith, omega arith, s))
    | inr (k, none_later) ↦ inr (
      k,
      λ j low high s. elim (ℕ_discrete i j) [
        | yes here ↦ fails (subst (λ n. Succeeds (d n)) (sym here) s)
        | no later ↦ none_later j (omega arith) (omega arith) s
      ],
    )
  ]

  connect_loop-Ends :
      (d : ℕ → Dialing) (rounds i : ℕ) (r : RabbitMq W) (e : Failure W)
      → Ends d i rounds (connect_loop d rounds i r (some e))
  unfolding connect_loop
  connect_loop-Ends d zero i r e = inr ((e, refl), λ j low high s. absurd (omega arith))
  connect_loop-Ends d (suc rounds) i r e =
      attempt-Ends d i rounds (connect (d i) r) (connect_loop d rounds (i + 1))
        (connect-Connects (d i) r) λ r' e'. connect_loop-Ends d rounds (i + 1) r' e'

  -- The loop that connects to the broker leaves no error exactly if one of its ten attempts succeeds
  -- in all its calls; and behind it the channel is open, or there is an error.
  pub broker_connects :
      (d : ℕ → Dialing)
      → let (r, err) = connect_broker {W = W} d in
        ((err ≡ none) ↔ ((i : ℕ) × (i < 10) × Succeeds (d i)))
        × ((r.has_channel ≡ true) ⊎ (err ≢ none))
  unfolding connect_broker connect_loop
  broker_connects d =
      let ends : Ends d 0 10 (connect_broker {W = W} d) =
        attempt-Ends d 0 9 (connect (d 0) new_rabbit_mq) (connect_loop d 9 1)
          (connect-Connects (d 0) new_rabbit_mq) (connect_loop-Ends d 9 1) in
      elim ends [
        | inl (k, on, (j, low, high, s)) ↦ ((λ _. (j, high, s), λ _. k), inl on)
        | inr ((e, k), fails) ↦
            ((λ h. cc, λ (i, high, s). absurd (fails i (omega arith) high s)), inr λ h. cc)
      ]
