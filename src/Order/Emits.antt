-- ===== src/Order/Emits.antt =====
-- What a command may do to an order: leave it, or apply one event that it records.
use saga_market_order.Prelude.{
  ap, sym, ◌∙◌, ◌≡◌, refl, ◌⊎◌, inl, inr, Bool, true, false, Option, none, [], ◌∷◌, ◌++◌, arith,
  String, if◌then◌else◌,
}
use saga_market_order.EventSourcing
use saga_market_order.Float.{Float}
use saga_market_order.Order.Events.{
  Value, text, number, other, Fields, Event, base_of, type_name, order_accepted, order_updated,
  position_created_for_order, position_linked_to_order,
}
use saga_market_order.Order.Aggregate.{
  Order, Error, Outcome, update_field, update_fields, when, apply,
}
use saga_market_order.Order.Commands.{Stamp}
use saga_market_order.Order.Run.{Command, execute}

-- The order without its unsaved events.
abbrev pub strip : {W : Type 0} → Order W → Order W
strip o = record o { changes = [] }

abbrev pub is_handled : {W : Type 0} → Event W → Bool
is_handled (position_created_for_order _) = false
is_handled (position_linked_to_order _) = false
is_handled (order_accepted _) = true
is_handled _ = true

module _ {W : Type 0} ⦃f : Float W⦄ where
  update_field-strip :
      (key : String) (v : Value W) (o : Order W)
      → update_field key v (strip o) ≡ strip (update_field key v o)
  update_field-strip key (number v) o = ground arith
  update_field-strip key (text _) o = refl
  update_field-strip key other o = refl

  update_fields-strip :
      (fields : Fields W) (o : Order W)
      → update_fields fields (strip o) ≡ strip (update_fields fields o)
  unfolding update_fields
  update_fields-strip [] o = refl
  update_fields-strip ((key, v) ∷ fields) o =
      rw (update_field-strip key v o) (update_fields-strip fields (update_field key v o))

  -- An update reaches the two amounts and no other field.
  abbrev pub IsSameButAmounts : Order W → Order W → Type 0
  IsSameButAmounts o o' = o' ≡ record o { from_amount = o'.from_amount; to_amount = o'.to_amount }

  update_field_same :
      (key : String) (v : Value W) (o : Order W) → IsSameButAmounts o (update_field key v o)
  update_field_same key (number v) o = ground arith
  update_field_same key (text _) o = refl
  update_field_same key other o = refl

  pub update_fields_same :
      (fields : Fields W) (o : Order W) → IsSameButAmounts o (update_fields fields o)
  unfolding update_fields
  update_fields_same [] o = refl
  update_fields_same ((key, v) ∷ fields) o =
      ground (arith, update_field_same key v o, update_fields_same fields (update_field key v o))

  -- `When` neither reads nor writes `Changes`.
  pub when-strip : (e : Event W) (o : Order W) → (when e (strip o)).0 ≡ strip (when e o).0
  unfolding when
  when-strip (order_accepted e) o = refl
  when-strip (order_updated e) o = rw update_fields-strip
  when-strip _ o = refl

  pub when-changes : (e : Event W) (o : Order W) → (when e o).0.changes ≡ o.changes
  unfolding when
  when-changes (order_accepted e) o = refl
  when-changes (order_updated e) o =
      ap (λ (p : Order W). p.changes) (update_fields_same e.updated_fields o)
  when-changes _ o = refl

  -- The order's events and their effect, and, of each, its version and its aggregate.
  pub record Emits (o o' : Order W) : Type 0 where
    pub step : EventSourcing.Emits when (λ (o : Order W). o.changes) strip o o'
    pub open step use *
    pub numbered : (base_of event).version ≡ o'.version
    pub owned : (base_of event).aggregate_id ≡ o'.id
    pub typed : (base_of event).event_type ≡ type_name event

  abbrev pub IsLawful : Order W → Outcome W → Type 0
  IsLawful o out = (out.0 ≡ o) ⊎ ((out.1 ≡ none) × Emits o out.0)

  if_rule :
      (b : Bool) (o : Order W) (x y : Outcome W)
      → IsLawful o x
      → IsLawful o y
      → IsLawful o (if b then x else y)
  if_rule true o x y p q = p
  if_rule false o x y p q = q

  -- `AcceptOrder` takes the id from the event.
  abbrev IsOwn : Event W → Order W → Type 0
  IsOwn (order_accepted _) o = Unit
  IsOwn e o = (base_of e).aggregate_id ≡ o.id

  apply-IsLawful :
      (e : Event W) (o : Order W)
      → IsOwn e o
      → (base_of e).event_type ≡ type_name e
      → is_handled e ≡ true
      → IsLawful o (apply e o)
  unfolding apply when
  apply-IsLawful (position_created_for_order e) o own t h = cc
  apply-IsLawful (position_linked_to_order e) o own t h = cc
  apply-IsLawful (order_accepted e) o own t h = inr (
    refl,
    record {
      step = record { event = order_accepted e; appended = refl; replays = refl };
      numbered = refl;
      owned = refl;
      typed = t;
    },
  )
  apply-IsLawful (order_updated e) o own t h = inr (
    refl,
    record {
      step = record {
        event = order_updated e;
        appended =
            ap (λ (p : Order W). p.changes ++ order_updated e ∷ [])
              (update_fields_same e.updated_fields o);
        replays = rw (update_fields-strip e.updated_fields o);
      };
      numbered = refl;
      owned = own ∙ sym (ap (λ (p : Order W). p.id) (update_fields_same e.updated_fields o));
      typed = t;
    },
  )
  apply-IsLawful e o own t h = inr (
    refl,
    record {
      step = record { event = e; appended = refl; replays = refl };
      numbered = refl;
      owned = own;
      typed = t;
    },
  )

  refuse-IsLawful : (o : Order W) (err : Option (Error W)) → IsLawful o (o, err)
  refuse-IsLawful o err = inl refl

  ruleset lawful = (if_rule, apply-IsLawful, refuse-IsLawful, tt)

  -- A command leaves the order as it is, or succeeds by one event that is recorded, numbered with
  -- the order's new version, owned by the order, and replays to the same change.
  pub execute-IsLawful : (c : Command W) (s : Stamp) (o : Order W) → IsLawful o (execute c s o)
  unfolding execute
  execute-IsLawful (Command.accept_order id user amount from to kind) s o = search lawful
  execute-IsLawful _ s o = search lawful depth 7
