-- ===== src/Order/Roundtrip.antt =====
-- What is stored of an order's event is read back as the event.
use saga_market_order.Prelude.{some_of_if, subst, ◌≡◌, refl, Bool, true, false, some, [], ◌∷◌}
use saga_market_order.Float.{Float}
use saga_market_order.Order.Events.{
  type_name, Fields, Event, order_accepted, price_quoted, swap_executing, swap_executed,
  order_completed, order_failed,
}
use saga_market_order.Order.Codec.{marshal, deserialize}
use saga_market_order.Json.{Object}

abbrev pub is_stored : {W : Type 0} → Event W → Bool
is_stored (order_accepted _) = true
is_stored (price_quoted _) = true
is_stored (swap_executing _) = true
is_stored (swap_executed _) = true
is_stored (order_completed _) = true
is_stored (order_failed _) = true
is_stored _ = false

abbrev with_metadata : {W : Type 0} → Fields W → Event W → Event W
with_metadata m (order_accepted e) =
    order_accepted (record e { base = record (e.base) { metadata = m } })
with_metadata m (price_quoted e) =
    price_quoted (record e { base = record (e.base) { metadata = m } })
with_metadata m (swap_executing e) =
    swap_executing (record e { base = record (e.base) { metadata = m } })
with_metadata m (swap_executed e) =
    swap_executed (record e { base = record (e.base) { metadata = m } })
with_metadata m (order_completed e) =
    order_completed (record e { base = record (e.base) { metadata = m } })
with_metadata m (order_failed e) =
    order_failed (record e { base = record (e.base) { metadata = m } })
with_metadata m e = e

module _ {W : Type 0} ⦃f : Float W⦄ where
  read_back :
      (m : Fields W) (e : Event W) (made o : Object W)
      → deserialize (type_name e) made ≡ some (with_metadata m e)
      → made ≡ o
      → deserialize (type_name e) o ≡ some (with_metadata m e)
  read_back m e made o h k = subst (λ o. deserialize (type_name e) o ≡ some (with_metadata m e)) k h

  -- The members are known only once it is known if there is metadata.
  roundtrip_with :
      (m : Fields W) (e : Event W) {o : Object W}
      → is_stored e ≡ true
      → marshal (with_metadata m e) ≡ some o
      → deserialize (type_name e) o ≡ some (with_metadata m e)
  unfolding marshal deserialize
  roundtrip_with [] (order_accepted e) h k =
      read_back [] (order_accepted e) _ _ refl (some_of_if _ _ k)
  roundtrip_with [] (price_quoted e) h k = read_back [] (price_quoted e) _ _ refl (some_of_if _ _ k)
  roundtrip_with [] (swap_executing e) h k =
      read_back [] (swap_executing e) _ _ refl (some_of_if true _ k)
  roundtrip_with [] (swap_executed e) h k =
      read_back [] (swap_executed e) _ _ refl (some_of_if _ _ k)
  roundtrip_with [] (order_completed e) h k =
      read_back [] (order_completed e) _ _ refl (some_of_if _ _ k)
  roundtrip_with [] (order_failed e) h k =
      read_back [] (order_failed e) _ _ refl (some_of_if true _ k)
  roundtrip_with (x ∷ m) (order_accepted e) h k =
      read_back (x ∷ m) (order_accepted e) _ _ refl (some_of_if _ _ k)
  roundtrip_with (x ∷ m) (price_quoted e) h k =
      read_back (x ∷ m) (price_quoted e) _ _ refl (some_of_if _ _ k)
  roundtrip_with (x ∷ m) (swap_executing e) h k =
      read_back (x ∷ m) (swap_executing e) _ _ refl (some_of_if _ _ k)
  roundtrip_with (x ∷ m) (swap_executed e) h k =
      read_back (x ∷ m) (swap_executed e) _ _ refl (some_of_if _ _ k)
  roundtrip_with (x ∷ m) (order_completed e) h k =
      read_back (x ∷ m) (order_completed e) _ _ refl (some_of_if _ _ k)
  roundtrip_with (x ∷ m) (order_failed e) h k =
      read_back (x ∷ m) (order_failed e) _ _ refl (some_of_if _ _ k)
  roundtrip_with _ e h k = cc

  -- An event of one of the six types that are read back: if it can be stored, what is stored is read
  -- back as the event.
  pub deserialize-marshal :
      (e : Event W) {o : Object W}
      → is_stored e ≡ true
      → marshal e ≡ some o
      → deserialize (type_name e) o ≡ some e
  deserialize-marshal (order_accepted e) h k = roundtrip_with e.metadata (order_accepted e) h k
  deserialize-marshal (price_quoted e) h k = roundtrip_with e.metadata (price_quoted e) h k
  deserialize-marshal (swap_executing e) h k = roundtrip_with e.metadata (swap_executing e) h k
  deserialize-marshal (swap_executed e) h k = roundtrip_with e.metadata (swap_executed e) h k
  deserialize-marshal (order_completed e) h k = roundtrip_with e.metadata (order_completed e) h k
  deserialize-marshal (order_failed e) h k = roundtrip_with e.metadata (order_failed e) h k
  deserialize-marshal _ h k = cc
