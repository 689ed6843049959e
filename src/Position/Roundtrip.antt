-- ===== src/Position/Roundtrip.antt =====
-- What is stored of a position's event is read back as the event.
use saga_market_order.Prelude.{
  ◌≡◌, refl, subst, Bool, true, false, none, some, String, if◌then◌else◌, some_of_if,
}
use saga_market_order.Float.{Float}
use saga_market_order.Json.{Object}
use saga_market_order.Position.Events.{
  Event, position_created, position_updated, position_closed, unknown,
}
use saga_market_order.Position.Codec.{marshal, deserialize, deserialize_all}

-- The name of the event's type, as the commands write it into `EventType`.
abbrev pub type_name : {W : Type 0} → Event W → String
type_name (position_created _) = "PositionCreated"
type_name (position_updated _) = "PositionUpdated"
type_name (position_closed _) = "PositionClosed"
type_name (unknown kind) = kind

abbrev pub is_update : {W : Type 0} → Event W → Bool
is_update (position_updated _) = true
is_update _ = false

module _ {W : Type 0} ⦃f : Float W⦄ where
  -- The repository reads back every event of a position that can be stored.
  pub deserialize_all-marshal :
      (e : Event W) {o : Object W} → marshal e ≡ some o → deserialize_all (type_name e) o ≡ some e
  unfolding marshal deserialize_all
  deserialize_all-marshal (position_created e) k =
      subst (λ o. deserialize_all "PositionCreated" o ≡ some (position_created e))
        (some_of_if _ _ k) refl
  deserialize_all-marshal (position_updated e) k =
      subst (λ o. deserialize_all "PositionUpdated" o ≡ some (position_updated e))
        (some_of_if _ _ k) refl
  deserialize_all-marshal (position_closed e) k =
      subst (λ o. deserialize_all "PositionClosed" o ≡ some (position_closed e))
        (some_of_if true _ k) refl
  deserialize_all-marshal (unknown _) k = cc

  -- The aggregate store reads back exactly the events other than `PositionUpdated`: on one of
  -- these it fails.
  pub position_store-marshal :
      (e : Event W) {o : Object W}
      → marshal e ≡ some o
      → deserialize (type_name e) o ≡ (if is_update e then none else some e)
  unfolding marshal deserialize
  position_store-marshal (position_created e) k =
      subst (λ o. deserialize "PositionCreated" o ≡ some (position_created e)) (some_of_if _ _ k)
        refl
  position_store-marshal (position_updated e) k = refl
  position_store-marshal (position_closed e) k =
      subst (λ o. deserialize "PositionClosed" o ≡ some (position_closed e)) (some_of_if true _ k)
        refl
  position_store-marshal (unknown _) k = cc
