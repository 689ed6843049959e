-- ===== src/EventStore/Selection.antt =====
-- Rows that are added for an aggregate with rising versions are found behind its old ones.
use saga_market_order.Prelude.{
  ℕ, ◌≤◌, ◌<◌, ◌≡◌, refl, true, List, [], ◌∷◌, ◌++◌, arith, String, ◌==◌, All, leb, Bool-cases, inl,
  inr,
}
use native.Mathlib.Nat.{le_refl}
use text.Mathlib.TextPositions.{eq_refl}
use saga_market_order.EventStore.Postgres.{Row, insert_by_version, select}

module _ {W : Type 0} where
  -- Rows of one aggregate, with versions that rise from above `v`.
  abbrev pub Rise : String → ℕ → List (Row W) → Type 0
  Rise id v [] = Unit
  Rise id v (r ∷ rows) = (r.aggregate_id ≡ id) × (v < r.version) × Rise id r.version rows

  -- The aggregate has no row with a version above `v`.
  abbrev pub IsBelow : String → ℕ → List (Row W) → Type 0
  IsBelow id v = All (λ r. (r.aggregate_id == id) ≡ true → r.version ≤ v)

  Rise-All :
      (id : String) (u v : ℕ) (rows : List (Row W))
      → u ≤ v
      → Rise id v rows
      → All (λ r. leb u r.version ≡ true) rows
  Rise-All id u v [] h k = tt
  Rise-All id u v (r ∷ rows) h k = (ground arith, Rise-All id u r.version rows (omega arith) k.2)

  insert_below :
      (r : Row W) (rows : List (Row W))
      → All (λ x. leb r.version x.version ≡ true) rows
      → insert_by_version r rows ≡ r ∷ rows
  unfolding insert_by_version
  insert_below r [] h = refl
  insert_below r (x ∷ rows) h = rw h.0

  insert-append :
      (r : Row W) (xs ys : List (Row W))
      → All (λ x. leb r.version x.version ≡ true) ys
      → insert_by_version r (xs ++ ys) ≡ insert_by_version r xs ++ ys
  unfolding insert_by_version
  insert-append r [] ys h = insert_below r ys h
  insert-append r (x ∷ xs) ys h = ground (arith, insert-append r xs ys h)

  here : (r : Row W) (id : String) → r.aggregate_id ≡ id → (r.aggregate_id == id) ≡ true
  here r id e = rw e (eq_refl id)

  select-Rise : (id : String) (v : ℕ) (rows : List (Row W)) → Rise id v rows → select id rows ≡ rows
  unfolding select
  select-Rise id v [] h = refl
  select-Rise id v (r ∷ rows) (e, less, k) =
      rw (select-Rise id r.version rows k) (
        rw (here r id e) (insert_below r rows (Rise-All id r.version r.version rows (le_refl _) k)))

  pub select-append :
      (id : String) (v : ℕ) (old new : List (Row W))
      → IsBelow id v old
      → Rise id v new
      → select id (old ++ new) ≡ select id old ++ new
  unfolding select
  select-append id v [] new h k = select-Rise id v new k
  select-append id v (r ∷ old) new h k = elim (Bool-cases (r.aggregate_id == id)) [
    | inl mine ↦
        rw (mine, select-append id v old new h.1 k)
          (insert-append r (select id old) new (Rise-All id r.version v new (h.0 mine) k))
    | inr not_mine ↦ rw not_mine (select-append id v old new h.1 k)
  ]
