-- ===== src/AggregateStore/Loads.antt =====
-- What a load that succeeds has read: all rows of the aggregate.
use mathlib.Core.List.{Memᴰ}
use package.text.Mathlib.TextPositions.{eq_refl}
use saga_market_order.Prelude.{
  String, ◌≡◌, sym, ap, subst, ◌∙◌, inl, inr, true, List, [], ◌∷◌, arith, ◌==◌, leb, Bool-cases,
}
use saga_market_order.EventStore.Postgres.{
  Row, Database, Link, insert_by_version, select, load, scan_rows, failure,
}
use saga_market_order.AggregateStore.Store.{found}
use saga_market_order.Result.{Result, ◌>>=◌, wrap, text, ok, within, >>=-eq-ok, within_ok}

module _ {W : Type 0} where
  behind :
      (r x y : Row W) (rows : List (Row W))
      → (Memᴰ x (r ∷ rows) → Memᴰ x (insert_by_version r rows))
      → Memᴰ x (r ∷ y ∷ rows)
      → Memᴰ x (y ∷ insert_by_version r rows)
  behind r x y rows k (Memᴰ.head e) = Memᴰ.tail (k (Memᴰ.head e))
  behind r x y rows k (Memᴰ.tail (Memᴰ.head e)) = Memᴰ.head e
  behind r x y rows k (Memᴰ.tail (Memᴰ.tail n)) = Memᴰ.tail (k (Memᴰ.tail n))

  insert-Mem :
      (r x : Row W) (rows : List (Row W)) → Memᴰ x (r ∷ rows) → Memᴰ x (insert_by_version r rows)
  unfolding insert_by_version
  insert-Mem r x [] m = m
  insert-Mem r x (y ∷ rows) m = elim (Bool-cases (leb r.version y.version)) [
    | inl c ↦ rw c m
    | inr c ↦ rw c (behind r x y rows (insert-Mem r x rows) m)
  ]

  mine_lem :
      {id : String} {x r : Row W} → x ≡ r → x.aggregate_id ≡ id → (r.aggregate_id == id) ≡ true
  mine_lem {id} {x} {r} e h =
      let k : r.aggregate_id ≡ id = sym (ap (λ (y : Row W). y.aggregate_id) e) ∙ h in
      rw k (eq_refl id)

  pub select-Mem :
      (id : String) (x : Row W) (rows : List (Row W))
      → Memᴰ x rows
      → x.aggregate_id ≡ id
      → Memᴰ x (select id rows)
  unfolding select
  select-Mem id x [] m h = elim m [ ]
  select-Mem id x (r ∷ rows) (Memᴰ.head e) h =
      rw (mine_lem e h) (insert-Mem r x (select id rows) (Memᴰ.head e))
  select-Mem id x (r ∷ rows) (Memᴰ.tail m) h = elim (Bool-cases (r.aggregate_id == id)) [
    | inl mine ↦ rw mine (insert-Mem r x (select id rows) (Memᴰ.tail (select-Mem id x rows m h)))
    | inr other ↦ rw other (select-Mem id x rows m h)
  ]

  pub found_lem :
      (message : String) (rows : List (Row W)) {rows' : List (Row W)}
      → found message rows ≡ ok rows'
      → rows ≡ rows'
  found_lem message [] h = cc
  found_lem message (r ∷ rows) h = cc

  scan_lem :
      (link : Link) (rows : List (Row W)) {rows' : List (Row W)}
      → scan_rows link rows ≡ ok rows'
      → rows ≡ rows'
  scan_lem link [] h = cc
  scan_lem link (r ∷ rows) h = ground arith

  pub load_lem :
      (link : Link) (id : String) (db : Database W) {rows : List (Row W)}
      → load link id db ≡ ok rows
      → select id db.events ≡ rows
  unfolding load
  load_lem link id db h =
      let (_, _, rest) =
        >>=-eq-ok (failure link.query (λ m. wrap "failed to query events" (text m))) _ h in
      let (rows, scanned, rest') = >>=-eq-ok (scan_rows link (select id db.events)) _ rest in
      let (_, _, last) = >>=-eq-ok (failure link.rows text) _ rest' in
      scan_lem link (select id db.events) scanned ∙ cc last

  -- The rows that a load has replayed, with any row of the aggregate among them.
  pub loaded_rows :
      {A : Type 0} (link : Link) (id : String) (r : Row W) (db : Database W)
      (k : List (Row W) → Result W A) {a : A}
      → Memᴰ r db.events
      → r.aggregate_id ≡ id
      → (within "failed to load events" (load link id db) >>= λ events.
          found "aggregate not found" events >>= k)
        ≡ ok a
      → (rows : List (Row W)) × Memᴰ r rows × (k rows ≡ ok a)
  loaded_rows link id r db k m own done =
      let (rows, loaded, rest) =
        >>=-eq-ok (within "failed to load events" (load link id db)) _ done in
      let (rows', some_found, last) = >>=-eq-ok (found "aggregate not found" rows) _ rest in
      let all : select id db.events ≡ rows' =
        load_lem link id db (within_ok _ (load link id db) loaded) ∙ found_lem _ rows some_found in
      (rows', subst (λ l. Memᴰ r l) all (select-Mem id r db.events m own), last)
