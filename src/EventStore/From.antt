-- ===== src/EventStore/From.antt =====
-- infrastructure/eventstore/postgres.go: `LoadFromVersion`.
use saga_market_order.Prelude.{
  ℕ, ◌≤◌, ◌<◌, ◌≡◌, refl, ap, sym, String, true, Option, none, some, List, [], ◌∷◌, ◌++◌, ◌==◌,
  if◌then◌else◌, leb, All, All-imp, Bool-cases, inl, inr, arith,
}
use saga_market_order.Prelude.Membership.{take}
use saga_market_order.EventStore.Postgres.{
  Row, Database, Link, insert_by_version, select, failure, scan_rows, load,
}
use saga_market_order.Result.{Result, text, ok, err, ◌>>=◌}

module _ {W : Type 0} where
  -- `version >= $2`
  unfoldable pub from_version : ℕ → List (Row W) → List (Row W)
  from_version v [] = []
  from_version v (r ∷ rows) =
      let rest = from_version v rows in if leb v r.version then r ∷ rest else rest

  -- The cursor gives all rows, or fails behind so many; no code asks which.
  abbrev pub cursor : Option ℕ → List (Row W) → List (Row W)
  cursor none rows = rows
  cursor (some n) rows = take n rows

  -- The loop over the rows. The errors are returned as they are.
  abbrev pub scan_from : Option String → List (Row W) → Result W (List (Row W))
  scan_from answer [] = ok []
  scan_from answer (r ∷ rows) = do _ ← failure answer text; ok (r ∷ rows)

  unfoldable pub load_from_version :
      Link → Option ℕ → String → ℕ → Database W → Result W (List (Row W))
  unfolding from_version
  load_from_version link read id v db = do
    _ ← failure link.query text
    scan_from link.scan (cursor read (from_version v (select id db.events)))

  -- The versions rise, or stay.
  abbrev Sorted : List (Row W) → Type 0
  Sorted [] = Unit
  Sorted (r ∷ rows) = All (λ x. r.version ≤ x.version) rows × Sorted rows

  insert-All :
      (P : Row W → Type 0) (r : Row W) (rows : List (Row W))
      → P r
      → All P rows
      → All P (insert_by_version r rows)
  unfolding insert_by_version
  insert-All P r [] p h = (p, tt)
  insert-All P r (x ∷ rows) p (h, hs) = elim (Bool-cases (leb r.version x.version)) [
    | inl first ↦ rw first (p, (h, hs))
    | inr later ↦ rw later (h, insert-All P r rows p hs)
  ]

  insert-Sorted :
      (r : Row W) (rows : List (Row W)) → Sorted rows → Sorted (insert_by_version r rows)
  unfolding insert_by_version
  insert-Sorted r [] h = (tt, tt)
  insert-Sorted r (x ∷ rows) (h, hs) = elim (Bool-cases (leb r.version x.version)) [
    | inl first ↦
        let le : r.version ≤ x.version = ground arith in
        rw first ((le, All-imp _ _ rows (λ y k. omega arith) h), (h, hs))
    | inr later ↦ rw later (insert-All _ r rows (ground arith) h, insert-Sorted r rows hs)
  ]

  select-Sorted : (id : String) (rows : List (Row W)) → Sorted (select id rows)
  unfolding select
  select-Sorted id [] = tt
  select-Sorted id (r ∷ rows) = elim (Bool-cases (r.aggregate_id == id)) [
    | inl mine ↦ rw mine (insert-Sorted r (select id rows) (select-Sorted id rows))
    | inr other ↦ rw other (select-Sorted id rows)
  ]

  from-all :
      (v : ℕ) (rows : List (Row W)) → All (λ r. v ≤ r.version) rows → from_version v rows ≡ rows
  unfolding from_version
  from-all v [] h = refl
  from-all v (r ∷ rows) (h, hs) =
      let above : leb v r.version ≡ true = ground arith in
      rw above (ap (λ l. r ∷ l) (from-all v rows hs))

  -- Rows with rising versions split at a version.
  split :
      (v : ℕ) (rows : List (Row W))
      → Sorted rows
      → (before : List (Row W)) × (rows ≡ before ++ from_version v rows)
        × All (λ r. r.version < v) before
        × All (λ r. v ≤ r.version) (from_version v rows)
  unfolding from_version
  split v [] h = ([], refl, tt, tt)
  split v (r ∷ rows) (h, hs) = elim (Bool-cases (leb v r.version)) [
    | inl above ↦
        let le : v ≤ r.version = ground arith in
        let all = All-imp _ (λ x. v ≤ x.version) rows (λ x k. omega arith) h in
        let same = from-all v rows all in
        rw above ([], ap (λ l. r ∷ l) (sym same), tt, (le, rw same all))
    | inr below ↦
        let lt : r.version < v = ground arith in
        let (before, e, low, high) = split v rows hs in
        rw below (r ∷ before, ap (λ l. r ∷ l) e, (lt, low), high)
  ]

  scan_from-ok :
      (answer : Option String) (rows : List (Row W))
      → answer ≡ none
      → scan_from answer rows ≡ ok rows
  scan_from-ok answer [] h = refl
  scan_from-ok answer (r ∷ rows) h = rw h refl

  scan_rows-ok :
      (link : Link) (rows : List (Row W)) → link.scan ≡ none → scan_rows link rows ≡ ok rows
  scan_rows-ok link [] h = refl
  scan_rows-ok link (r ∷ rows) h = rw h refl

  -- With a database that answers, `LoadFromVersion` gives the end of what `Load` gives: the events
  -- from the version on, and all that `Load` has in front of them are below it.
  pub load_from_version-suffix :
      (link : Link) (id : String) (v : ℕ) (db : Database W)
      → link.query ≡ none
      → link.scan ≡ none
      → link.rows ≡ none
      → (before : List (Row W)) × (after : List (Row W)) × (load link id db ≡ ok (before ++ after))
        × (load_from_version link none id v db ≡ ok after)
        × All (λ r. r.version < v) before
        × All (λ r. v ≤ r.version) after
  unfolding load load_from_version
  load_from_version-suffix link id v db q c r =
      let all = select id db.events in
      let (before, e, low, high) = split v all (select-Sorted id db.events) in
      (
        before,
        from_version v all,
        rw (q, scan_rows-ok link all c, r) (ap ok e),
        rw q (scan_from-ok link.scan (from_version v all) c),
        low,
        high,
      )

  -- A cursor that fails behind some rows is an error of `Load`, but not of `LoadFromVersion`: this
  -- returns the rows read so far as if they were all.
  pub cursor_failure :
      (link : Link) (n : ℕ) (id m : String) (v : ℕ) (db : Database W)
      → link.query ≡ none
      → link.scan ≡ none
      → link.rows ≡ some m
      → (load link id db ≡ err (text m))
        × (load_from_version link (some n) id v db
            ≡ ok (take n (from_version v (select id db.events))))
  unfolding load load_from_version
  cursor_failure link n id m v db q c r =
      let all = select id db.events in
      (
        rw (q, scan_rows-ok link all c, r) refl,
        rw q (scan_from-ok link.scan (take n (from_version v all)) c),
      )
