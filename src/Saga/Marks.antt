-- ===== src/Saga/Marks.antt =====
-- That an event is marked as processed is stable.
use saga_market_order.Prelude.{String, ◌≡◌, true, List, [], ◌∷◌, ◌++◌, arith}
use saga_market_order.Float.{Float}
use saga_market_order.EventStore.Postgres.{Processed, Database}
use saga_market_order.Saga.World.{has_row, insert_processed}
use saga_market_order.Saga.Keeps.{IsStable}

has_row-append :
    (id : String) (rows more : List Processed)
    → has_row id rows ≡ true
    → has_row id (rows ++ more) ≡ true
unfolding has_row
has_row-append id [] more h = cc
has_row-append id (r ∷ rows) more h = ground (arith, has_row-append id rows more)

insert_processed-keeps :
    (id : String) (r : Processed) (rows : List Processed)
    → has_row id rows ≡ true
    → has_row id (insert_processed r rows) ≡ true
unfolding insert_processed
insert_processed-keeps id r rows h = ground (arith, has_row-append id rows (r ∷ []) h)

module _ {W : Type 0} ⦃f : Float W⦄ where
  abbrev pub IsMarked : String → Database W → Type 0
  IsMarked id db = has_row id db.processed ≡ true

  pub IsMarked-IsStable : (id : String) → IsStable (IsMarked id)
  IsMarked-IsStable id = record {
    saved = λ adds h. rw (adds.processed) h;
    marked = λ r db h. insert_processed-keeps id r db.processed h;
    updated = λ rows db h. h;
  }
