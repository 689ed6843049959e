-- ===== src/AggregateStore/Reloads.antt =====
-- Saving an order and loading it again.
use saga_market_order.Prelude.{
  ℕ, ◌+◌, ◌≤◌, ◌<◌, ◌≡◌, ◌≢◌, refl, ◌⊎◌, inl, inr, Option, none, some, List, [], ◌∷◌, arith, String,
  ◌==◌, All, map, length, length-append, int_max, subst, ap, ◌∙◌, Bool-cases,
}
use saga_market_order.Float.{Float}
use saga_market_order.EventSourcing.{replay}
use saga_market_order.EventStore.Serializer.{order_event}
use saga_market_order.EventStore.Postgres.{Row, Database, Link, save, select, insert_by_version}
use saga_market_order.EventStore.Atomicity.{Adds, save_atomic}
use saga_market_order.EventStore.Selection.{IsBelow}
use saga_market_order.Order.Aggregate.{Order, when, apply, new_order}
use saga_market_order.Order.Commands.{Stamp}
use saga_market_order.Order.Run.{Command, execute, execute_all}
use saga_market_order.Order.Emits.{strip, execute-IsLawful}
use saga_market_order.Order.Readable.{IsReadable, AreCore, execute_all-Reads}
use saga_market_order.Order.Replay.{replay-execute_all}
use saga_market_order.Order.Validity.{Terms, accept}
use native.Mathlib.Nat.{le_refl}
use saga_market_order.Order.Versions.{
  AreFollowUps, IsNumbered, execute_all-IsNumbered, unsaved-IsNumbered, accepted-IsNumbered,
}
use saga_market_order.AggregateStore.Store.{
  if_any, order_saved, replay_order, load_order_aggregate, save_order_aggregate,
}
use saga_market_order.AggregateStore.Orders.{IsUp, Holds, IsRecord, Adds-Holds, load-Holds}
use saga_market_order.Result.{Failure, ok}

if_any_left : {A B : Type 0} (l : List A) (x y : B) → l ≢ [] → if_any l x y ≡ x
if_any_left [] x y n = absurd (n refl)
if_any_left (_ ∷ _) x y n = refl

length_pos : {A : Type 0} (l : List A) → l ≢ [] → 0 < length l
length_pos [] n = absurd (n refl)
length_pos (x ∷ l) n = omega arith

not_empty : {A : Type 0} (l : List A) → 0 < length l → l ≢ []
not_empty [] h = absurd (omega arith)
not_empty (x ∷ l) h = ground arith

module _ {W : Type 0} ⦃f : Float W⦄ where
  saved-Holds :
      (link : Link) (base o : Order W) (db : Database W) (out : Database W × Option (Failure W))
      → IsRecord base o
      → Holds o.id base db
      → o.changes ≢ []
      → IsUp link
      → ((out.1 ≡ none) × Adds (map order_event o.changes) db out.0)
        ⊎ (((x : Failure W) × (out.1 ≡ some x)) × (out.0 ≡ db))
      → (order_saved o out).2 ≡ none
      → let (o', db', _) = order_saved o out in
        (load_order_aggregate link o.id db' ≡ ok o') × (o' ≡ strip o) × Holds o.id o' db'
  saved-Holds link base o db (db', none) c h n up (inl (_, adds)) e =
      let held = Adds-Holds base o db db' c h adds in
      (
        load-Holds link o.id (strip o) db' up (omega (arith, c.version, length_pos o.changes n))
            held,
        refl,
        held,
      )
  saved-Holds link base o db (db', none) c h n up (inr ((x, e), _)) _ = cc
  saved-Holds link base o db (db', some x) c h n up _ e = cc

  -- Saving what an order has recorded since it was loaded, or since it was new, and loading it again
  -- gives the order, with no unsaved events: if the save succeeds, and the load meets no failure of
  -- the database. The store then holds the order, so that this can go on.
  pub load-save_order :
      (link : Link) (base o : Order W) (db : Database W)
      → IsRecord base o
      → Holds o.id base db
      → o.changes ≢ []
      → IsUp link
      → (save_order_aggregate link o db).2 ≡ none
      → let (o', db', _) = save_order_aggregate link o db in
        (load_order_aggregate link o.id db' ≡ ok o') × (o' ≡ strip o) × Holds o.id o' db'
  unfolding save_order_aggregate
  load-save_order link base o db c h n up = rw (if_any_left o.changes _ _ n) (
      saved-Holds link base o db (save link (map order_event o.changes) db) c h n up
        (save_atomic link (map order_event o.changes) db))

  reload_numbered :
      (link : Link) (base o : Order W) (v : ℕ) (id : String) (db : Database W)
      → replay when o.changes base ≡ (strip o, none)
      → base.version ≡ v
      → IsNumbered v id o
      → All IsReadable o.changes
      → v + length o.changes ≤ int_max
      → Holds id base db
      → o.changes ≢ []
      → IsUp link
      → (save_order_aggregate link o db).2 ≡ none
      → let (_, db', _) = save_order_aggregate link o db in
        (load_order_aggregate link id db' ≡ ok (strip o)) × Holds id (strip o) db'
  reload_numbered link base o v id db r same n reads bound h some_left up e =
      let c : IsRecord base o = record {
        replays = r;
        versions = rw same (n.versions bound);
        owners = rw n.same_id n.owners;
        readable = reads;
        version = rw same (n.version bound);
      } in
      let (read, unsaved, holds) =
        load-save_order link base o db c (rw n.same_id h) some_left up e in
      (
        subst (λ x. load_order_aggregate link x (save_order_aggregate link o db).1 ≡ ok (strip o))
            n.same_id (read ∙ ap ok unsaved),
        subst (λ x. Holds x (strip o) (save_order_aggregate link o db).1) n.same_id
            (subst (λ p. Holds o.id p (save_order_aggregate link o db).1) unsaved holds),
      )

  -- What commands of the use cases and the saga other than `AcceptOrder` record.
  pub follow_ups-IsRecord :
      (base : Order W) (cs : List (Command W × Stamp))
      → base.changes ≡ []
      → AreFollowUps cs
      → AreCore cs
      → base.version + length (execute_all cs base).changes ≤ int_max
      → IsRecord base (execute_all cs base)
  follow_ups-IsRecord base cs unsaved a core bound =
      let n =
        execute_all-IsNumbered base.version base.id base cs a (unsaved-IsNumbered base unsaved) in
      record {
        replays = replay-execute_all base cs unsaved;
        versions = n.versions bound;
        owners = rw n.same_id n.owners;
        readable = execute_all-Reads cs base core (rw unsaved tt);
        version = n.version bound;
      }

  -- An order is loaded as the store holds it, given any commands of the use cases and the saga but
  -- `AcceptOrder`, of which one at least is not refused, and saved without an error. Loading it
  -- then gives the order that the commands made, with no unsaved events, if the load meets no
  -- failure of the database and the version fits a 64-bit `int`. The store then holds that order.
  pub reload_follow_ups :
      (link : Link) (base : Order W) (cs : List (Command W × Stamp)) (db : Database W)
      → base.changes ≡ []
      → Holds base.id base db
      → AreFollowUps cs
      → AreCore cs
      → base.version + length (execute_all cs base).changes ≤ int_max
      → (execute_all cs base).changes ≢ []
      → IsUp link
      → (save_order_aggregate link (execute_all cs base) db).2 ≡ none
      → let o = execute_all cs base in
        let (_, db', _) = save_order_aggregate link o db in
        (load_order_aggregate link base.id db' ≡ ok (strip o)) × Holds base.id (strip o) db'
  reload_follow_ups link base cs db unsaved h a core bound some_left up e =
      reload_numbered link base (execute_all cs base) base.version base.id db
        (replay-execute_all base cs unsaved) refl
        (execute_all-IsNumbered base.version base.id base cs a (unsaved-IsNumbered base unsaved))
        (execute_all-Reads cs base core (rw unsaved tt)) bound h some_left up e

  insert_not_empty : (r : Row W) (rows : List (Row W)) → insert_by_version r rows ≢ []
  unfolding insert_by_version
  insert_not_empty r [] = ground arith
  insert_not_empty r (x ∷ rows) = ground arith

  pub no_rows-IsBelow :
      (id : String) (v : ℕ) (rows : List (Row W)) → select id rows ≡ [] → IsBelow id v rows
  unfolding select
  no_rows-IsBelow id v [] h = tt
  no_rows-IsBelow id v (r ∷ rows) h = elim (Bool-cases (r.aggregate_id == id)) [
    | inl mine ↦ absurd (insert_not_empty r (select id rows) (ground (arith, mine, h)))
    | inr other ↦ (λ mine. cc, no_rows-IsBelow id v rows (ground (arith, other, h)))
  ]

  no_rows-Holds : (id : String) (db : Database W) → select id db.events ≡ [] → Holds id new_order db
  unfolding replay_order new_order
  no_rows-Holds id db h = record { replays = rw h refl; below = no_rows-IsBelow id 0 db.events h }

  execute-length :
      (c : Command W) (s : Stamp) (o : Order W)
      → length o.changes ≤ length (execute c s o).0.changes
  execute-length c s o = elim (execute-IsLawful c s o) [
    | inl same ↦ rw same (le_refl _)
    | inr (_, e) ↦ omega (arith, ap length e.appended, length-append o.changes (e.event ∷ []))
  ]

  execute_all-length :
      (cs : List (Command W × Stamp)) (o : Order W)
      → length o.changes ≤ length (execute_all cs o).changes
  unfolding execute_all
  execute_all-length [] o = le_refl _
  execute_all-length ((c, s) ∷ cs) o =
      omega (arith, execute-length c s o, execute_all-length cs (execute c s o).0)

  accepted_order :
      (s : Stamp) (t : Terms W)
      → (execute (accept t) s new_order).1 ≡ none
      → let o = (execute (accept t) s new_order).0 in
        (0 < length o.changes) × All IsReadable o.changes
  unfolding execute apply when new_order
  accepted_order s t h = (ground arith, ground arith)

  new_order_lem : ((new_order {W = W}).version ≡ 0) × ((new_order {W = W}).changes ≡ [])
  unfolding new_order
  new_order_lem = (refl, refl)

  -- What `AcceptOrder` on a new order, and commands after it, make.
  abbrev pub accepted_then : Stamp → Terms W → List (Command W × Stamp) → Order W
  accepted_then s t cs = execute_all cs (execute (accept t) s new_order).0

  accepted_then-replay :
      (s : Stamp) (t : Terms W) (cs : List (Command W × Stamp))
      → let o = accepted_then s t cs in replay when o.changes new_order ≡ (strip o, none)
  unfolding execute_all
  accepted_then-replay s t cs = replay-execute_all new_order ((accept t, s) ∷ cs) new_order_lem.1

  -- An id that the store does not know is given to `AcceptOrder` on a new order, which succeeds.
  -- After any further commands of the use cases and the saga, if the save succeeds, the load meets
  -- no failure of the database and the number of events fits a 64-bit `int`, loading that id gives
  -- the order as the commands made it, with no unsaved events. The store then holds that order.
  pub reload_accepted :
      (link : Link) (s : Stamp) (t : Terms W) (cs : List (Command W × Stamp)) (db : Database W)
      → (execute (accept t) s new_order).1 ≡ none
      → select t.id db.events ≡ []
      → AreFollowUps cs
      → AreCore cs
      → length (accepted_then s t cs).changes ≤ int_max
      → IsUp link
      → (save_order_aggregate link (accepted_then s t cs) db).2 ≡ none
      → let o = accepted_then s t cs in
        let (_, db', _) = save_order_aggregate link o db in
        (load_order_aggregate link t.id db' ≡ ok (strip o)) × Holds t.id (strip o) db'
  reload_accepted link s t cs db done free a core bound up e =
      let first = (execute (accept t) s new_order).0 in
      let (some_left, reads) = accepted_order s t done in
      reload_numbered link new_order (accepted_then s t cs) 0 t.id db (accepted_then-replay s t cs)
        new_order_lem.0
        (execute_all-IsNumbered 0 t.id first cs a (
          accepted-IsNumbered s t.id t.user_id t.from_amount t.from_currency t.to_currency
            t.order_type done))
        (execute_all-Reads cs first core reads) (omega (arith, bound)) (no_rows-Holds t.id db free)
        (not_empty _ (omega (arith, some_left, execute_all-length cs first))) up e
