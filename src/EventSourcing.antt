-- ===== src/EventSourcing.antt =====
-- What the three aggregates share: the replay loop of application/aggregates/aggregate_store.go and
-- of infrastructure/repository (`for _, evt := range events { … When(…) }`), and why an aggregate
-- that records each event which it applies is the replay of its record.
use saga_market_order.Prelude.{
  ◌≡◌, ap, ◌∙◌, ◌⊎◌, inl, inr, Option, none, some, List, [], ◌∷◌, ◌++◌, arith,
}

module _ {S E X : Type 0} (when : E → S → S × Option X) where
  -- The loop over the events; it ends at the first error.
  unfoldable pub replay : List E → S → S × Option X
  replay [] o = (o, none)
  replay (e ∷ es) o =
      let (o', err) = when e o in elim err [ none ↦ replay es o' | some x ↦ (o', some x) ]

  -- Replaying goes through a list that is split anywhere, as long as the first part succeeds.
  pub replay-append :
      (xs ys : List E) (o p : S) → replay xs o ≡ (p, none) → replay (xs ++ ys) o ≡ replay ys p
  unfolding replay
  replay-append [] ys o p h = ap (λ q. replay ys q.0) h
  replay-append (x ∷ xs) ys o p h = ground (arith, replay-append xs ys (when x o).0 p)

  pub replay_one : (e : E) (o p : S) → when e o ≡ (p, none) → replay (e ∷ []) o ≡ (p, none)
  unfolding replay
  replay_one e o p h = ground arith

  module _ (changes : S → List E) (strip : S → S) where
    -- From `o` to `o'` by one event, which is recorded and brings about the change.
    pub record Emits (o o' : S) : Type 0 where
      pub event : E
      pub appended : changes o' ≡ changes o ++ event ∷ []
      pub replays : when event (strip o) ≡ (strip o', none)

    -- A command leaves the aggregate, or succeeds by one event.
    abbrev pub IsLawful : S → S × Option X → Type 0
    IsLawful o out = (out.0 ≡ o) ⊎ ((out.1 ≡ none) × Emits o out.0)

    -- The aggregate is what its recorded events make of `base`.
    abbrev pub IsReplay : S → S → Type 0
    IsReplay base o = replay (changes o) base ≡ (strip o, none)

    pub Emits-IsReplay : (base o o' : S) → Emits o o' → IsReplay base o → IsReplay base o'
    Emits-IsReplay base o o' e h = rw e.appended (
        replay-append (changes o) (e.event ∷ []) base (strip o) h
        ∙ replay_one e.event (strip o) (strip o') e.replays)

    pub IsLawful-IsReplay :
        (base o : S) (out : S × Option X) → IsLawful o out → IsReplay base o → IsReplay base out.0
    IsLawful-IsReplay base o out (inl same) h = rw same h
    IsLawful-IsReplay base o out (inr done) h = Emits-IsReplay base o out.0 done.1 h

module _ {C S X : Type 0} (run : C → S → S × Option X) where
  -- Commands one after another; an error does not stop the run.
  unfoldable pub run_all : List C → S → S
  run_all [] o = o
  run_all (c ∷ cs) o = run_all cs (run c o).0

  pub run_all_inv :
      (P : S → Type 0)
      → ((c : C) (o : S) → P o → P (run c o).0)
      → (cs : List C) (o : S) → P o
      → P (run_all cs o)
  unfolding run_all
  run_all_inv P keep [] o h = h
  run_all_inv P keep (c ∷ cs) o h = run_all_inv P keep cs (run c o).0 (keep c o h)

module _ {C S E X : Type 0} (when : E → S → S × Option X) (changes : S → List E) (strip : S → S)
    (strip_lem : (o : S) → changes o ≡ [] → strip o ≡ o) (run : C → S → S × Option X)
    (lawful : (c : C) (o : S) → IsLawful when changes strip o (run c o)) where
  -- An aggregate with no unsaved events is, after any commands, the replay of what they record.
  pub replay-run_all :
      (cs : List C) (o : S)
      → changes o ≡ []
      → let o' = run_all run cs o in replay when (changes o') o ≡ (strip o', none)
  replay-run_all cs o h =
      run_all_inv run (IsReplay when changes strip o)
        (λ c p. IsLawful-IsReplay when changes strip o p (run c p) (lawful c p)) cs o (start h)
    where
      start : changes o ≡ [] → IsReplay when changes strip o o
      start h = unfold replay in rw (h, replay, strip_lem o h)
