-- ===== src/Order/Versions.antt =====
-- The versions of recorded events, on which the event store's optimistic locking rests.
use saga_market_order.Prelude.{
  ℕ, suc, ◌+◌, ◌≤◌, ◌≡◌, refl, ap, ◌∙◌, sym, ◌⊎◌, inl, inr, Bool, true, false, Option, none, List,
  String, [], ◌∷◌, ◌++◌, arith, if◌then◌else◌, int_suc, int_max, length, All, map, length-append,
  All-append, map-append, ap₂,
}
use saga_market_order.Float.{Float}
use saga_market_order.Order.Events.{Event, base_of, order_accepted, order_updated}
use saga_market_order.Order.Aggregate.{Order, Error, Outcome, when, apply, new_order}
use saga_market_order.Order.Commands.{Stamp}
use saga_market_order.Order.Run.{Command, execute, execute_all}
use saga_market_order.Order.Emits.{Emits, is_handled, execute-IsLawful, update_fields_same}

abbrev pub is_accept : {W : Type 0} → Command W → Bool
is_accept (Command.accept_order _ _ _ _ _ _) = true
is_accept _ = false

-- Commands to an order that exists: no `AcceptOrder` among them.
abbrev pub AreFollowUps : {W : Type 0} → List (Command W × Stamp) → Type 0
AreFollowUps = All (λ c. is_accept c.0 ≡ false)

-- The numbers after `v`, one for each element.
abbrev pub numbers {ℓ} : {A : Type ℓ} → ℕ → List A → List ℕ
numbers v [] = []
numbers v (_ ∷ xs) = suc v ∷ numbers (suc v) xs

numbers_snoc {ℓ} :
    {A : Type ℓ} (v : ℕ) (xs : List A) (x : A)
    → numbers v (xs ++ x ∷ []) ≡ numbers v xs ++ suc (v + length xs) ∷ []
numbers_snoc v [] x = ground arith
numbers_snoc v (y ∷ xs) x = ground (arith, numbers_snoc (suc v) xs x)

module _ {W : Type 0} ⦃f : Float W⦄ where
  abbrev IsNext : Order W → Outcome W → Type 0
  IsNext o out = (out.0 ≡ o) ⊎ ((out.0.version ≡ int_suc o.version) × (out.0.id ≡ o.id))

  if_rule :
      (b : Bool) (o : Order W) (x y : Outcome W)
      → IsNext o x
      → IsNext o y
      → IsNext o (if b then x else y)
  if_rule true o x y p q = p
  if_rule false o x y p q = q

  abbrev is_accepted : Event W → Bool
  is_accepted (order_accepted _) = true
  is_accepted _ = false

  apply-IsNext :
      (e : Event W) (o : Order W)
      → (base_of e).version ≡ int_suc o.version
      → is_accepted e ≡ false
      → is_handled e ≡ true
      → IsNext o (apply e o)
  unfolding apply when
  apply-IsNext (order_accepted e) o v a h = cc
  apply-IsNext (order_updated e) o v a h =
      inr (v, ap (λ (p : Order W). p.id) (update_fields_same e.updated_fields o))
  apply-IsNext _ o v a h = ground arith

  refuse-IsNext : (o : Order W) (err : Option (Error W)) → IsNext o (o, err)
  refuse-IsNext o err = inl refl

  execute-IsNext :
      (c : Command W) (s : Stamp) (o : Order W) → is_accept c ≡ false → IsNext o (execute c s o)
  unfolding execute
  execute-IsNext (Command.accept_order _ _ _ _ _ _) s o h = cc
  execute-IsNext _ s o h = search (if_rule, apply-IsNext, refuse-IsNext) depth 7

  -- What `o` has recorded since its version was `v`; `id` is its id.
  pub record IsNumbered (v : ℕ) (id : String) (o : Order W) : Type 0 where
    pub versions :
        v + length o.changes ≤ int_max
        → map (λ e. (base_of e).version) o.changes ≡ numbers v o.changes
    pub owners : All (λ e. (base_of e).aggregate_id ≡ id) o.changes
    pub version : v + length o.changes ≤ int_max → o.version ≡ v + length o.changes
    pub same_id : o.id ≡ id

  abbrev version_of : Event W → ℕ
  version_of e = (base_of e).version

  Emits-version :
      (v : ℕ) (id : String) (o o' : Order W)
      → Emits o o'
      → o'.version ≡ int_suc o.version
      → IsNumbered v id o
      → v + length o'.changes ≤ int_max
      → o'.version ≡ suc (v + length o.changes)
  Emits-version v id o o' e n h bound =
      omega (arith, ap length e.appended, length-append o.changes (e.event ∷ []), h.version)

  Emits-IsNumbered :
      (v : ℕ) (id : String) (o o' : Order W)
      → Emits o o'
      → o'.version ≡ int_suc o.version
      → o'.id ≡ o.id
      → IsNumbered v id o
      → IsNumbered v id o'
  Emits-IsNumbered v id o o' e n i h = record {
    versions = λ bound.
        ap (map version_of) e.appended
        ∙ map-append version_of o.changes (e.event ∷ [])
        ∙ ap₂ (λ xs n. xs ++ n ∷ []) (h.versions (omega (arith, more)))
            (e.numbered ∙ Emits-version v id o o' e n h bound)
        ∙ sym (numbers_snoc v o.changes e.event)
        ∙ ap (numbers v) (sym e.appended);
    owners =
        rw e.appended
          (All-append _ o.changes (e.event ∷ []) h.owners (e.owned ∙ i ∙ h.same_id, tt));
    version = λ bound. omega (arith, more, Emits-version v id o o' e n h bound);
    same_id = i ∙ h.same_id;
  }
    where
      more : length o'.changes ≡ suc (length o.changes)
      more = omega (arith, ap length e.appended, length-append o.changes (e.event ∷ []))

  execute-IsNumbered :
      (v : ℕ) (id : String) (o : Order W) (c : Command W) (s : Stamp)
      → is_accept c ≡ false
      → IsNumbered v id o
      → IsNumbered v id (execute c s o).0
  execute-IsNumbered v id o c s a h = elim (execute-IsLawful c s o) [
    | inl same ↦ rw same h
    | inr done ↦ elim (execute-IsNext c s o a) [
      | inl same ↦ rw same h
      | inr next ↦ Emits-IsNumbered v id o (execute c s o).0 done.1 next.0 next.1 h
    ]
  ]

  pub execute_all-IsNumbered :
      (v : ℕ) (id : String) (o : Order W) (cs : List (Command W × Stamp))
      → AreFollowUps cs
      → IsNumbered v id o
      → IsNumbered v id (execute_all cs o)
  unfolding execute_all
  execute_all-IsNumbered v id o [] a h = h
  execute_all-IsNumbered v id o ((c, s) ∷ cs) a h =
      execute_all-IsNumbered v id (execute c s o).0 cs a.1 (execute-IsNumbered v id o c s a.0 h)

  pub unsaved-IsNumbered : (o : Order W) → o.changes ≡ [] → IsNumbered o.version o.id o
  unsaved-IsNumbered o h = record {
    versions = λ _. rw h refl;
    owners = rw h tt;
    version = λ _. rw h (omega arith);
    same_id = refl;
  }

  -- Whatever commands other than `AcceptOrder` are given to an order with no unsaved events, the
  -- events that they record are numbered one after another from the order's version, as long as
  -- these numbers fit a 64-bit `int`, all name the order, and the last is its version.
  pub versions-execute_all :
      (o : Order W) (cs : List (Command W × Stamp))
      → o.changes ≡ []
      → AreFollowUps cs
      → o.version + length (execute_all cs o).changes ≤ int_max
      → let o' = execute_all cs o in
        (map (λ e. (base_of e).version) o'.changes ≡ numbers o.version o'.changes)
        × All (λ e. (base_of e).aggregate_id ≡ o.id) o'.changes
        × (o'.version ≡ o.version + length o'.changes)
  versions-execute_all o cs h a bound =
      let n = execute_all-IsNumbered o.version o.id o cs a (unsaved-IsNumbered o h) in
      (n.versions bound, n.owners, n.version bound)

  -- What `AcceptOrder` makes of a new order.
  pub accepted-IsNumbered :
      (s : Stamp) (id user : String) (amount : W) (from to kind : String)
      → let out = execute (Command.accept_order id user amount from to kind) s new_order in
        out.1 ≡ none → IsNumbered 0 id out.0
  unfolding execute apply when new_order
  accepted-IsNumbered s id user amount from to kind h = record {
    versions = λ _. ground arith;
    owners = ground arith;
    version = λ _. ground arith;
    same_id = ground arith;
  }
