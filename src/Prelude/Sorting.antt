-- ===== src/Prelude/Sorting.antt =====
-- Go's `sort.Slice`, by what its documentation promises: the same elements, in an order in which
-- no element is less than one before it, if the comparison is a strict weak order on the elements.
-- In which order elements that tie are left is not promised, so the sort is a parameter.
use mathlib.Core.Path.{◌≡◌}
use mathlib.Core.Bool.{Bool, true, false}
use mathlib.Core.List.{List, [], ◌∷◌, Memᴰ, Permᴰ}
use saga_market_order.Prelude.Lists.{All}

module _ {ℓ} {A : Type ℓ} where
  pub record IsWeakOrder (less : A → A → Bool) (xs : List A) : Type ℓ where
    pub asym : (a b : A) → Memᴰ a xs → Memᴰ b xs → less a b ≡ true → less b a ≡ false
    pub negative :
        (a b c : A)
        → Memᴰ a xs
        → Memᴰ b xs
        → Memᴰ c xs
        → less a b ≡ false
        → less b c ≡ false
        → less a c ≡ false

  -- No element is less than one that stands before it.
  abbrev pub IsSorted : (A → A → Bool) → List A → Type ℓ
  IsSorted less [] = Unit
  IsSorted less (x ∷ xs) = All (λ y. less y x ≡ false) xs × IsSorted less xs

  pub All-perm {κ} : (P : A → Type κ) {xs ys : List A} → Permᴰ xs ys → All P ys → All P xs
  All-perm P Permᴰ.nil h = tt
  All-perm P (Permᴰ.cons e p) (h, hs) = (rw e h, All-perm P p hs)
  All-perm P (Permᴰ.swap e f) (h, (k, hs)) = (rw e k, (rw f h, hs))
  All-perm P (Permᴰ.trans p q) h = All-perm P p (All-perm P q h)

  pub All-mem {κ} : (P : A → Type κ) (xs : List A) {a : A} → All P xs → Memᴰ a xs → P a
  All-mem P [] h m = elim m [ ]
  All-mem P (x ∷ xs) (h, hs) (Memᴰ.head e) = rw e h
  All-mem P (x ∷ xs) (h, hs) (Memᴰ.tail m) = All-mem P xs hs m

pub record SortSlice {ℓ} (A : Type ℓ) : Type ℓ where
  pub sort : (A → A → Bool) → List A → List A
  pub perm : (less : A → A → Bool) (xs : List A) → Permᴰ (sort less xs) xs
  pub sorted :
      (less : A → A → Bool) (xs : List A) → IsWeakOrder less xs → IsSorted less (sort less xs)
