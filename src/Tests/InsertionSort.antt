-- ===== src/Tests/InsertionSort.antt =====
-- A sort that keeps the promises of Go's `sort.Slice`.
use mathlib.Core.Path.{◌≡◌, refl}
use mathlib.Core.List.{Memᴰ, Permᴰ}
use mathlib.Core.List.Permᴰ
use saga_market_order.Prelude.{
  Bool, true, false, List, [], ◌∷◌, if◌then◌else◌, All, All-imp, Bool-cases, inl, inr,
}
use saga_market_order.Prelude.Sorting.{IsWeakOrder, IsSorted, SortSlice}

module _ {A : Type 0} (less : A → A → Bool) where
  unfoldable pub insert : A → List A → List A
  insert x [] = x ∷ []
  insert x (y ∷ ys) = if less x y then x ∷ y ∷ ys else y ∷ insert x ys

  unfoldable pub insertion_sort : List A → List A
  unfolding insert
  insertion_sort [] = []
  insertion_sort (x ∷ xs) = insert x (insertion_sort xs)

  insert-perm : (x : A) (ys : List A) → Permᴰ (insert x ys) (x ∷ ys)
  unfolding insert
  insert-perm x [] = Permᴰ.refl _
  insert-perm x (y ∷ ys) = elim (Bool-cases (less x y)) [
    | inl c ↦ rw c (Permᴰ.refl _)
    | inr c ↦ rw c (Permᴰ.trans (Permᴰ.cons refl (insert-perm x ys)) (Permᴰ.swap refl refl))
  ]

  pub insertion_sort-perm : (xs : List A) → Permᴰ (insertion_sort xs) xs
  unfolding insertion_sort
  insertion_sort-perm [] = Permᴰ.nil
  insertion_sort-perm (x ∷ xs) =
      Permᴰ.trans (insert-perm x (insertion_sort xs)) (Permᴰ.cons refl (insertion_sort-perm xs))

  insert-All : (P : A → Type 0) (x : A) (ys : List A) → P x → All P ys → All P (insert x ys)
  unfolding insert
  insert-All P x [] p ps = (p, tt)
  insert-All P x (y ∷ ys) p ps = elim (Bool-cases (less x y)) [
    | inl c ↦ rw c (p, ps)
    | inr c ↦ rw c (ps.0, insert-All P x ys p ps.1)
  ]

  insertion_sort-All : (P : A → Type 0) (xs : List A) → All P xs → All P (insertion_sort xs)
  unfolding insertion_sort
  insertion_sort-All P [] h = tt
  insertion_sort-All P (x ∷ xs) (p, ps) =
      insert-All P x (insertion_sort xs) p (insertion_sort-All P xs ps)

  pub all_members : (xs : List A) → All (λ x. Memᴰ x xs) xs
  all_members [] = tt
  all_members (x ∷ xs) = (Memᴰ.head refl, All-imp _ _ xs (λ y m. Memᴰ.tail m) (all_members xs))

  module _ (l : List A) (w : IsWeakOrder less l) where
    above :
        (x y : A) (ys : List A)
        → Memᴰ x l
        → Memᴰ y l
        → All (λ z. Memᴰ z l) ys
        → less x y ≡ true
        → All (λ z. less z y ≡ false) ys
        → All (λ z. less z x ≡ false) ys
    above x y [] m n ns c h = tt
    above x y (z ∷ ys) m n ns c h =
        (w.negative z y x ns.0 n m h.0 (w.asym x y m n c), above x y ys m n ns.1 c h.1)

    insert-IsSorted :
        (x : A) (ys : List A)
        → Memᴰ x l
        → All (λ y. Memᴰ y l) ys
        → IsSorted less ys
        → IsSorted less (insert x ys)
    unfolding insert
    insert-IsSorted x [] m ms h = (tt, tt)
    insert-IsSorted x (y ∷ ys) m ms h = elim (Bool-cases (less x y)) [
      | inl c ↦ rw c ((w.asym x y m ms.0 c, above x y ys m ms.0 ms.1 c h.0), h)
      | inr c ↦
          rw c (insert-All (λ z. less z y ≡ false) x ys c h.0, insert-IsSorted x ys m ms.1 h.1)
    ]

    pub sort_members : (xs : List A) → All (λ x. Memᴰ x l) xs → IsSorted less (insertion_sort xs)
    unfolding insertion_sort
    sort_members [] ms = tt
    sort_members (x ∷ xs) (m, ms) =
        insert-IsSorted x (insertion_sort xs) m (insertion_sort-All _ xs ms) (sort_members xs ms)

instance unfoldable pub insertion_sorter : {A : Type 0} → SortSlice A
unfolding insertion_sort
insertion_sorter = record {
  sort = insertion_sort;
  perm = insertion_sort-perm;
  sorted = λ less xs w. sort_members less xs w xs (all_members less xs);
}
