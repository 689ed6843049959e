-- ===== src/Prelude/Membership.antt =====
-- Members of lists, of their prefixes, their sublists and their permutations.
use Prim.Native.Nat.{ℕ, zero, suc}
use mathlib.Core.Path.{ap, ◌∙◌}
use mathlib.Core.List.{List, [], ◌∷◌, ◌++◌, map, Memᴰ, Permᴰ, Sublistᴰ}

abbrev pub take {ℓ} : {A : Type ℓ} → ℕ → List A → List A
take zero xs = []
take (suc n) [] = []
take (suc n) (x ∷ xs) = x ∷ take n xs

pub mem_append_left {ℓ} :
    {A : Type ℓ} {x : A} {xs : List A} (ys : List A) → Memᴰ x xs → Memᴰ x (xs ++ ys)
mem_append_left ys (Memᴰ.head e) = Memᴰ.head e
mem_append_left ys (Memᴰ.tail m) = Memᴰ.tail (mem_append_left ys m)

pub mem_append_right :
    {A : Type 0} {x : A} (xs : List A) {ys : List A} → Memᴰ x ys → Memᴰ x (xs ++ ys)
mem_append_right [] m = m
mem_append_right (x ∷ xs) m = Memᴰ.tail (mem_append_right xs m)

pub mem_map {ℓ κ} :
    {A : Type ℓ} {B : Type κ} (g : A → B) {x : A} {xs : List A} → Memᴰ x xs → Memᴰ (g x) (map g xs)
mem_map g (Memᴰ.head e) = Memᴰ.head (ap g e)
mem_map g (Memᴰ.tail m) = Memᴰ.tail (mem_map g m)

module _ {ℓ} {A : Type ℓ} where
  pub Sublist-Memᴰ : {xs ys : List (A)} (r : A) → Sublistᴰ xs ys → Memᴰ r xs → Memᴰ r ys
  Sublist-Memᴰ r Sublistᴰ.slnil m = elim m [ ]
  Sublist-Memᴰ r (Sublistᴰ.cons s) m = Memᴰ.tail (Sublist-Memᴰ r s m)
  Sublist-Memᴰ r (Sublistᴰ.cons-cons e s) (Memᴰ.head k) = Memᴰ.head (k ∙ e)
  Sublist-Memᴰ r (Sublistᴰ.cons-cons e s) (Memᴰ.tail m) = Memᴰ.tail (Sublist-Memᴰ r s m)

  pub take-Memᴰ : (n : ℕ) (rows : List (A)) {r : A} → Memᴰ r (take n rows) → Memᴰ r rows
  take-Memᴰ zero rows m = elim m [ ]
  take-Memᴰ (suc n) [] m = elim m [ ]
  take-Memᴰ (suc n) (r ∷ rows) (Memᴰ.head e) = Memᴰ.head e
  take-Memᴰ (suc n) (r ∷ rows) (Memᴰ.tail m) = Memᴰ.tail (take-Memᴰ n rows m)

  pub perm-Memᴰ : {xs ys : List (A)} {r : A} → Permᴰ xs ys → Memᴰ r xs → Memᴰ r ys
  perm-Memᴰ Permᴰ.nil m = m
  perm-Memᴰ (Permᴰ.cons e p) (Memᴰ.head k) = Memᴰ.head (k ∙ e)
  perm-Memᴰ (Permᴰ.cons e p) (Memᴰ.tail m) = Memᴰ.tail (perm-Memᴰ p m)
  perm-Memᴰ (Permᴰ.swap e f) (Memᴰ.head k) = Memᴰ.tail (Memᴰ.head (k ∙ e))
  perm-Memᴰ (Permᴰ.swap e f) (Memᴰ.tail (Memᴰ.head k)) = Memᴰ.head (k ∙ f)
  perm-Memᴰ (Permᴰ.swap e f) (Memᴰ.tail (Memᴰ.tail m)) = Memᴰ.tail (Memᴰ.tail m)
  perm-Memᴰ (Permᴰ.trans p q) m = perm-Memᴰ q (perm-Memᴰ p m)
