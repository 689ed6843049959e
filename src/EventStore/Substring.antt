-- ===== src/EventStore/Substring.antt =====
-- infrastructure/eventstore/serializer.go: `containsString` is the search for a substring.
use saga_market_order.Prelude.{
  ℕ, zero, suc, ◌+◌, ◌-◌, ◌≤◌, ◌<◌, ◌≡◌, ◌≢◌, ◌↔◌, refl, sym, ap, ◌∙◌, subst, ◌⊎◌, inl, inr, Bool,
  true, ◌&&◌, ◌||◌, List, [], ◌∷◌, ◌++◌, append-nil, length, length-append, leb, ltb, Bool-cases,
  arith,
}
use native.Mathlib.Decide.{ℕ_discrete}
use saga_market_order.EventStore.ErrorText.{
  take, drop, bytes_eq, slice, search_from, contains_string,
}

take-drop : (n : ℕ) (s : List ℕ) → s ≡ take n s ++ drop n s
take-drop zero s = refl
take-drop (suc n) [] = refl
take-drop (suc n) (c ∷ s) = ap (λ l. c ∷ l) (take-drop n s)

drop-append : (s t : List ℕ) → drop (length s) (s ++ t) ≡ t
drop-append [] t = refl
drop-append (c ∷ s) t = drop-append s t

take-append : (s t : List ℕ) → take (length s) (s ++ t) ≡ s
take-append [] t = refl
take-append (c ∷ s) t = ap (λ l. c ∷ l) (take-append s t)

bytes_eq_refl : (s : List ℕ) → bytes_eq s s ≡ true
bytes_eq_refl [] = refl
bytes_eq_refl (c ∷ s) = ground (arith, bytes_eq_refl s)

bytes_eq_sound : (s t : List ℕ) → bytes_eq s t ≡ true → s ≡ t
bytes_eq_sound [] [] h = refl
bytes_eq_sound [] (d ∷ t) h = cc
bytes_eq_sound (c ∷ s) [] h = cc
bytes_eq_sound (c ∷ s) (d ∷ t) h = ground (arith, bytes_eq_sound s t)

-- `sub` stands somewhere in `s`.
abbrev pub Occurs : List ℕ → List ℕ → Type 0
Occurs sub s = (before : List ℕ) × (after : List ℕ) × (s ≡ before ++ (sub ++ after))

slice-Occurs : (s sub : List ℕ) (i j : ℕ) → bytes_eq (slice s i j) sub ≡ true → Occurs sub s
slice-Occurs s sub i j h = (
  take i s,
  drop (j - i) (drop i s),
  take-drop i s
      ∙ ap (λ l. take i s ++ l)
          (take-drop (j - i) (drop i s)
            ∙ ap (λ l. l ++ drop (j - i) (drop i s)) (bytes_eq_sound _ sub h)),
)

search_from-Occurs :
    (rounds i : ℕ) (s sub : List ℕ) → search_from rounds i s sub ≡ true → Occurs sub s
unfolding search_from
search_from-Occurs zero i s sub h = cc
search_from-Occurs (suc rounds) i s sub h =
    elim (Bool-cases (bytes_eq (slice s i (i + length sub)) sub)) [
      | inl here ↦ slice-Occurs s sub i (i + length sub) here
      | inr later ↦ search_from-Occurs rounds (i + 1) s sub (ground arith)
    ]

found_at :
    (rounds i j : ℕ) (s sub : List ℕ)
    → i ≤ j
    → j < i + rounds
    → bytes_eq (slice s j (j + length sub)) sub ≡ true
    → search_from rounds i s sub ≡ true
unfolding search_from
found_at zero i j s sub h k e = absurd (omega arith)
found_at (suc rounds) i j s sub h k e = elim (ℕ_discrete i j) [
  | yes here ↦
      ground (arith, subst (λ n. bytes_eq (slice s n (n + length sub)) sub ≡ true) (sym here) e)
  | no later ↦ ground (arith, found_at rounds (i + 1) j s sub (omega arith) (omega arith) e)
]

cut :
    (before sub after : List ℕ)
    → slice (before ++ (sub ++ after)) (length before) (length before + length sub) ≡ sub
cut before sub after =
    let e : length before + length sub - length before ≡ length sub = omega arith in
    rw (e, drop-append before (sub ++ after)) (take-append sub after)

any_of :
    (a b c d e f g : Bool)
    → (a && (b || (c && d && (e || f || g)))) ≡ true
    → (b ≡ true) ⊎ ((e ≡ true) ⊎ ((f ≡ true) ⊎ (g ≡ true)))
any_of a b c d e f g h = ground arith

search_suffices :
    (a b c d e f g : Bool)
    → a ≡ true
    → c ≡ true
    → d ≡ true
    → g ≡ true
    → (a && (b || (c && d && (e || f || g)))) ≡ true
search_suffices a b c d e f g h k l m = ground arith

contains-Occurs : (s sub : List ℕ) → contains_string s sub ≡ true → Occurs sub s
unfolding contains_string
contains-Occurs s sub h =
    elim (any_of (leb (length sub) (length s)) (bytes_eq s sub) (ltb 0 (length s))
      (ltb 0 (length sub)) (bytes_eq (slice s 0 (length sub)) sub)
      (bytes_eq (slice s (length s - length sub) (length s)) sub)
      (search_from (length s - length sub + 1) 0 s sub) h) [
        | inl same ↦ ([], [], bytes_eq_sound s sub same ∙ sym (append-nil sub))
        | inr (inl first) ↦ slice-Occurs s sub 0 (length sub) first
        | inr (inr (inl last)) ↦ slice-Occurs s sub (length s - length sub) (length s) last
        | inr (inr (inr inside)) ↦ search_from-Occurs (length s - length sub + 1) 0 s sub inside
      ]

not_empty : (s : List ℕ) → s ≢ [] → 0 < length s
not_empty [] n = absurd (n refl)
not_empty (c ∷ s) n = omega arith

Occurs-contains : (s sub : List ℕ) → sub ≢ [] → Occurs sub s → contains_string s sub ≡ true
unfolding contains_string
Occurs-contains s sub n (before, after, e) =
    let size : length s ≡ length before + (length sub + length after) =
      ap length e
      ∙ length-append before (sub ++ after)
      ∙ ap (λ k. length before + k) (length-append sub after) in
    let some_sub = not_empty sub n in
    let at : bytes_eq (slice s (length before) (length before + length sub)) sub ≡ true =
      rw e (rw (cut before sub after) (bytes_eq_refl sub)) in
    search_suffices (leb (length sub) (length s)) (bytes_eq s sub) (ltb 0 (length s))
      (ltb 0 (length sub)) (bytes_eq (slice s 0 (length sub)) sub)
      (bytes_eq (slice s (length s - length sub) (length s)) sub)
      (search_from (length s - length sub + 1) 0 s sub) (ground (arith, size))
      (ground (arith, size, some_sub)) (ground (arith, some_sub))
      (found_at (length s - length sub + 1) 0 (length before) s sub (omega arith)
        (omega (arith, size)) at)

-- `containsString` is true exactly if the second text, which is not empty, stands in the first: what
-- `strings.Contains` does.
pub contains_string_iff :
    (s sub : List ℕ) → sub ≢ [] → (contains_string s sub ≡ true) ↔ Occurs sub s
contains_string_iff s sub n = (contains-Occurs s sub, Occurs-contains s sub n)
