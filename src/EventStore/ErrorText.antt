-- ===== src/EventStore/ErrorText.antt =====
-- infrastructure/eventstore/serializer.go: how the store tells a unique violation by the text of an
-- error. A text is the list of its bytes.
use Prim.Native.Char.{code}
use Prim.Native.String.{String}
use saga_market_order.Prelude.{
  ℕ, zero, suc, ◌+◌, ◌-◌, ◌≡◌, refl, Bool, true, false, not, ◌&&◌, ◌||◌, List, [], ◌∷◌, length, leb,
  ltb, nat_eq,
}

-- The bytes of a text, which is ASCII.
abbrev pub codes : String → List ℕ
codes String.[] = []
codes (String.◌∷◌ c s) = code c ∷ codes s

abbrev pub take : ℕ → List ℕ → List ℕ
take zero s = []
take (suc n) [] = []
take (suc n) (c ∷ s) = c ∷ take n s

abbrev pub drop : ℕ → List ℕ → List ℕ
drop zero s = s
drop (suc n) [] = []
drop (suc n) (c ∷ s) = drop n s

abbrev pub bytes_eq : List ℕ → List ℕ → Bool
bytes_eq [] [] = true
bytes_eq (a ∷ s) (b ∷ t) = nat_eq a b && bytes_eq s t
bytes_eq _ _ = false

-- `s[i:j]`
abbrev pub slice : List ℕ → ℕ → ℕ → List ℕ
slice s i j = take (j - i) (drop i s)

-- The loop `for i := 0; i <= len(s)-len(substr); i++`, with the rounds left and `i`.
unfoldable pub search_from : ℕ → ℕ → List ℕ → List ℕ → Bool
search_from zero i s sub = false
search_from (suc rounds) i s sub =
    let rest = search_from rounds (i + 1) s sub in
    elim (bytes_eq (slice s i (i + length sub)) sub) [ true ↦ true | false ↦ rest ]

unfoldable pub contains_string : List ℕ → List ℕ → Bool
unfolding search_from
contains_string s sub =
    leb (length sub) (length s)
    && (bytes_eq s sub
        || (ltb 0 (length s)
            && ltb 0 (length sub)
            && (bytes_eq (slice s 0 (length sub)) sub
                || bytes_eq (slice s (length s - length sub) (length s)) sub
                || search_from (length s - length sub + 1) 0 s sub)))

unfoldable pub is_unique_violation : String → Bool
unfolding contains_string
is_unique_violation message =
    let m = codes message in
    not (bytes_eq m [])
    && (contains_string m (codes "duplicate key value")
        || contains_string m (codes "unique constraint")
        || contains_string m (codes "23505"))

-- How PostgreSQL's driver words a unique violation.
abbrev pub unique_message : String
unique_message = "pq: duplicate key value violates unique constraint"

pub violation_found : is_unique_violation unique_message ≡ true
unfolding is_unique_violation
violation_found = refl
