-- ===== src/Api/Path.antt =====
-- api/handlers.go: how `GetOrderHistory` reads the order's id from the URL's path.
use Prim.Native.Char.{Char, code}
use Prim.Native.String as Text
use Prim.Native.String.append as Append
use Prim.Native.String.{String}
use saga_market_order.Prelude.{
  ℕ, ◌≡◌, refl, Bool, false, Option, none, some, ◌&&◌, ◌||◌, if◌then◌else◌, leb, nat_eq, arith,
}

-- `strings.TrimPrefix`: the path behind the prefix, or the whole path.
unfoldable pub behind : String → String → Option String
behind String.[] s = some s
behind (String.◌∷◌ c p) String.[] = none
behind (String.◌∷◌ c p) (String.◌∷◌ d s) =
    let rest = behind p s in if nat_eq (code c) (code d) then rest else none

abbrev or_whole : String → Option String → String
or_whole s none = s
or_whole s (some rest) = rest

unfoldable pub trim_prefix : String → String → String
unfolding behind
trim_prefix s p = or_whole s (behind p s)

abbrev between : ℕ → ℕ → ℕ → Bool
between a b n = leb a n && leb n b

-- `unicode.IsSpace`
unfoldable pub is_space : Char → Bool
is_space c =
    let n = code c in
    between 9 13 n
    || nat_eq n 32
    || nat_eq n 133
    || nat_eq n 160
    || nat_eq n 5760
    || between 8192 8202 n
    || between 8232 8233 n
    || nat_eq n 8239
    || nat_eq n 8287
    || nat_eq n 12288

unfoldable pub trim_left : String → String
unfolding is_space
trim_left String.[] = ""
trim_left (String.◌∷◌ c s) = let rest = trim_left s in if is_space c then rest else String.◌∷◌ c s

-- A character in front of a text whose end is trimmed.
abbrev before : Char → String → String
before c String.[] = if is_space c then "" else String.◌∷◌ c ""
before c (String.◌∷◌ d s) = String.◌∷◌ c (String.◌∷◌ d s)

unfoldable pub trim_right : String → String
unfolding is_space
trim_right String.[] = ""
trim_right (String.◌∷◌ c s) = before c (trim_right s)

-- `strings.TrimSpace`
unfoldable pub trim_space : String → String
unfolding trim_left trim_right
trim_space s = trim_right (trim_left s)

unfoldable pub order_id_of : String → String
unfolding trim_prefix trim_space
order_id_of path = trim_space (trim_prefix path "/orders/")

-- A text without space.
abbrev pub IsSolid : String → Type 0
IsSolid String.[] = Unit
IsSolid (String.◌∷◌ c s) = (is_space c ≡ false) × IsSolid s

pub behind-append : (p s : String) → behind p (Text.◌++◌ p s) ≡ some s
unfolding behind
behind-append String.[] s = λ i. some (Append.nil s i)
behind-append (String.◌∷◌ c p) s =
    let unfolds : Text.◌++◌ (String.◌∷◌ c p) s ≡ String.◌∷◌ c (Text.◌++◌ p s) =
      λ i. Append.cons c p s i in
    rw unfolds (ground (arith, behind-append p s))

trim_left-Solid : (s : String) → IsSolid s → trim_left s ≡ s
unfolding trim_left
trim_left-Solid String.[] h = refl
trim_left-Solid (String.◌∷◌ c s) (h, hs) = rw h refl

before-Solid : (c : Char) (s : String) → is_space c ≡ false → before c s ≡ String.◌∷◌ c s
before-Solid c String.[] h = rw h refl
before-Solid c (String.◌∷◌ d s) h = refl

trim_right-Solid : (s : String) → IsSolid s → trim_right s ≡ s
unfolding trim_right
trim_right-Solid String.[] h = refl
trim_right-Solid (String.◌∷◌ c s) (h, hs) = rw (trim_right-Solid s hs) (before-Solid c s h)

-- The id of an order, which has no space in it, is read back from the path `/orders/` with the id
-- behind it.
pub order_id-route : (id : String) → IsSolid id → order_id_of (Text.◌++◌ "/orders/" id) ≡ id
unfolding order_id_of trim_prefix trim_space
order_id-route id h = rw (behind-append "/orders/" id, trim_left-Solid id h) (trim_right-Solid id h)
