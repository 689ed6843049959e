-- ===== src/Json.antt =====
-- Go's encoding/json, as far as the events use it: an object is the list of its members. Marshalling
-- fails on a float64 that is a NaN or an infinity. Unmarshalling reads each member of a struct by
-- its key; a missing key leaves the zero value, and a value of another kind is an error.
use saga_market_order.Prelude.{
  ℕ, String, Bool, true, Option, none, some, List, [], ◌∷◌, ◌&&◌, ◌==◌, if◌then◌else◌,
}
use saga_market_order.Float.{Float}
use saga_market_order.Order.Events.{number, Fields, Time}

-- A member: a number of the struct's kind (`int` or float64), a string, a time in RFC 3339, or an
-- object of a `map[string]interface{}`.
pub data Member (W : Type 0) : Type 0 where
  string : String → Member W
  float : W → Member W
  int : ℕ → Member W
  time : Time → Member W
  object : Fields W → Member W

abbrev pub Object : Type 0 → Type 0
Object W = List (String × Member W)

infixl 5 ◌>>=◌
abbrev pub ◌>>=◌ {ℓ κ} : {A : Type ℓ} {B : Type κ} → Option A → (A → Option B) → Option B
none >>= g = none
some a >>= g = g a

module _ {W : Type 0} where
  -- The last member of the key counts.
  abbrev pub member : String → Object W → Option (Member W)
  member key [] = none
  member key ((k, v) ∷ o) =
      let here = if k == key then some v else none in
      elim (member key o) [ some w ↦ some w | none ↦ here ]

  abbrev as_string : Option (Member W) → Option String
  as_string none = some ""
  as_string (some (string s)) = some s
  as_string (some _) = none

  abbrev as_int : Option (Member W) → Option ℕ
  as_int none = some 0
  as_int (some (int n)) = some n
  as_int (some _) = none

  abbrev as_time : Option (Member W) → Option Time
  as_time none = some 0
  as_time (some (time t)) = some t
  as_time (some _) = none

  abbrev as_object : Option (Member W) → Option (Fields W)
  as_object none = some []
  as_object (some (object fields)) = some fields
  as_object (some _) = none

  abbrev pub get_string : String → Object W → Option String
  get_string key o = as_string (member key o)

  abbrev pub get_int : String → Object W → Option ℕ
  get_int key o = as_int (member key o)

  abbrev pub get_time : String → Object W → Option Time
  get_time key o = as_time (member key o)

  abbrev pub get_object : String → Object W → Option (Fields W)
  get_object key o = as_object (member key o)

  -- `omitempty` on a map.
  abbrev pub omit_empty : String → Fields W → Object W
  omit_empty key [] = []
  omit_empty key (f ∷ fields) = (key, object (f ∷ fields)) ∷ []

module _ {W : Type 0} ⦃f : Float W⦄ where
  open f use {finite, nought}

  abbrev as_float : Option (Member W) → Option W
  as_float none = some nought
  as_float (some (float x)) = some x
  as_float (some _) = none

  abbrev pub get_float : String → Object W → Option W
  get_float key o = as_float (member key o)

  abbrev pub all_finite : List W → Bool
  all_finite [] = true
  all_finite (x ∷ xs) = finite x && all_finite xs

  abbrev pub fields_finite : Fields W → Bool
  fields_finite [] = true
  fields_finite ((_, number x) ∷ fields) = finite x && fields_finite fields
  fields_finite (_ ∷ fields) = fields_finite fields
