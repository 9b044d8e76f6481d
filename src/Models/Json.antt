-- ===== src/Models/Json.antt =====
-- JSON columns: a Python dict with text keys whose values are scalars, its `get`, item assignment
-- and `update`. ISO texts of dates and instants stand as the date or the instant itself.
use text.Mathlib.TextEquality.{eq_iff}
use uk_jamaat_directory.Prelude.{
  ℕ, String, ◌≡◌, refl, Bool, true, false, not, Option, none, some, List, [], ◌∷◌, arith, ◌==◌, ltb,
  if◌then◌else◌, beq_refl, string_eq,
}
use uk_jamaat_directory.Prelude.Int.{ℤ, pos, negsuc}

pub data Json : Type 0 where
  null : Json
  bool : Bool → Json
  num : ℤ → Json
  str : String → Json
  iso_date : ℕ → Json
  iso_instant : ℕ → Json

abbrev pub Object : Type 0
Object = List (String × Json)

-- `d.get(key)`; a missing key is `none`, a stored null is `some null`.
unfoldable pub get : String → Object → Option Json
get key [] = none
get key ((k, v) ∷ d) = if k == key then some v else get key d

-- `d[key] = v`.
unfoldable pub put : String → Json → Object → Object
put key v [] = (key, v) ∷ []
put key v ((k, w) ∷ d) = if k == key then (k, v) ∷ d else (k, w) ∷ put key v d

-- `d.update(other)`.
unfoldable pub update : Object → Object → Object
update d [] = d
update d ((k, v) ∷ other) = update (put k v d) other

-- `bool(d.get(key))`: a missing key, null, false, 0 and "" are false.
abbrev truth : Option Json → Bool
truth none = false
truth (some null) = false
truth (some (bool b)) = b
truth (some (num (pos n))) = ltb 0 n
truth (some (num (negsuc n))) = true
truth (some (str s)) = not (s == "")
truth (some (iso_date d)) = true
truth (some (iso_instant t)) = true

unfoldable pub truthy : String → Object → Bool
truthy key d = truth (get key d)

-- The value at a key where it is a text that is not empty: what `d.get(key) or other` picks first.
abbrev text_of : Option Json → Option String
text_of (some (str s)) = if s == "" then none else some s
text_of _ = none

unfoldable pub text_at : String → Object → Option String
text_at key d = text_of (get key d)

-- `d.get(key, 0) > bound`, for a key that holds numbers.
abbrev exceeds_of : Option Json → ℕ → Bool
exceeds_of (some (num (pos n))) bound = ltb bound n
exceeds_of _ bound = false

unfoldable pub exceeds : String → Object → ℕ → Bool
exceeds key d bound = exceeds_of (get key d) bound

-- A key holds what was last stored under it.
pub get-put :
    (j k : String) (v : Json) (d : Object)
    → get j (put k v d) ≡ (if k == j then some v else get j d)
unfolding get put
get-put j k v [] = refl
get-put j k v ((i, w) ∷ d) = ground (arith, eq_iff k j, eq_iff i k, eq_iff i j, get-put j k v d)

pub ruleset json_laws = (get-put, beq_refl)
