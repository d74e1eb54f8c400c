-- ===== src/Memory/Map.antt =====
-- `HashMap<Place, Value>`: an association list. The program never iterates over it.
use granite.Common.{
  ◌≡◌, refl, Bool, true, false, Option, none, some, List, [], ◌∷◌, arith, if◌then◌else◌,
}
use granite.Mir.{Place, place_eq, place_eq_iff}
use granite.Objects.{Value}

abbrev pub PlaceMap : Type 0
PlaceMap = List (Place × Value)

unfoldable pub get : Place → PlaceMap → Option Value
get place [] = none
get place ((other, value) ∷ rest) = if place_eq other place then some value else get place rest

unfoldable pub insert : Place → Value → PlaceMap → PlaceMap
insert place value [] = (place, value) ∷ []
insert place value ((other, old) ∷ rest) =
    if place_eq other place then (place, value) ∷ rest else (other, old) ∷ insert place value rest

abbrev pub is_some : Option Value → Bool
is_some none = false
is_some (some v) = true

unfoldable pub contains_key : Place → PlaceMap → Bool
unfolding get
contains_key k m = is_some (get k m)

-- what is linked to a place after an insertion
pub get-insert :
    (place asked : Place) (value : Value) (map : PlaceMap)
    → get asked (insert place value map)
      ≡ (if place_eq place asked then some value else get asked map)
unfolding get insert
get-insert place asked value [] = refl
get-insert place asked value ((other, old) ∷ rest) = ground (
  arith,
  get-insert place asked value rest,
  place_eq_iff other place,
  place_eq_iff other asked,
  place_eq_iff place asked,
)
