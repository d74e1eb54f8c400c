-- ===== src/Memory/Links.antt =====
-- What is linked to a place in src/translator/mir_function/memory.rs is what is found there.
use granite.Common.{
  ℕ, zero, suc, ◌≡◌, refl, ap, sym, ◌∙◌, false, Bool, true, if◌then◌else◌, Option, none, some, List,
  [], ◌∷◌, length, get_elem?, get_elem?-append_length,
}
use granite.Common.Outcome.{Outcome, ok, panic, and_then, expect, not_linked, already_linked}
use granite.Common.Outcome.Returns.{Returns, returns, and_then_ok, ok-injective}
use granite.Mir.{Place, place_eq, place_eq_refl}
use granite.Objects.{Value, ValueVec, aggregate, cons, Mutex, mutex_at, new_mutex_ref}
use granite.Objects.Values.{get_value?, count_values}
use granite.Memory.{
  Memory, Store, insert_value, link_mutex, get_mutex, get_linked_value, linked_values, insert_new,
  link_aggregate, create_aggregate,
}
use granite.Memory.Map.{contains_key, get, insert, get-insert}

-- After linking a new mutex to a place, the place leads to this mutex, and no other place has
-- changed what it is linked to.
pub link_mutex-get_mutex :
    (place : Place) (m : Mutex) (s : Store)
    → Returns
        (λ (r, s').
          (get_mutex place s'.memory ≡ ok r)
          × (mutex_at r s'.objects ≡ ok m)
          × ((other : Place)
              → place_eq place other ≡ false
              → get other s'.memory.map ≡ get other s.memory.map))
        (link_mutex place m s)
unfolding link_mutex insert_value new_mutex_ref get_mutex get_linked_value mutex_at
link_mutex-get_mutex place m s = returns (
  rw (get-insert, place_eq_refl) refl,
  rw (get_elem?-append_length s.objects.mutexes m) refl,
  λ other e. rw (get-insert, e) refl,
)

value_after :
    (o : Option Value) (rest : Outcome ValueVec) (vs : ValueVec)
    → and_then (expect not_linked o) (λ v. and_then rest λ ws. ok (cons v ws)) ≡ ok vs
    → (v : Value) × (ws : ValueVec) × (o ≡ some v) × (rest ≡ ok ws) × (vs ≡ cons v ws)
value_after none rest vs h = cc
value_after (some v) (panic e) vs h = cc
value_after (some v) (ok ws) vs h = (v, ws, refl, refl, cc)

-- the values are those linked to the places, in the same order, one for each place
abbrev pub LinkedTo : Memory → List Place → ValueVec → Type 0
LinkedTo m places values =
    (count_values values ≡ length places)
    × ((i : ℕ) (place : Place)
        → get_elem? places i ≡ some place
        → (v : Value) × (get place m.map ≡ some v) × (get_value? values i ≡ some v))

linked_values-get_value? :
    (places : List Place) (m : Memory) (values : ValueVec)
    → linked_values places m ≡ ok values
    → (i : ℕ) (place : Place) → get_elem? places i ≡ some place
    → (v : Value) × (get place m.map ≡ some v) × (get_value? values i ≡ some v)
unfolding linked_values get_linked_value get_value?
linked_values-get_value? [] m values h i place e = cc
linked_values-get_value? (p ∷ ps) m values h zero place e =
    let (v, ws, linked, rest, same) = value_after (get p m.map) (linked_values ps m) values h in
    (v, cc, rw same refl)
linked_values-get_value? (p ∷ ps) m values h (suc i) place e =
    let (v, ws, linked, rest, same) = value_after (get p m.map) (linked_values ps m) values h in
    let (u, here, at) = linked_values-get_value? ps m ws rest i place e in (u, here, rw same at)

count_values-linked_values :
    (places : List Place) (m : Memory) (values : ValueVec)
    → linked_values places m ≡ ok values
    → count_values values ≡ length places
unfolding linked_values get_linked_value count_values
count_values-linked_values [] m values h = ap count_values (sym (ok-injective h))
count_values-linked_values (p ∷ ps) m values h =
    let (v, ws, linked, rest, same) = value_after (get p m.map) (linked_values ps m) values h in
    ap count_values same ∙ ap suc (count_values-linked_values ps m ws rest)

-- an insertion at a place where nothing was linked
tested_insert :
    (place : Place) (value : Value) (m m' : Memory) (there : Bool)
    → contains_key place m.map ≡ there
    → (let inserted : Outcome (Unit {0} × Memory) =
          ok (tt, record { map = insert place value m.map }) in
        if there then panic already_linked else inserted)
      ≡ ok (tt, m')
    → (contains_key place m.map ≡ false) × (m'.map ≡ insert place value m.map)
tested_insert place value m m' true e h = cc
tested_insert place value m m' false e h = (e, sym (ap (λ r. r.1.map) (ok-injective h)))

insert_new_lem :
    (place : Place) (value : Value) (m m' : Memory)
    → insert_new place value m ≡ ok (tt, m')
    → (contains_key place m.map ≡ false) × (m'.map ≡ insert place value m.map)
unfolding insert_new
insert_new_lem place value m m' h = tested_insert place value m m' _ refl h

-- When an aggregate is created from a list of places, nothing was linked to its place before, and
-- afterwards the place is linked to an aggregate that has one value for each place of the list, in
-- their order: the value that is linked to that place. No other place has changed what it is linked
-- to.
pub create_aggregate_lem :
    (place : Place) (places : List Place) (m m' : Memory)
    → create_aggregate place places m ≡ ok (tt, m')
    → (contains_key place m.map ≡ false)
      × ((values : ValueVec) × (get place m'.map ≡ some (aggregate values))
          × LinkedTo m places values)
      × ((other : Place) → place_eq place other ≡ false → get other m'.map ≡ get other m.map)
unfolding create_aggregate link_aggregate
create_aggregate_lem place places m m' h =
    let (values, linked, inserted) = and_then_ok (linked_values places m) _ h in
    let (missing, same) = insert_new_lem place (aggregate values) m m' inserted in
    (
      missing,
      (
        values,
        rw (same, get-insert, place_eq_refl) refl,
        (
          count_values-linked_values places m values linked,
          linked_values-get_value? places m values linked,
        ),
      ),
      λ other e. rw (same, get-insert, e) refl,
    )
