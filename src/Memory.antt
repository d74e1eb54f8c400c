-- ===== src/Memory.antt =====
-- src/translator/mir_function/memory.rs: what each place of a function is linked to.
-- The messages for the debug log are not modelled, and with them the comparisons that choose one.
pub mod Map
pub mod Links
pub mod Aliases
use granite.Common.{ℕ, Bool, true, false, Option, none, some, List, [], ◌∷◌, if◌then◌else◌}
use granite.Common.Outcome.{
  Outcome, ok, panic, and_then, expect, not_linked, already_linked, no_field, Run, lift, gets,
  modify, pure, ◌>>=◌, ◌>>◌,
}
use granite.Mir.{Place}
use granite.Objects.{
  MutexRef, CondvarRef, ThreadRef, Guard, Value, mutex, mutex_guard, join_handle, condvar,
  aggregate, ValueVec, nil, cons, Mutex, Condvar, Thread, Objects, new_mutex_ref, new_condvar_ref,
  new_thread_ref,
}
use granite.Objects.Values.{
  unpack_mutex, unpack_mutex_guard, unpack_join_handle, unpack_condvar, unpack_aggregate,
  is_guard_value, get_value?,
}
use granite.Memory.Map.{PlaceMap, get, insert, contains_key}

pub record Memory : Type 0 where
  pub map : PlaceMap

-- Memory::default
abbrev pub no_links : Memory
no_links = record { map = [] }

-- The memory of a function, and the objects that its values point to.
pub record Store : Type 0 where
  pub objects : Objects
  pub memory : Memory

unfoldable pub insert_value : Place → Value → Store → Store
insert_value place value s = record s { memory = record { map = insert place value s.memory.map } }

unfoldable pub link_mutex : Place → Mutex → Run Store MutexRef
unfolding new_mutex_ref insert_value
link_mutex place m s =
    let (mutex_ref, o) = new_mutex_ref m s.objects in
    ok (mutex_ref, insert_value place (mutex mutex_ref) (record s { objects = o }))

unfoldable pub link_mutex_guard : Place → Guard → Run Store Guard
unfolding insert_value
link_mutex_guard place guard s = ok (guard, insert_value place (mutex_guard guard) s)

unfoldable pub link_join_handle : Place → Thread → Run Store ThreadRef
unfolding new_thread_ref insert_value
link_join_handle place thread s =
    let (thread_ref, o) = new_thread_ref thread s.objects in
    ok (thread_ref, insert_value place (join_handle thread_ref) (record s { objects = o }))

unfoldable pub link_condvar : Place → Condvar → Run Store CondvarRef
unfolding new_condvar_ref insert_value
link_condvar place c s =
    let (condvar_ref, o) = new_condvar_ref c s.objects in
    ok (condvar_ref, insert_value place (condvar condvar_ref) (record s { objects = o }))

-- an insertion at a place where nothing may be linked yet
unfoldable pub insert_new : Place → Value → Run Memory (Unit {0})
insert_new place value m =
    if contains_key place m.map
    then panic already_linked
    else ok (tt, record { map = insert place value m.map })

unfoldable pub link_aggregate : Place → ValueVec → Run Memory (Unit {0})
unfolding insert_new
link_aggregate place values = insert_new place (aggregate values)

unfoldable pub get_linked_value : Place → Memory → Outcome Value
get_linked_value place m = expect not_linked (get place m.map)

unfoldable pub link_place_to_same_value :
    (place_to_link place_linked : Place) → Run Memory (Unit {0})
unfolding get_linked_value
link_place_to_same_value place_to_link place_linked m =
    and_then (get_linked_value place_linked m)
      λ value. ok (tt, record { map = insert place_to_link value m.map })

unfoldable pub get_mutex : Place → Memory → Outcome MutexRef
unfolding get_linked_value
get_mutex place m = and_then (get_linked_value place m) unpack_mutex

unfoldable pub get_mutex_guard : Place → Memory → Outcome Guard
unfolding get_linked_value
get_mutex_guard place m = and_then (get_linked_value place m) unpack_mutex_guard

unfoldable pub get_join_handle : Place → Memory → Outcome ThreadRef
unfolding get_linked_value
get_join_handle place m = and_then (get_linked_value place m) unpack_join_handle

unfoldable pub get_condvar : Place → Memory → Outcome CondvarRef
unfolding get_linked_value
get_condvar place m = and_then (get_linked_value place m) unpack_condvar

unfoldable pub copy_aggregate : Place → Memory → Outcome ValueVec
unfolding get_linked_value
copy_aggregate place m = and_then (get_linked_value place m) unpack_aggregate

unfoldable pub is_guard : Option Value → Bool
is_guard none = false
is_guard (some value) = is_guard_value value

unfoldable pub is_mutex_guard : Place → Memory → Bool
unfolding is_guard
is_mutex_guard place m = is_guard (get place m.map)

-- the values linked to the places, in their order
unfoldable pub linked_values : List Place → Memory → Outcome ValueVec
unfolding get_linked_value
linked_values [] m = ok nil
linked_values (place ∷ places) m =
    let rest = linked_values places m in
    and_then (get_linked_value place m) λ value. and_then rest λ values. ok (cons value values)

unfoldable pub create_aggregate : Place → (places_to_aggregate : List Place) → Run Memory (Unit {0})
unfolding linked_values link_aggregate
create_aggregate place places_to_aggregate m =
    and_then (linked_values places_to_aggregate m) λ values. link_aggregate place values m

unfoldable pub link_field_in_aggregate :
    (place_to_link place_linked : Place) → ℕ → Run Memory (Unit {0})
unfolding copy_aggregate insert_new
link_field_in_aggregate place_to_link place_linked index m =
    and_then (copy_aggregate place_linked m) λ values.
      and_then (expect no_field (get_value? values index)) λ value. insert_new place_to_link value m
