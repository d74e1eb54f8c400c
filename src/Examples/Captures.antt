-- ===== src/Examples/Captures.antt =====
-- A thread whose closure captures one mutex.
use granite.Common.{◌≡◌, refl, some, none, [], ◌∷◌, All}
use granite.Common.Outcome.{ok}
use granite.Mir.{Place, local_place, place_eq, field, place, constant, TyCtxt}
use granite.Utils.{get_field_number_in_projection}
use granite.Objects.{Thread, nil, cons, mutex, aggregate}
use granite.Objects.Values.{get_value?}
use granite.Memory.{
  Memory, no_links, insert_new, link_aggregate, link_field_in_aggregate, copy_aggregate,
  get_linked_value,
}
use granite.Memory.Map.{get, insert, contains_key}
use granite.Sync.Thread.{link_fields, move_sync_variables}
use granite.Sync.Thread.Captures.{Captured, move_sync_variables-Captured}
use granite.Examples.Programs.{lock_program}

-- the field 0 of the first argument
abbrev captured_place : Place
captured_place = record { local = 1; projection = field 0 ∷ [] }

abbrev capturing_program : TyCtxt
capturing_program = record lock_program {
  var_debug_info = λ d. place captured_place ∷ constant ∷ [];
}

abbrev capturing_thread : Thread
capturing_thread = record {
  spawn_transition = 3;
  def_id = 1;
  aggregate = cons (mutex 0) nil;
  join_transition = none;
  index = 0;
}

abbrev captured_memory : Memory
captured_memory = record {
  map = (local_place 1, aggregate (cons (mutex 0) nil)) ∷ (captured_place, mutex 0) ∷ [];
}

captures :
    move_sync_variables capturing_thread capturing_program no_links ≡ ok (tt, captured_memory)
unfolding move_sync_variables link_fields link_aggregate insert_new link_field_in_aggregate
    copy_aggregate get_linked_value get_value? get_field_number_in_projection get insert
    contains_key place_eq
captures = refl

move_sync_variables-Captured_example :
    (get (local_place 1) captured_memory.map ≡ some (aggregate (cons (mutex 0) nil)))
    × All (Captured (cons (mutex 0) nil) captured_memory) (place captured_place ∷ constant ∷ [])
move_sync_variables-Captured_example =
    move_sync_variables-Captured capturing_thread capturing_program no_links captured_memory
      captures
