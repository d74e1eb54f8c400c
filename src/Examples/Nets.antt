-- ===== src/Examples/Nets.antt =====
-- Small nets, and the context of a caller on them.
use granite.Common.{ℕ, false, some, List, [], ◌∷◌}
use granite.PetriNet.Counted.{Counted, counted_net}
use granite.Mir.{local_place}
use granite.Objects.{Condvar, Mutex, mutex, mutex_guard, no_objects}
use granite.Context.{Context}
use granite.MirFunction.{Frame}
use granite.MirFunction.BasicBlock.{BasicBlock}
use granite.Function.{PostprocessingTask, link_mutex_to_condvar, new_mutex}

-- three places, 0 to 2, and the transition 3
abbrev pub small_net : Counted
small_net =
    (counted_net.add_transition "T"
      (counted_net.add_place "C"
        (counted_net.add_place "B" (counted_net.add_place "A" counted_net.new).1).1).1).1

-- the mutex on the place 2, whose value the transition 3 sets
abbrev pub small_mutex : Mutex
small_mutex = record { mutex = 2; deref_mut = 3 ∷ [] }

-- `_1` is linked to the mutex, `_2` to a guard of it
abbrev pub small_context : Context Counted
small_context = record {
  net = small_net;
  store = record {
    objects = record no_objects { mutexes = small_mutex ∷ [] };
    memory = record {
      map = (local_place 1, mutex 0) ∷ (local_place 2, mutex_guard (record { mutex = 0 })) ∷ [];
    };
  };
}

-- a call of `wait` that was found between two mutexes
abbrev pub small_tasks : List PostprocessingTask
small_tasks = new_mutex 2 0 ∷ link_mutex_to_condvar 1 0 0 1 3 ∷ new_mutex 2 0 ∷ []

-- a function with three blocks, the first of them active
abbrev pub small_block : ℕ → BasicBlock
small_block n = record { function_name = "main"; index = n; place = n }

abbrev pub small_frame : Frame Counted
small_frame = record {
  function = record {
    def_id = 0;
    name = "main";
    start_place = 0;
    end_place = 2;
    active_block = some 0;
    basic_blocks = (0, small_block 0) ∷ (1, small_block 1) ∷ (2, small_block 2) ∷ [];
    memory = small_context.store.memory;
  };
  net = small_net;
}

-- the same with a condition variable that waits for a notification on the place 1
abbrev pub small_condvar : Condvar
small_condvar = record {
  wait_start = 3;
  notify = 1;
  notify_received = 3;
  already_linked_to_call = false;
}

abbrev pub wait_context : Context Counted
wait_context = record small_context {
  store = record (small_context.store) {
    objects = record (small_context.store.objects) { condvars = small_condvar ∷ [] };
  };
}
