-- ===== src/Objects.antt =====
-- The objects that the translation shares by `Rc`: mutexes, condition variables and threads, and
-- the values of the memory that point to them. A reference is an index into the list of its kind,
-- so that two values with one reference see each other's changes, as through an `Rc`.
pub mod Values
use granite.Common.{ℕ, Bool, Option, List, ◌++◌, ◌∷◌, [], length, get_elem?, set}
use granite.Common.Outcome.{Outcome, ok, dangling, expect, and_then, Run}
use granite.PetriNet.{PlaceRef, TransitionRef}
use granite.Mir.{DefId}

abbrev pub MutexRef : Type 0
MutexRef = ℕ

abbrev pub CondvarRef : Type 0
CondvarRef = ℕ

abbrev pub ThreadRef : Type 0
ThreadRef = ℕ

-- `Guard` of src/translator/sync/mutex.rs; it does not change, so it is kept by value
pub record Guard : Type 0 where
  pub mutex : MutexRef

-- `Value` of src/translator/mir_function/memory.rs, and the vectors of values
mutual
  pub data Value : Type 0 where
    mutex : MutexRef → Value
    mutex_guard : Guard → Value
    join_handle : ThreadRef → Value
    condvar : CondvarRef → Value
    aggregate : ValueVec → Value

  pub data ValueVec : Type 0 where
    nil : ValueVec
    cons : Value → ValueVec → ValueVec

-- `Mutex` of src/translator/sync/mutex.rs
pub record Mutex : Type 0 where
  pub mutex : PlaceRef
  pub deref_mut : List TransitionRef

-- `Condvar` of src/translator/sync/condvar.rs
pub record Condvar : Type 0 where
  pub wait_start : TransitionRef
  pub notify : PlaceRef
  pub notify_received : TransitionRef
  pub already_linked_to_call : Bool

-- `Thread` of src/translator/sync/thread.rs
pub record Thread : Type 0 where
  pub spawn_transition : TransitionRef
  pub def_id : DefId
  pub aggregate : ValueVec
  pub join_transition : Option TransitionRef
  pub index : ℕ

pub record Objects : Type 0 where
  pub mutexes : List Mutex
  pub condvars : List Condvar
  pub threads : List Thread

abbrev pub no_objects : Objects
no_objects = record { mutexes = []; condvars = []; threads = [] }

-- Rc::new
unfoldable pub new_mutex_ref : Mutex → Objects → MutexRef × Objects
new_mutex_ref m o = (length o.mutexes, record o { mutexes = o.mutexes ++ m ∷ [] })

unfoldable pub new_condvar_ref : Condvar → Objects → CondvarRef × Objects
new_condvar_ref c o = (length o.condvars, record o { condvars = o.condvars ++ c ∷ [] })

unfoldable pub new_thread_ref : Thread → Objects → ThreadRef × Objects
new_thread_ref t o = (length o.threads, record o { threads = o.threads ++ t ∷ [] })

-- following a reference
unfoldable pub mutex_at : MutexRef → Objects → Outcome Mutex
mutex_at r o = expect dangling (get_elem? o.mutexes r)

unfoldable pub condvar_at : CondvarRef → Objects → Outcome Condvar
condvar_at r o = expect dangling (get_elem? o.condvars r)

unfoldable pub thread_at : ThreadRef → Objects → Outcome Thread
thread_at r o = expect dangling (get_elem? o.threads r)

-- changing what stands behind a reference, through a `RefCell` or a `OnceCell`
unfoldable pub set_mutex : MutexRef → Mutex → Objects → Objects
set_mutex r m o = record o { mutexes = set o.mutexes r m }

unfoldable pub set_condvar : CondvarRef → Condvar → Objects → Objects
set_condvar r c o = record o { condvars = set o.condvars r c }

unfoldable pub set_thread : ThreadRef → Thread → Objects → Objects
set_thread r t o = record o { threads = set o.threads r t }
