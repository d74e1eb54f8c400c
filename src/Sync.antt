-- ===== src/Sync.antt =====
-- src/translator/sync.rs: the dispatch to the handlers, and how sync variables are tracked.
pub mod Mutex
pub mod Condvar
pub mod Thread
pub mod Tracking
use granite.Common.{ℕ, String, Bool, ◌||◌, Option, none, some, List, str_eq, if◌then◌else◌}
use granite.Common.Outcome.{no_handler, Run, pure, fail, ◌>>=◌, ◌>>◌}
use granite.PetriNet.{PetriNet}
use granite.Mir.{Place, Operand}
use granite.Function.{Places, PostprocessingTask}
use granite.Context.{Context}

unfoldable pub is_supported_function : String → Bool
is_supported_function function_name =
    str_eq function_name "std::sync::Condvar::new"
    || str_eq function_name "std::sync::Condvar::notify_one"
    || str_eq function_name "std::sync::Condvar::wait"
    || str_eq function_name "std::sync::Condvar::wait_while"
    || str_eq function_name "std::sync::Mutex::<T>::lock"
    || str_eq function_name "std::sync::Mutex::<T>::new"
    || str_eq function_name "std::thread::spawn"
    || str_eq function_name "std::thread::JoinHandle::<T>::join"

module _ {Net : Type 0} ⦃api : PetriNet Net⦄ where
  unfoldable pub call_function :
      String
      → ℕ
      → List Operand
      → (destination : Place) → Places
      → Run (Context Net) (Option PostprocessingTask)
  call_function function_name index args destination places =
      if str_eq function_name "std::sync::Condvar::new"
      then (Condvar.call_new function_name index destination places >> pure none)
      else if str_eq function_name "std::sync::Condvar::notify_one"
      then (Condvar.call_notify_one function_name index args places >> pure none)
      else if str_eq function_name "std::sync::Condvar::wait"
          || str_eq function_name "std::sync::Condvar::wait_while"
      then (do
        task ← Condvar.call_wait function_name index args destination places
        pure (some task))
      else if str_eq function_name "std::sync::Mutex::<T>::lock"
      then (Mutex.call_lock function_name index args destination places >> pure none)
      else if str_eq function_name "std::sync::Mutex::<T>::new"
      then (do task ← Mutex.call_new function_name index destination places; pure (some task))
      else if str_eq function_name "std::thread::JoinHandle::<T>::join"
      then (Thread.call_join function_name index args places >> pure none)
      else fail no_handler
