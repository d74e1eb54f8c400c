-- ===== src/Function.antt =====
-- src/translator/function.rs: the places and transitions of a call, and the postprocessing tasks.
mod Tasks
pub mod Heap
unfoldable pub use Tasks.*
use granite.PetriNet.{PlaceRef, TransitionRef}

pub data Places : Type 0 where
  basic : (start_place end_place : PlaceRef) → Places
  with_cleanup : (start_place end_place cleanup_place : PlaceRef) → Places

unfoldable pub ignore_cleanup_place : Places → Places
ignore_cleanup_place (basic start_place end_place) = basic start_place end_place
ignore_cleanup_place (with_cleanup start_place end_place cleanup_place) =
    basic start_place end_place

unfoldable pub get_start_end_place : Places → PlaceRef × PlaceRef
get_start_end_place (basic start_place end_place) = (start_place, end_place)
get_start_end_place (with_cleanup start_place end_place cleanup_place) = (start_place, end_place)

pub data Transitions : Type 0 where
  basic : (default : TransitionRef) → Transitions
  with_cleanup : (default cleanup : TransitionRef) → Transitions

-- `get_default`, and `default`, which consumes the value
unfoldable pub get_default : Transitions → TransitionRef
get_default (basic default) = default
get_default (with_cleanup default cleanup) = default
