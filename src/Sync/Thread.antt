-- ===== src/Sync/Thread.antt =====
-- src/translator/sync/thread.rs
pub mod Handle
pub mod Captures
use granite.Common.{ℕ, String, Option, none, some, List, [], ◌∷◌, ◌==◌, if◌then◌else◌}
use granite.Common.Outcome.{
  ok, panic, and_then, expect, argument_not_a_place, joined_twice, Run, pure, lift, ◌>>=◌, ◌>>◌,
}
use granite.Naming.Thread.{start_place_label, end_place_label}
use granite.PetriNet.{
  PlaceRef, TransitionRef, PetriNet, add_place, add_arc_place_transition, add_arc_transition_place,
}
use granite.Mir.{DefId, local_place, Operand, VarDebugInfoContents, place, constant, TyCtxt}
use granite.Utils.{extract_nth_argument_as_place, get_field_number_in_projection}
use granite.Objects.{ThreadRef, ValueVec, Thread, Objects, thread_at, set_thread}
use granite.Memory.{Memory, link_aggregate, link_field_in_aggregate, get_join_handle}
use granite.Function.{Places, ignore_cleanup_place, get_default}
use granite.SpecialFunction.{call_foreign_function}
use granite.Context.{Context, on_net, on_objects, read_memory}

-- Thread::new
unfoldable pub new : TransitionRef → DefId → ValueVec → ℕ → Thread
new spawn_transition thread_function_def_id aggregate index = record {
  spawn_transition = spawn_transition;
  def_id = thread_function_def_id;
  aggregate = aggregate;
  join_transition = none;
  index = index;
}

-- OnceCell::set
unfoldable pub set_once :
    Option TransitionRef → ThreadRef → Thread → TransitionRef → Run Objects (Unit {0})
set_once (some t) r thread join_transition o = panic joined_twice
set_once none r thread join_transition o =
    ok (tt, set_thread r (record thread { join_transition = some join_transition }) o)

unfoldable pub set_join_transition : ThreadRef → TransitionRef → Run Objects (Unit {0})
unfolding set_once
set_join_transition r join_transition o =
    and_then (thread_at r o) λ t. set_once t.join_transition r t join_transition o

-- the base place `_1`, and the loop over the debug information of the thread function
unfoldable pub link_fields : List VarDebugInfoContents → Run Memory (Unit {0})
link_fields [] = pure tt
link_fields (constant ∷ infos) = link_fields infos
link_fields (place p ∷ infos) =
    let rest = link_fields infos in
    if p.local == 1
    then (do
      field_number ← lift (get_field_number_in_projection p)
      link_field_in_aggregate p (local_place 1) field_number
      rest)
    else rest

unfoldable pub move_sync_variables : Thread → TyCtxt → Run Memory (Unit {0})
unfolding link_fields
move_sync_variables thread tcx = do
  link_aggregate (local_place 1) thread.aggregate
  link_fields (tcx.var_debug_info thread.def_id)

module _ {Net : Type 0} ⦃api : PetriNet Net⦄ where
  unfoldable pub join_arc : Option TransitionRef → PlaceRef → Run Net (Unit {0})
  join_arc none thread_end_place = pure tt
  join_arc (some join_transition) thread_end_place =
      add_arc_place_transition thread_end_place join_transition

  unfoldable pub prepare_for_translation : Thread → Run Net (DefId × PlaceRef × PlaceRef)
  unfolding join_arc
  prepare_for_translation thread = do
    thread_start_place ← add_place (start_place_label thread.index)
    thread_end_place ← add_place (end_place_label thread.index)
    add_arc_transition_place thread.spawn_transition thread_start_place
    join_arc thread.join_transition thread_end_place
    pure (thread.def_id, thread_start_place, thread_end_place)

  unfoldable pub call_join : String → ℕ → List Operand → Places → Run (Context Net) (Unit {0})
  call_join function_name index args places = do
    transitions ← on_net (call_foreign_function function_name index (ignore_cleanup_place places))
    self_ref ← lift (expect argument_not_a_place (extract_nth_argument_as_place args 0))
    thread_ref ← read_memory (get_join_handle self_ref)
    on_objects (set_join_transition thread_ref (get_default transitions))
