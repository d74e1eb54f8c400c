-- ===== src/Translator/Main.antt =====
-- The loops of src/translator.rs. A recursive program, or one whose threads spawn threads without
-- end, is translated without end: both loops take fuel, and `out_of_fuel` stands for no result.
use granite.Common.{ℕ, zero, suc, Option, none, some, List, [], ◌∷◌}
use granite.Common.Outcome.{
  Outcome, ok, panic, and_then, expect, no_main, out_of_fuel, Run, pure, fail, lift, ◌>>=◌, ◌>>◌,
}
use granite.PetriNet.{PlaceRef, PetriNet}
use granite.Mir.{TyCtxt}
use granite.Objects.{ThreadRef, thread_at}
use granite.Context.{on_memory}
use granite.Sync.Thread.{prepare_for_translation, move_sync_variables}
use granite.Translator.{
  Translator, new, on_translator_net, read_top, with_context, push_function_to_call_stack,
  pop_function, get_result,
}
use granite.Translator.Visitor.{visit_all}
use granite.Translator.Postprocessing.{translation_postprocessing}

module _ {Net : Type 0} ⦃api : PetriNet Net⦄ where
  -- the fuel bounds the depth of the call stack
  unfoldable pub translate_top_call_stack : ℕ → Run (Translator Net) (Unit {0})
  translate_top_call_stack zero s = panic out_of_fuel
  translate_top_call_stack (suc depth) s =
      (do
        function ← read_top (λ f. ok f)
        visit_all (translate_top_call_stack depth) (s.tcx.visit_body function.def_id)
        pop_function)
        s

  unfoldable pub set_program_panic : PlaceRef → Run (Translator Net) (Unit {0})
  set_program_panic place s = ok (tt, record s { program_panic = place })

  -- one round of the loop over the threads
  unfoldable pub translate_thread : ℕ → ThreadRef → Run (Translator Net) (Unit {0})
  unfolding set_program_panic translate_top_call_stack
  translate_thread depth thread_ref s =
      (do
        thread ← lift (thread_at thread_ref s.objects)
        (thread_function_def_id, thread_start_place, thread_end_place) ←
            on_translator_net (prepare_for_translation thread)
        set_program_panic thread_end_place
        push_function_to_call_stack thread_function_def_id thread_start_place thread_end_place
        with_context (on_memory (move_sync_variables thread s.tcx))
        translate_top_call_stack depth)
        s

  unfoldable pub next_thread : List ThreadRef → Run (Translator Net) (Option ThreadRef)
  next_thread [] s = ok (none, s)
  next_thread (thread_ref ∷ threads) s = ok (some thread_ref, record s { threads = threads })

  -- VecDeque::pop_front
  unfoldable pub pop_thread : Run (Translator Net) (Option ThreadRef)
  unfolding next_thread
  pop_thread s = next_thread s.threads s

  -- `rounds` bounds the number of threads
  unfoldable pub translate_threads : (depth rounds : ℕ) → Run (Translator Net) (Unit {0})
  unfolding translate_thread pop_thread
  translate_threads depth zero = fail out_of_fuel
  translate_threads depth (suc rounds) = do
    next ← pop_thread
    elim next [
      | none ↦ pure tt
      | some thread_ref ↦ translate_thread depth thread_ref >> translate_threads depth rounds
    ]

  unfoldable pub run : (depth rounds : ℕ) → Run (Translator Net) (Unit {0})
  unfolding translate_threads translate_top_call_stack
  run depth rounds s =
      (do
        main_function_id ← lift (expect no_main s.tcx.entry_fn)
        push_function_to_call_stack main_function_id s.program_start s.program_end
        translate_top_call_stack depth
        translate_threads depth rounds
        translation_postprocessing)
        s

  -- the query of src/lib.rs: a new translator, its run and its result
  unfoldable pub translate : (depth rounds : ℕ) → TyCtxt → Outcome Net
  unfolding run
  translate depth rounds tcx =
      and_then (new tcx) λ s. and_then (run depth rounds s) λ (_, s'). ok (get_result s').0
