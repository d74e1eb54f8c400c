-- ===== src/Translator/Threads.antt =====
-- `run` of src/translator.rs in two parts: the translation of all threads, and the postprocessing.
use granite.Common.{ℕ, ◌≡◌, refl}
use granite.Common.Outcome.{Outcome, ok, panic, and_then, expect, no_main, Run, lift, ◌>>=◌, ◌>>◌}
use granite.PetriNet.{PetriNet}
use granite.Mir.{TyCtxt}
use granite.Translator.{Translator, new, push_function_to_call_stack}
use granite.Translator.Main.{translate_top_call_stack, translate_threads, run}
use granite.Translator.Postprocessing.{translation_postprocessing}

-- a step of a `do` block in front of its last part
after_step :
    {A B C : Type 0} (o : Outcome A) (f : A → Outcome B) (g : B → Outcome C) (h : A → Outcome C)
    → ((a : A) → h a ≡ and_then (f a) g)
    → and_then o h ≡ and_then (and_then o f) g
after_step (ok a) f g h same = same a
after_step (panic e) f g h same = refl

module _ {Net : Type 0} ⦃api : PetriNet Net⦄ (depth rounds : ℕ) where
  unfoldable pub translate_all : Run (Translator Net) (Unit {0})
  translate_all s =
      (do
        main_function_id ← lift (expect no_main s.tcx.entry_fn)
        push_function_to_call_stack main_function_id s.program_start s.program_end
        translate_top_call_stack depth
        translate_threads depth rounds)
        s

  pub run-translate_all :
      (s : Translator Net)
      → run depth rounds s ≡ and_then (translate_all s) λ (_, s'). translation_postprocessing s'
  unfolding run translate_all
  run-translate_all s =
      after_step (and_then (expect no_main s.tcx.entry_fn) λ d. ok (d, s)) _ _ _ λ (d, s₀).
        after_step (push_function_to_call_stack d s.program_start s.program_end s₀) _ _ _
          λ (_, s₁). after_step (translate_top_call_stack depth s₁) _ _ _ λ (_, s₂). refl

  -- the state when all threads are translated
  abbrev pub before_postprocessing : TyCtxt → Outcome (Translator Net)
  before_postprocessing tcx = and_then (new tcx) λ s. and_then (translate_all s) λ (_, s'). ok s'
