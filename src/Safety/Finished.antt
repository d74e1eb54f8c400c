-- ===== src/Safety/Finished.antt =====
-- Where the loops of src/translator.rs end: no thread waits, and no function is on the call stack.
use granite.Common.{ℕ, zero, suc, ◌≡◌, refl, ap, sym, ◌∙◌, true, List, [], ◌∷◌, ◌⊎◌, inl, inr}
use granite.Common.Outcome.{Outcome, ok, and_then, expect, no_main}
use granite.Common.Outcome.Returns.{and_then_ok, ok-injective}
use granite.Common.Outcome.Fueled
use granite.Common.Outcome.Fueled.{of_Safe}
use granite.PetriNet.{PetriNet}
use granite.PetriNet.View.{View, Laws}
use granite.Mir.{TyCtxt}
use granite.Objects.{ThreadRef, Objects}
use granite.MirFunction.{MirFunction}
use granite.Translator.{Translator, new, push_function_to_call_stack}
use granite.Translator.Main.{translate_thread, translate_threads, translate_top_call_stack}
use granite.Translator.Threads.{translate_all, before_postprocessing}
use granite.Safety.State.{Stacked}
use granite.Safety.Threads.{pop_thread-first, pop_thread-none}
use granite.Safety.Main.{AnyFunction, translate_all-Ends}
use granite.Safety.Program.{new-Inv}

queue_cases :
    (rs : List ThreadRef)
    → (rs ≡ []) ⊎ ((r : ThreadRef) × (rest : List ThreadRef) × (rs ≡ r ∷ rest))
queue_cases [] = inl refl
queue_cases (r ∷ rest) = inr (r, rest, refl)

no_function : (v : View) (o : Objects) (fs : List MirFunction) → Stacked v o [] fs → fs ≡ []
no_function v o [] h = refl
no_function v o (f ∷ fs) h = elim h [ ]

module _ {Net : Type 0} ⦃api : PetriNet Net⦄ (depth : ℕ) where
  translate_threads-empty :
      (rounds : ℕ) (s : Translator Net) {r : Unit {0} × Translator Net}
      → translate_threads depth rounds s ≡ ok r
      → r.1.threads ≡ []
  unfolding translate_threads
  translate_threads-empty zero s e = cc
  translate_threads-empty (suc rounds) s {r} e = elim (queue_cases s.threads) [
    | inl none_left ↦
        let ended : ◌≡◌ {A = Outcome (Unit {0} × Translator Net)} (ok (tt, s)) (ok r) =
          rw (translate_threads, pop_thread-none s none_left) at e in
        ap (λ x. x.1.threads) (sym (ok-injective ended)) ∙ none_left
    | inr (q, rest, same) ↦
        let later = rw (translate_threads, pop_thread-first s q rest same) at e in
        let ((_, s₁), _, e₁) =
          and_then_ok (translate_thread depth q (record s { threads = rest })) _ later in
        translate_threads-empty rounds s₁ e₁
  ]

module _ {Net : Type 0} ⦃api : PetriNet Net⦄ (L : Laws Net) (depth rounds : ℕ) (tcx : TyCtxt) where
  translate_all-empty :
      (s : Translator Net) {r : Unit {0} × Translator Net}
      → translate_all depth rounds s ≡ ok r
      → r.1.threads ≡ []
  unfolding translate_all
  translate_all-empty s e =
      let ((d, s₀), _, e₁) =
        and_then_ok (and_then (expect no_main s.tcx.entry_fn) λ d. ok (d, s)) _ e in
      let ((_, s₁), _, e₂) =
        and_then_ok (push_function_to_call_stack d s.program_start s.program_end s₀) _ e₁ in
      let ((_, s₂), _, e₃) = and_then_ok (translate_top_call_stack depth s₁) _ e₂ in
      translate_threads-empty depth rounds s₂ e₃

  -- When the postprocessing of a program starts, every thread that was found has been taken off the
  -- queue, with those that it spawned, and no function is left on the call stack.
  pub before_postprocessing-empty :
      (s : Translator Net)
      → before_postprocessing depth rounds tcx ≡ ok s
      → (s.threads ≡ []) × (s.call_stack.items ≡ [])
  before_postprocessing-empty s e =
      let (s₀, e₀, f₀) = and_then_ok (new tcx) _ e in
      let ((_, s₁), e₁, f₁) = and_then_ok (translate_all depth rounds s₀) _ f₀ in
      let (h₀, _, _, _) = Fueled.of_result {b = true} (of_Safe (new-Inv L tcx AnyFunction)) e₀ in
      let (h₁, _) = Fueled.of_result (translate_all-Ends L tcx depth rounds s₀ h₀) e₁ in
      let same : s₁ ≡ s = ok-injective f₁ in
      (
        ap (λ x. x.threads) (sym same) ∙ translate_all-empty s₀ e₁,
        ap (λ x. x.call_stack.items) (sym same)
            ∙ no_function (L.view s₁.net) s₁.objects s₁.call_stack.items h₁.functions,
      )
