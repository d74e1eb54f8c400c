-- ===== src/Safety/Bodies.antt =====
-- The translation of a function's body, src/translator.rs: with fuel above the rank of the function
-- it does not run out, and without ranks it may.
use granite.Common.{
  ℕ, zero, suc, ◌<◌, ◌≡◌, Bool, false, inl, inr, Bool-cases, List, [], ◌∷◌, arith, All, subst,
}
use granite.Common.Outcome.Safe.{Safe}
use granite.Common.Outcome.Fueled.{Fueled, starved, of_Safe}
use granite.PetriNet.{PlaceRef, PetriNet}
use granite.PetriNet.View.{Laws}
use granite.PetriNet.Grows.{PlaceIn}
use granite.Mir.{DefId, Visit, basic_block_data, assign, terminator, TerminatorKind, TyCtxt}
use granite.Translator.{Translator, push_function_to_call_stack}
use granite.Translator.Main.{translate_top_call_stack}
use granite.Safety.Allowed.{VisitAllowed, Ranked}
use granite.Safety.Visitor.{visit_all-Ends}
use granite.Safety.State.{
  Outline, enter, first, proceed, Inv, Moves, Nothing, read_top-Safe, push_function-Safe,
  pop_function-Safe, new-FunctionIn,
}

-- a rank below `k`, where ranks are asked for
abbrev pub Below : Bool → (DefId → ℕ) → ℕ → DefId → Type 0
Below b rank k d = b ≡ false → rank d < k

-- the functions `ds` are on the stack, and the threads of this run are in `P`
abbrev pub outline : TyCtxt → (DefId → Type 0) → List DefId → Outline
outline program P ds = record { program = program; stack = ds; may_spawn = P }

-- ranks that are asked for in turn
lt_asked :
    {b : Bool} {m n k : ℕ} → (b ≡ false → m < n) → (b ≡ false → n < suc k) → b ≡ false → m < k
lt_asked h h' e = omega (arith, h e, h' e)

same_body :
    {d here : DefId} {tcx program : TyCtxt}
    → d ≡ here
    → tcx ≡ program
    → program.visit_body here ≡ tcx.visit_body d
same_body e e' = cc

module _ {b : Bool} {program : TyCtxt} {rank : DefId → ℕ}
    (ranked : b ≡ false → Ranked program rank) where
  module _ (here : DefId) (P : DefId → Type 0)
      (may : (d : DefId) → Below b rank (rank here) d → P d) where
    abbrev Strict : Visit → Type 0
    Strict v = VisitAllowed program here (λ e. rank e < rank here) (λ e. rank e < rank here) v

    visit-Below :
        (v : Visit)
        → (b ≡ false → Strict v)
        → VisitAllowed program here (Below b rank (rank here)) P v
    visit-Below (basic_block_data block) h = tt
    visit-Below (assign place rvalue) h = tt
    visit-Below (terminator (TerminatorKind.goto target)) h = tt
    visit-Below (terminator (TerminatorKind.switch_int targets)) h = tt
    visit-Below (terminator TerminatorKind.unwind_resume) h = tt
    visit-Below (terminator TerminatorKind.unwind_terminate) h = tt
    visit-Below (terminator TerminatorKind.return_) h = tt
    visit-Below (terminator TerminatorKind.unreachable) h = tt
    visit-Below (terminator (TerminatorKind.drop place target unwind)) h = tt
    visit-Below (terminator (TerminatorKind.call func args dest target unwind)) h = record {
      spawns = λ d e spawn a d' e₁ e₂. may d' λ same. (h same).spawns d e spawn a d' e₁ e₂;
      calls = λ d e mir same. (h same).calls d e mir;
    }
    visit-Below (terminator (TerminatorKind.assert target unwind)) h = tt
    visit-Below (terminator TerminatorKind.yield_) h = tt
    visit-Below (terminator TerminatorKind.coroutine_drop) h = tt
    visit-Below (terminator TerminatorKind.false_edge) h = tt
    visit-Below (terminator TerminatorKind.false_unwind) h = tt
    visit-Below (terminator TerminatorKind.inline_asm) h = tt
    visit-Below (terminator TerminatorKind.tail_call) h = tt

    body-Below :
        (vs : List Visit)
        → (b ≡ false → All Strict vs)
        → All (VisitAllowed program here (Below b rank (rank here)) P) vs
    body-Below [] h = tt
    body-Below (v ∷ vs) h = (visit-Below v (λ same. (h same).0), body-Below vs λ same. (h same).1)

  module _ {Net : Type 0} ⦃api : PetriNet Net⦄ (L : Laws Net) (P : DefId → Type 0) where
    open L use {view}

    pub translate_top-Ends :
        (depth : ℕ) (here : DefId) (ds : List DefId) (s : Translator Net)
        → Below b rank depth here
        → ((d : DefId) → Below b rank (rank here) d → P d)
        → Inv L (enter here (outline program P ds)) s
        → Fueled b (Moves L (outline program P ds) s (Nothing L)) (translate_top_call_stack depth s)
    unfolding translate_top_call_stack
    translate_top-Ends zero here ds s enough may h = elim (Bool-cases b) [
      | inl e ↦ starved e
      | inr e ↦ elim (enough e) [ ]
    ]
    translate_top-Ends (suc depth) here ds s enough may h =
        first L
          (read_top-Safe L here (outline program P ds) s h (λ f v o. f.def_id ≡ here) _
            λ f hf. Safe.returns hf.def_id)
          λ (f, s₁) m₁.
            proceed L
              (visit_all-Ends L here (outline program P ds) (Below b rank (rank here))
                (translate_top_call_stack depth)
                (λ d s₂ lower h₂.
                  translate_top-Ends depth d (here ∷ ds) s₂ (lt_asked lower enough)
                    (λ e lower'. may e λ e'. lt_asked lower' (λ e''. omega (arith, lower e'')) e')
                    h₂)
                (s.tcx.visit_body f.def_id) s₁
                (subst (λ vs. All (VisitAllowed program here (Below b rank (rank here)) P) vs)
                  (same_body m₁.result h.program)
                  (body-Below here P may (program.visit_body here) λ same. (ranked same).body here))
                m₁.inv)
              λ (_, s₂) m₂. of_Safe (pop_function-Safe L here (outline program P ds) s₂ m₂.inv)

module _ {Net : Type 0} ⦃api : PetriNet Net⦄ (L : Laws Net) {program : TyCtxt}
    {P : DefId → Type 0} where
  open L use {view}

  pub push_called-Safe :
      (d : DefId) (ds : List DefId) (a c : PlaceRef) (s : Translator Net)
      → Inv L (outline program P ds) s
      → PlaceIn (view s.net) a
      → PlaceIn (view s.net) c
      → Safe
          (Moves L (outline program P (d ∷ ds)) s (Nothing L))
          (push_function_to_call_stack d a c s)
  unfolding push_function_to_call_stack
  push_called-Safe d ds a c s h ha hc =
      push_function-Safe L (outline program P ds) s h d _
        (new-FunctionIn (view s.net) s.objects d _ a c ha hc)
