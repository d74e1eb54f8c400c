-- ===== src/Safety/Main.antt =====
-- `Translator.Main`: the whole translation of any program, from a well-formed state to its result.
use granite.Common.{ℕ, zero, suc, ◌≡◌, refl, true, false, inl, inr, Option-cases, []}
use granite.Common.Outcome.{no_main}
use granite.Common.Outcome.Safe.{of_expect}
use granite.Common.Outcome.Fueled
use granite.Common.Outcome.Fueled.{Fueled, starved, of_Safe, via}
use granite.PetriNet.{PetriNet}
use granite.PetriNet.View.{Laws}
use granite.PetriNet.Grows.{Grows, Grows-trans}
use granite.Mir.{DefId, TyCtxt}
use granite.Translator.{Translator}
use granite.Translator.Main.{translate_threads, run}
use granite.Translator.Threads.{translate_all, run-translate_all}
use granite.Safety.Allowed.{Ranked}
use granite.Safety.Bodies.{outline, translate_top-Ends, push_called-Safe}
use granite.Safety.Threads.{translate_thread-Ends, some_ref, pop_thread-Safe}
use granite.Safety.Postprocessing.{postprocessing-Safe}
use granite.Safety.State.{Inv}

-- any function may be called, and run by a thread
abbrev pub AnyFunction : DefId → Type 0
AnyFunction d = Unit

module _ {Net : Type 0} ⦃api : PetriNet Net⦄ (L : Laws Net) (program : TyCtxt) where
  open L use {view}

  unranked : true ≡ false → Ranked program (λ d. 0)
  unranked e = cc

  -- No function is on the stack.
  abbrev Idle : Translator Net → Type 0
  Idle = Inv L (outline program AnyFunction [])

  -- the net has grown
  abbrev Later : Translator Net → Unit {0} × Translator Net → Type 0
  Later s (_, s') = Idle s' × Grows (view s.net) (view s'.net)

  threads-Ends :
      (depth rounds : ℕ) (s : Translator Net)
      → Idle s
      → Fueled true (Later s) (translate_threads depth rounds s)
  unfolding translate_threads
  threads-Ends depth zero s h = starved refl
  threads-Ends depth (suc rounds) s h =
      Fueled.first (pop_thread-Safe L program AnyFunction s h) λ (r, s₁) (lt, h₁, g).
        elim (Option-cases r) [
          | inl e ↦ rw e (Fueled.returns (h₁, g))
          | inr (r', e) ↦ rw e (
              Fueled.bind
                (translate_thread-Ends L unranked AnyFunction depth r' s₁ h₁
                  (some_ref s₁.objects r r' e lt) λ d e. ((λ x. cc), λ x y. tt))
                λ (_, s₂) m.
                  Fueled.mono (threads-Ends depth rounds s₂ m.inv)
                    λ (_, s₃) (h₃, g₃). (h₃, Grows-trans g (Grows-trans m.grows g₃)))
        ]

  -- all threads
  pub translate_all-Ends :
      (depth rounds : ℕ) (s : Translator Net)
      → Idle s
      → Fueled true (Later s) (translate_all depth rounds s)
  unfolding translate_all
  translate_all-Ends depth rounds s h =
      via _ _ (of_expect {Q = λ d. Unit {0}} no_main s.tcx.entry_fn refl λ d e. tt) λ d _.
        Fueled.first (push_called-Safe L d [] _ _ s h h.program_start h.program_end) λ (_, s₁) m₁.
          Fueled.bind
            (translate_top-Ends unranked L AnyFunction depth d [] s₁ (λ x. cc) (λ e x. tt) m₁.inv)
            λ (_, s₂) m₂.
              Fueled.mono (threads-Ends depth rounds s₂ m₂.inv)
                λ (_, s₃) (h₃, g₃). (h₃, Grows-trans m₁.grows (Grows-trans m₂.grows g₃))

  pub run-Ends :
      (depth rounds : ℕ) (s : Translator Net)
      → Idle s
      → Fueled true (λ (_, s'). Grows (view s.net) (view s'.net)) (run depth rounds s)
  run-Ends depth rounds s h = rw run-translate_all (
      Fueled.bind (translate_all-Ends depth rounds s h) λ (_, s₁) (h₁, g₁).
        Fueled.mono (of_Safe (postprocessing-Safe L (outline program AnyFunction []) s₁ h₁))
          λ r g. Grows-trans g₁ g)
