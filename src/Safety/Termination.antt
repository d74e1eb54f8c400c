-- ===== src/Safety/Termination.antt =====
-- The loops of src/translator.rs end for a program whose call graph has no cycle: enough fuel and
-- enough rounds are given.
use granite.Common.{
  ℕ, zero, suc, ◌<◌, subst, ◌≡◌, ◌≢◌, refl, ap, ◌∙◌, sym, false, Option, some, List, [], ◌∷◌, ◌++◌,
  append_assoc, append-nil, arith, All, All-append, All-map,
}
use granite.Common.Outcome.{Outcome, ok, panic, and_then, out_of_fuel, no_main}
use granite.Common.Outcome.Safe
use granite.Common.Outcome.Safe.{Safe, is_fault, of_expect}
use granite.Common.Outcome.Fueled
use granite.Common.Outcome.Fueled.{Fueled, of_Safe}
use granite.PetriNet.{PetriNet}
use granite.PetriNet.View.{Laws}
use granite.Mir.{DefId, TyCtxt}
use granite.Objects.{ThreadRef, Objects}
use granite.Translator.{Translator, get_result}
use granite.Translator.Main.{translate_thread, translate_threads, run, translate}
use granite.Safety.Allowed.{Ranked}
use granite.Safety.Bodies.{Below, outline, translate_top-Ends, push_called-Safe}
use granite.Safety.Threads.{translate_thread-Ends, pop_thread-first, pop_thread-none}
use granite.Safety.Postprocessing.{postprocessing-Safe}
use granite.Safety.Main.{AnyFunction}
use granite.Safety.Program.{new-Inv}
use granite.Safety.State.{Inv, Executes, Executes-Spans, Queues-trans, ThreadRefIn, with_threads}

-- A number that makes a run end without using up its fuel.
abbrev Enough : {A : Type 0} → (A → Type 0) → (ℕ → Outcome A) → Type 0
Enough Q o = (k : ℕ) × Fueled false Q (o k)

module _ {A B : Type 0} {Q : A → Type 0} {R : B → Type 0} where
  bind :
      {o : Outcome A} (f : ℕ → A → Outcome B)
      → Fueled false Q o
      → ((a : A) → Q a → Enough R λ k. f k a)
      → Enough R λ k. and_then o (f k)
  bind f (Fueled.returns q) next = next _ q
  bind f (Fueled.panics h) next = (0, Fueled.panics h)
  bind f (Fueled.starved e) next = (0, Fueled.starved e)

  via :
      {C : Type 0} (g : A → C) {o : Outcome A} (f : ℕ → C → Outcome B)
      → Safe Q o
      → ((a : A) → Q a → Enough R λ k. f k (g a))
      → Enough R λ k. and_then (and_then o λ a. ok (g a)) (f k)
  via g f (Safe.returns q) next = next _ q
  via g f (Safe.panics h) next = (0, Fueled.panics h)

program_of :
    {tcx program : TyCtxt} {d : DefId}
    → tcx ≡ program
    → tcx.entry_fn ≡ some d
    → program.entry_fn ≡ some d
program_of e h = cc

module _ {Net : Type 0} ⦃api : PetriNet Net⦄ (L : Laws Net) (program : TyCtxt) (rank : DefId → ℕ)
    (ranked : Ranked program rank) (depth : ℕ) where
  -- a function of a rank below `k`, and a thread that runs one
  abbrev Lower : ℕ → DefId → Type 0
  Lower k d = rank d < k

  abbrev Waits : ℕ → Objects → ThreadRef → Type 0
  Waits k o r = Executes (Lower k) o r

  -- no function is on the stack
  abbrev Idle : (DefId → Type 0) → Translator Net → Type 0
  Idle P = Inv L (outline program P [])

  -- what a run may spawn is no part of the state
  Idle-any : {P : DefId → Type 0} (P' : DefId → Type 0) (s : Translator Net) → Idle P s → Idle P' s
  Idle-any P' s h = record {
    program = h.program;
    program_start = h.program_start;
    program_end = h.program_end;
    program_panic = h.program_panic;
    functions = h.functions;
    threads = h.threads;
    tasks = h.tasks;
    listed = h.listed;
    objects = h.objects;
  }

  abbrev Ended : Unit {0} × Translator Net → Type 0
  Ended (_, s) = Idle AnyFunction s

  -- one more round, for the thread that comes first
  round :
      (r : ThreadRef) (rest : List ThreadRef) (s : Translator Net)
      → s.threads ≡ r ∷ rest
      → Enough Ended (λ k.
        and_then
          (translate_thread depth r (record s { threads = rest }))
          λ (_, s'). translate_threads depth k s')
      → Enough Ended λ k. translate_threads depth k s
  unfolding translate_threads
  round r rest s e (k, h) = (suc k, rw (pop_thread-first s r rest e) h)

  fits :
      {o : Option DefId} (k : ℕ) (d d' : DefId)
      → k < depth
      → rank d < suc k
      → o ≡ some d
      → o ≡ some d'
      → Below false rank depth d' × ((e : DefId) → Below false rank (rank d') e → Lower (rank d) e)
  fits k d d' lt low e e' =
      let same : d' ≡ d = cc in rw same ((λ _. omega arith), λ x below. below refl)

  -- The threads `old` come before those that they spawned: these have lower ranks.
  drain :
      (k : ℕ) (old fresh : List ThreadRef) (s : Translator Net)
      → k < depth
      → Idle AnyFunction s
      → s.threads ≡ old ++ fresh
      → All (Waits (suc k) s.objects) old
      → All (Waits k s.objects) fresh
      → Enough Ended λ k. translate_threads depth k s
  unfolding translate_threads
  drain k [] [] s lt h e ho hf = (suc zero, rw (pop_thread-none s e) (Fueled.returns h))
  drain zero [] (r ∷ fresh) s lt h e ho hf = let (d, _, low) = hf.0 in elim low [ ]
  drain (suc k) [] (r ∷ fresh) s lt h e ho hf =
      drain k (r ∷ fresh) [] s (omega arith) h (e ∙ sym (append-nil (r ∷ fresh))) hf tt
  drain k (r ∷ old) fresh s lt h e ho hf =
      let (d, runs, low) = ho.0 in
      let rest = old ++ fresh in
      let refs = subst (λ rs. All (ThreadRefIn s.objects) rs) e h.threads in
      round r rest s e (
        bind (λ k (_, s'). translate_threads depth k s')
          (translate_thread-Ends L {b = false} (λ _. ranked) (Lower (rank d)) depth r
            (record s { threads = rest })
            (Idle-any (Lower (rank d)) _
              (with_threads L (outline program AnyFunction []) s h rest refs.1))
            refs.0 (λ d' e'. fits k d d' lt low runs e'))
          λ (_, s') m.
            drain k old (fresh ++ m.queue.fresh) s' lt (Idle-any AnyFunction s' m.inv)
              (m.queue.appended ∙ append_assoc old fresh m.queue.fresh)
              (All-map (Waits (suc k) s.objects) old (Executes-Spans (Lower (suc k)) m.spans) ho.1)
              (All-append (Waits k s'.objects) fresh m.queue.fresh
                (All-map (Waits k s.objects) fresh (Executes-Spans (Lower k) m.spans) hf)
                (All-map (Waits (rank d) s'.objects) m.queue.fresh
                  (λ r' (d', e', low'). (d', e', omega arith)) m.queue.runs)))

  run-Enough :
      (s : Translator Net)
      → Idle AnyFunction s
      → s.threads ≡ []
      → ((d : DefId) → s.tcx.entry_fn ≡ some d → rank d < depth)
      → Enough (λ r. Unit {0}) λ k. run depth k s
  unfolding run
  run-Enough s h e main =
      via _ _ (of_expect {Q = λ d. s.tcx.entry_fn ≡ some d} no_main s.tcx.entry_fn refl λ d e. e)
        λ d is_main.
          let P = Lower (rank d) in
          bind _
            (of_Safe (push_called-Safe L d [] _ _ s (Idle-any P s h) h.program_start h.program_end))
            λ (_, s₁) m₁.
              bind _
                (translate_top-Ends {b = false} (λ _. ranked) L P depth d [] s₁
                  (λ _. main d is_main) (λ x below. below refl) m₁.inv)
                λ (_, s₂) m₂.
                  let queue = Queues-trans P m₂.spans m₁.queue m₂.queue in
                  let (k, ended) =
                    drain (rank d) [] queue.fresh s₂ (main d is_main)
                      (Idle-any AnyFunction s₂ m₂.inv)
                      (queue.appended ∙ ap (λ rs. rs ++ queue.fresh) e) tt queue.runs in
                  (
                    k,
                    Fueled.bind ended λ (_, s₃) h₃. of_Safe (
                        Safe.mono (postprocessing-Safe L (outline program AnyFunction []) s₃ h₃)
                          λ r g. tt),
                  )

  translate-Enough :
      ((d : DefId) → program.entry_fn ≡ some d → rank d < depth)
      → Enough (λ n. Unit {0}) λ k. translate {Net = Net} depth k program
  unfolding translate get_result
  translate-Enough main = bind _ (of_Safe (new-Inv L program AnyFunction)) λ s (h, e, _, _).
      let (k, ended) = run-Enough s h e (λ d is_main. main d (program_of h.program is_main)) in
      (k, Fueled.bind ended λ r q. Fueled.returns tt)

not_starved :
    {A : Type 0} {Q : A → Type 0} {o : Outcome A} → Fueled false Q o → o ≢ panic out_of_fuel
not_starved (Fueled.returns q) e = cc
not_starved (Fueled.panics {e = e'} h) e =
    let same : e' ≡ out_of_fuel = cc in cc (subst (λ x. is_fault x ≡ false) same h)
not_starved (Fueled.starved h) e = cc

-- The translation ends, if the call graph of the program has no cycle: each function calls, and
-- each thread spawns, only functions of a lower rank. With fuel above the rank of `main` there is
-- a number of rounds with which the translation does not run out of fuel.
pub translate_ends :
    {Net : Type 0} ⦃api : PetriNet Net⦄
    → Laws Net
    → (tcx : TyCtxt) (rank : DefId → ℕ) (depth : ℕ) → Ranked tcx rank
    → ((d : DefId) → tcx.entry_fn ≡ some d → rank d < depth)
    → (rounds : ℕ) × (translate {Net = Net} depth rounds tcx ≢ panic out_of_fuel)
translate_ends L tcx rank depth ranked main =
    let (rounds, ended) = translate-Enough L tcx rank ranked depth main in
    (rounds, not_starved ended)
