-- ===== src/Safety/State/Outlines.antt =====
-- What is known of a run of src/translator.rs, with its call stack and its queue of threads.
use granite.Common.{
  ◌<◌, ◌≡◌, sym, ap, ◌∙◌, some, List, [], ◌∷◌, ◌++◌, append_assoc, append-nil, arith, length, All,
  All-map, All-append,
}
use granite.PetriNet.View.{View}
use granite.PetriNet.Grows.{Grows}
use granite.Mir.{DefId, TyCtxt}
use granite.Objects.{ThreadRef, Objects}
use granite.MirFunction.{MirFunction}
use granite.Safety.ThreadDefs.{def_at}
use granite.Safety.World.{FunctionIn, FunctionIn-Grows, Spans}

abbrev pub ThreadRefIn : Objects → ThreadRef → Type 0
ThreadRefIn o r = r < length o.threads

pub ThreadRefIn-Spans :
    {o o' : Objects} → Spans o o' → (r : ThreadRef) → ThreadRefIn o r → ThreadRefIn o' r
ThreadRefIn-Spans p r lt = omega arith

-- What is known of a run: the program, the functions on the call stack, and those that the threads
-- which it spawns may run.
pub record Outline : Type 1 where
  pub program : TyCtxt
  pub stack : List DefId
  pub may_spawn : DefId → Type 0

abbrev pub enter : DefId → Outline → Outline
enter d n = record n { stack = d ∷ n.stack }

-- the function on each level of the call stack
abbrev pub Stacked : View → Objects → List DefId → List MirFunction → Type 0
Stacked v o [] [] = Unit
Stacked v o (d ∷ ds) (f ∷ fs) = FunctionIn v o d f × Stacked v o ds fs
Stacked v o _ _ = ⊥

pub Stacked-Grows :
    {v w : View} {o o' : Objects} (ds : List DefId) (fs : List MirFunction)
    → Grows v w
    → Spans o o'
    → Stacked v o ds fs
    → Stacked w o' ds fs
Stacked-Grows [] [] g p h = tt
Stacked-Grows [] (f ∷ fs) g p h = h
Stacked-Grows (d ∷ ds) [] g p h = h
Stacked-Grows (d ∷ ds) (f ∷ fs) g p h = (FunctionIn-Grows g p f h.0, Stacked-Grows ds fs g p h.1)

-- a thread of the queue that runs such a function
abbrev pub Executes : (DefId → Type 0) → Objects → ThreadRef → Type 0
Executes P o r = (d : DefId) × (def_at o.threads r ≡ some d) × P d

-- the threads at the end of the queue are new, and the others are as before
pub record Queues (P : DefId → Type 0) (o : Objects) (before after : List ThreadRef) : Type 0 where
  pub fresh : List ThreadRef
  pub appended : after ≡ before ++ fresh
  pub runs : All (Executes P o) fresh

pub Queues-refl : (P : DefId → Type 0) (o : Objects) (rs : List ThreadRef) → Queues P o rs rs
Queues-refl P o rs = record { fresh = []; appended = sym (append-nil rs); runs = tt }

pub Executes-Spans :
    (P : DefId → Type 0) {o o' : Objects}
    → Spans o o'
    → (r : ThreadRef) → Executes P o r
    → Executes P o' r
Executes-Spans P p r (d, e, q) = (d, p.defs r d e, q)

pub Queues-trans :
    (P : DefId → Type 0) {o o' : Objects} {q r s : List ThreadRef}
    → Spans o o'
    → Queues P o q r
    → Queues P o' r s
    → Queues P o' q s
Queues-trans P {o} {o'} {q} p first second = record {
  fresh = first.fresh ++ second.fresh;
  appended =
      second.appended
      ∙ ap (λ t. t ++ second.fresh) first.appended
      ∙ append_assoc q first.fresh second.fresh;
  runs =
      All-append (Executes P o') first.fresh second.fresh
        (All-map (Executes P o) first.fresh (Executes-Spans P p) first.runs) second.runs;
}
