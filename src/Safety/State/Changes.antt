-- ===== src/Safety/State/Changes.antt =====
-- The changes of the counter, the queues and the call stack.
use granite.Common.{◌≡◌, refl, String, List, [], ◌∷◌, All, All-append}
use granite.Common.Outcome.{ok}
use granite.Common.Outcome.Safe.{Safe}
use granite.PetriNet.{PlaceRef, PetriNet}
use granite.PetriNet.View.{View, Laws}
use granite.PetriNet.Grows.{PlaceIn, Grows-refl}
use granite.Stack
use granite.Stack.{Stack}
use granite.Objects.{ThreadRef, Objects}
use granite.Mir.{DefId}
use granite.MirFunction
use granite.Translator.Main.{set_program_panic}
use granite.MirFunction.{MirFunction, Frame}
use granite.Translator.{Translator, get_count, increment, push_function, pop_function}
use granite.Translator.Special.{push_thread}
use granite.Safety.World.{FunctionIn, Spans-refl}
use granite.Safety.State.Outlines.{
  Outline, enter, Stacked, Executes, Queues, Queues-refl, ThreadRefIn,
}
use granite.Safety.State.Invariant.{Inv, About, Nothing, Moves}

module _ {Net : Type 0} ⦃api : PetriNet Net⦄ (L : Laws Net) where
  open L use {view}

  module _ (n : Outline) (s : Translator Net) (h : Inv L n s) where
    -- a change of the counter, the two queues or the stack, with what each keeps
    pub changes :
        {A : Type 0} {Q : About L A} {ds : List DefId} (a : A) (s' : Translator Net)
        → s'.net ≡ s.net
        → s'.objects ≡ s.objects
        → Queues n.may_spawn s.objects s.threads s'.threads
        → Inv L (record n { stack = ds }) s'
        → Q a (view s.net) s.objects
        → Safe (Moves L (record n { stack = ds }) s Q) (ok (a, s'))
    changes {Q} a s' e o more i q = Safe.returns (record {
      inv = i;
      grows = rw e (Grows-refl (view s.net));
      spans = rw o (Spans-refl s.objects);
      queue = rw o more;
      result = rw (e, o) q;
    })

    unchanged : Queues n.may_spawn s.objects s.threads s.threads
    unchanged = Queues-refl n.may_spawn s.objects s.threads

    pub get_count-Safe : (f : String) → Safe (Moves L n s (Nothing L)) (get_count f s)
    unfolding get_count
    get_count-Safe f =
        changes _ _ refl refl unchanged
          (record {
            program = h.program;
            program_start = h.program_start;
            program_end = h.program_end;
            program_panic = h.program_panic;
            functions = h.functions;
            threads = h.threads;
            tasks = h.tasks;
            listed = h.listed;
            objects = h.objects;
          })
          tt

    pub increment-Safe : (f : String) → Safe (Moves L n s (Nothing L)) (increment f s)
    unfolding increment
    increment-Safe f =
        changes _ _ refl refl unchanged
          (record {
            program = h.program;
            program_start = h.program_start;
            program_end = h.program_end;
            program_panic = h.program_panic;
            functions = h.functions;
            threads = h.threads;
            tasks = h.tasks;
            listed = h.listed;
            objects = h.objects;
          })
          tt

    pub with_threads :
        (threads : List ThreadRef)
        → All (ThreadRefIn s.objects) threads
        → Inv L n (record s { threads = threads })
    with_threads threads ht = record {
      program = h.program;
      program_start = h.program_start;
      program_end = h.program_end;
      program_panic = h.program_panic;
      functions = h.functions;
      threads = ht;
      tasks = h.tasks;
      listed = h.listed;
      objects = h.objects;
    }

    pub push_thread-Safe :
        (r : ThreadRef)
        → ThreadRefIn s.objects r
        → Executes n.may_spawn s.objects r
        → Safe (Moves L n s (Nothing L)) (push_thread r s)
    unfolding push_thread
    push_thread-Safe r lt run =
        changes _ _ refl refl (record { fresh = r ∷ []; appended = refl; runs = (run, tt) })
          (with_threads _
            (All-append (ThreadRefIn s.objects) s.threads (r ∷ []) h.threads (lt, tt)))
          tt

    with_stack :
        (ds : List DefId) (stack : Stack MirFunction)
        → Stacked (view s.net) s.objects ds stack.items
        → Inv L (record n { stack = ds }) (record s { call_stack = stack })
    with_stack ds stack hs = record {
      program = h.program;
      program_start = h.program_start;
      program_end = h.program_end;
      program_panic = h.program_panic;
      functions = hs;
      threads = h.threads;
      tasks = h.tasks;
      listed = h.listed;
      objects = h.objects;
    }

    pub push_function-Safe :
        (d : DefId) (f : MirFunction)
        → FunctionIn (view s.net) s.objects d f
        → Safe (Moves L (enter d n) s (Nothing L)) (push_function f s)
    unfolding push_function Stack.push
    push_function-Safe d f hf =
        changes _ _ refl refl unchanged (with_stack (d ∷ n.stack) _ (hf, h.functions)) tt

    pub set_program_panic-Safe :
        (p : PlaceRef)
        → PlaceIn (view s.net) p
        → Safe (Moves L n s (Nothing L)) (set_program_panic p s)
    unfolding set_program_panic
    set_program_panic-Safe p hp =
        changes _ _ refl refl unchanged
          (record {
            program = h.program;
            program_start = h.program_start;
            program_end = h.program_end;
            program_panic = hp;
            functions = h.functions;
            threads = h.threads;
            tasks = h.tasks;
            listed = h.listed;
            objects = h.objects;
          })
          tt

  popped :
      (v : View) (o : Objects) (d : DefId) (ds : List DefId) (fs : List MirFunction)
      → Stacked v o (d ∷ ds) fs
      → Stacked v o ds (Stack.pop_items fs).1.items
  unfolding Stack.pop_items
  popped v o d ds [] h = elim h [ ]
  popped v o d ds (f ∷ fs) h = h.1

  pub pop_function-Safe :
      (here : DefId) (n : Outline) (s : Translator Net)
      → Inv L (enter here n) s
      → Safe (Moves L n s (Nothing L)) (pop_function s)
  unfolding pop_function Stack.pop
  pop_function-Safe here n s h =
      changes (enter here n) s h _ _ refl refl (unchanged (enter here n) s h)
        (with_stack (enter here n) s h n.stack _
          (popped (view s.net) s.objects here n.stack s.call_stack.items h.functions))
        tt

-- a function that has just been entered
pub new-FunctionIn :
    (v : View) (o : Objects) (d : DefId) (name : String) (s e : PlaceRef)
    → PlaceIn v s
    → PlaceIn v e
    → FunctionIn v o d (MirFunction.new d name s e)
unfolding MirFunction.new
new-FunctionIn v o d name s e hs he = record {
  def_id = refl;
  start_place = hs;
  end_place = he;
  blocks = tt;
  active = tt;
  memory = tt;
}
