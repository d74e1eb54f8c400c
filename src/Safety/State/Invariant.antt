-- ===== src/Safety/State/Invariant.antt =====
-- The invariant of src/translator.rs, and what a handler does to the state.
use granite.Common.{◌≡◌, Bool, List, All, All-map}
use granite.Common.Outcome.{Outcome, ok, and_then, Run}
use granite.Common.Outcome.Safe
use granite.Common.Outcome.Safe.{Safe, of_Returns}
use granite.Common.Outcome.Fueled
use granite.Common.Outcome.Fueled.{Fueled}
use granite.Common.Outcome.Returns.{Returns}
use granite.PetriNet.{PetriNet}
use granite.PetriNet.View.{View, Laws}
use granite.PetriNet.Grows.{PlaceIn, Grows, Grows-refl, Grows-trans}
use granite.Stack.{Stack}
use granite.Mir.{DefId}
use granite.Objects.{Objects}
use granite.MirFunction.{MirFunction}
use granite.Translator.{Translator, on_translator_net}
use granite.Safety.World.{
  ObjectsIn, ObjectsIn-Grows, TaskIn, TaskIn-Grows, Spans, Spans-refl, Spans-trans,
}
use granite.Function.{PostprocessingTask}
use granite.Safety.Listed.{Keeps, Keeps-refl, Listed, Listed-same}
use granite.Safety.Net.{GrowsTo}
use granite.Safety.State.Outlines.{
  Outline, Stacked, Stacked-Grows, Queues, Queues-refl, Queues-trans, ThreadRefIn,
  ThreadRefIn-Spans,
}

module _ {Net : Type 0} ⦃api : PetriNet Net⦄ (L : Laws Net) where
  open L use {view}

  -- the outline holds, and every reference that the translator holds is valid
  pub record Inv (n : Outline) (s : Translator Net) : Type 0 where
    pub program : s.tcx ≡ n.program
    pub program_start : PlaceIn (view s.net) s.program_start
    pub program_end : PlaceIn (view s.net) s.program_end
    pub program_panic : PlaceIn (view s.net) s.program_panic
    pub functions : Stacked (view s.net) s.objects n.stack s.call_stack.items
    pub threads : All (ThreadRefIn s.objects) s.threads
    pub tasks : All (TaskIn (view s.net) s.objects) s.postprocessing
    pub listed : Listed s.objects s.postprocessing
    pub objects : ObjectsIn (view s.net) s.objects

  -- What the result of a handler says of the net and the objects.
  abbrev pub About : Type 0 → Type 1
  About A = A → View → Objects → Type 0

  abbrev pub Nothing : {A : Type 0} → About A
  Nothing a v o = Unit

  -- from `s` to a well-formed state with the outline `n`, with `Q` of the result
  pub record Moves {A : Type 0} (n : Outline) (s : Translator Net) (Q : About A)
      (r : A × Translator Net) : Type 0 where
    pub inv : Inv n r.1
    pub grows : Grows (view s.net) (view r.1.net)
    pub spans : Spans s.objects r.1.objects
    pub queue : Queues n.may_spawn r.1.objects s.threads r.1.threads
    pub result : Q r.0 (view r.1.net) r.1.objects

  module _ {A : Type 0} {Q : About A} {n : Outline} {s : Translator Net} where
    -- a move after a move
    pub Moves-after :
        {B : Type 0} {R : About B} {ds : List DefId} {r : B × Translator Net}
        {out : Outcome (A × Translator Net)}
        → Moves (record n { stack = ds }) s R r
        → Safe (Moves n r.1 Q) out
        → Safe (Moves n s Q) out
    Moves-after m next = Safe.mono next λ r k. record {
      inv = k.inv;
      grows = Grows-trans m.grows k.grows;
      spans = Spans-trans m.spans k.spans;
      queue = Queues-trans n.may_spawn k.spans m.queue k.queue;
      result = k.result;
    }

    -- one move, and what comes after it
    pub next :
        {B : Type 0} {R : About B} {ds : List DefId} {o : Outcome (B × Translator Net)}
        {f : B × Translator Net → Outcome (A × Translator Net)}
        → Safe (Moves (record n { stack = ds }) s R) o
        → ((r : B × Translator Net)
            → Moves (record n { stack = ds }) s R r
            → Safe (Moves n r.1 Q) (f r))
        → Safe (Moves n s Q) (and_then o f)
    next first rest = Safe.bind first λ r m. Moves-after m (rest r m)

    module _ {b : Bool} where
      Fueled-after :
          {B : Type 0} {R : About B} {ds : List DefId} {r : B × Translator Net}
          {out : Outcome (A × Translator Net)}
          → Moves (record n { stack = ds }) s R r
          → Fueled b (Moves n r.1 Q) out
          → Fueled b (Moves n s Q) out
      Fueled-after m next = Fueled.mono next λ r k. record {
        inv = k.inv;
        grows = Grows-trans m.grows k.grows;
        spans = Spans-trans m.spans k.spans;
        queue = Queues-trans n.may_spawn k.spans m.queue k.queue;
        result = k.result;
      }

      -- a move that takes no fuel, and what comes after it
      pub first :
          {B : Type 0} {R : About B} {ds : List DefId} {o : Outcome (B × Translator Net)}
          {f : B × Translator Net → Outcome (A × Translator Net)}
          → Safe (Moves (record n { stack = ds }) s R) o
          → ((r : B × Translator Net)
              → Moves (record n { stack = ds }) s R r
              → Fueled b (Moves n r.1 Q) (f r))
          → Fueled b (Moves n s Q) (and_then o f)
      first m rest = Fueled.first m λ r k. Fueled-after k (rest r k)

      -- a move that may take fuel, and what comes after it
      pub proceed :
          {B : Type 0} {R : About B} {ds : List DefId} {o : Outcome (B × Translator Net)}
          {f : B × Translator Net → Outcome (A × Translator Net)}
          → Fueled b (Moves (record n { stack = ds }) s R) o
          → ((r : B × Translator Net)
              → Moves (record n { stack = ds }) s R r
              → Fueled b (Moves n r.1 Q) (f r))
          → Fueled b (Moves n s Q) (and_then o f)
      proceed m rest = Fueled.bind m λ r k. Fueled-after k (rest r k)

    -- nothing has changed
    pub stay : (a : A) → Inv n s → Q a (view s.net) s.objects → Safe (Moves n s Q) (ok (a, s))
    stay a h q = Safe.returns (record {
      inv = h;
      grows = Grows-refl (view s.net);
      spans = Spans-refl s.objects;
      queue = Queues-refl n.may_spawn s.objects s.threads;
      result = q;
    })

  module _ (n : Outline) (s : Translator Net) (h : Inv n s) where
    -- the net and the objects have grown, and there are other tasks
    pub Inv-tasks :
        (net : Net) (o : Objects) (stack : Stack MirFunction) (tasks : List PostprocessingTask)
        → Grows (view s.net) (view net)
        → Spans s.objects o
        → ObjectsIn (view net) o
        → Stacked (view net) o n.stack stack.items
        → All (TaskIn (view net) o) tasks
        → Listed o tasks
        → Inv n (record s { net = net; objects = o; call_stack = stack; postprocessing = tasks })
    Inv-tasks net o stack tasks g p ho hs ht hl = record {
      program = h.program;
      program_start = g.places s.program_start h.program_start;
      program_end = g.places s.program_end h.program_end;
      program_panic = g.places s.program_panic h.program_panic;
      functions = hs;
      threads =
          All-map (ThreadRefIn s.objects) s.threads (λ r lt. ThreadRefIn-Spans p r lt) h.threads;
      tasks = ht;
      listed = hl;
      objects = ho;
    }

    -- the tasks that there are, in a greater net
    pub tasks-Grows :
        {v : View} {o : Objects}
        → Grows (view s.net) v
        → Spans s.objects o
        → All (TaskIn v o) s.postprocessing
    tasks-Grows g p =
        All-map (TaskIn (view s.net) s.objects) s.postprocessing (TaskIn-Grows g p) h.tasks

    -- the net and the objects have grown, without a mutex or a call of `wait` more
    pub Inv-Grows :
        (net : Net) (o : Objects) (stack : Stack MirFunction)
        → Grows (view s.net) (view net)
        → Spans s.objects o
        → Keeps s.objects o
        → ObjectsIn (view net) o
        → Stacked (view net) o n.stack stack.items
        → Inv n (record s { net = net; objects = o; call_stack = stack })
    Inv-Grows net o stack g p same ho hs =
        Inv-tasks net o stack s.postprocessing g p ho hs (tasks-Grows g p)
          (Listed-same s.objects o s.postprocessing same h.listed)

    pub on_translator_net-Safe :
        {A : Type 0} (Q : A → View → Type 0) (m : Run Net A)
        → Returns (GrowsTo L s.net Q) (m s.net)
        → Safe (Moves n s λ a v o. Q a v) (on_translator_net m s)
    unfolding on_translator_net
    on_translator_net-Safe Q m r = Safe.bind (of_Returns r) λ (a, net) (g, q).
        let p = Spans-refl s.objects in
        Safe.returns (record {
          inv =
              Inv-Grows net s.objects s.call_stack g p (Keeps-refl s.objects)
                (ObjectsIn-Grows g s.objects h.objects)
                (Stacked-Grows n.stack s.call_stack.items g p h.functions);
          grows = g;
          spans = p;
          queue = Queues-refl n.may_spawn s.objects s.threads;
          result = q;
        })
