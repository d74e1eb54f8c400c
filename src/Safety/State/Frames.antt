-- ===== src/Safety/State/Frames.antt =====
-- What a handler does to the function on the top of the call stack.
use granite.Common.{◌≡◌, refl, List, [], ◌∷◌}
use granite.Common.Outcome.{Outcome, ok, and_then, Run}
use granite.Common.Outcome.Safe
use granite.Common.Outcome.Safe.{Safe, of_Returns}
use granite.PetriNet.{PetriNet}
use granite.PetriNet.View.{View, Laws}
use granite.PetriNet.Grows.{Grows, Grows-refl}
use granite.Stack
use granite.Stack.{Stack}
use granite.Mir.{DefId}
use granite.Objects.{Objects}
use granite.Memory.{Memory}
use granite.Context.{Context}
use granite.MirFunction.{MirFunction, Frame}
use granite.Translator.{
  Translator, context_of, read_top, frame_result, with_frame, context_result, with_context,
}
use granite.Safety.World.{ObjectsIn-Grows, MapIn, FunctionIn, FunctionIn-Grows, Spans, Spans-refl}
use granite.Safety.Step.{ContextIn, Step}
use granite.Safety.Frame.{FrameIn, FrameStep}
use granite.Safety.State.Outlines.{Outline, enter, Stacked, Stacked-Grows, Queues-refl}
use granite.Safety.Listed.{Keeps-refl}
use granite.Safety.State.Invariant.{Inv, About, Moves, stay, Inv-Grows}

module _ {Net : Type 0} ⦃api : PetriNet Net⦄ (L : Laws Net) where
  open L use {view}

  pub with_memory :
      {v : View} {o : Objects} {d : DefId} {f : MirFunction} {m : Memory}
      → FunctionIn v o d f
      → MapIn o m.map
      → FunctionIn v o d (record f { memory = m })
  with_memory h k = record {
    def_id = h.def_id;
    start_place = h.start_place;
    end_place = h.end_place;
    blocks = h.blocks;
    active = h.active;
    memory = k;
  }

  -- the function on the top of a stack that is not empty, and the others
  pub record Top (v : View) (o : Objects) (d : DefId) (ds : List DefId) (stack : Stack MirFunction)
      : Type 1 where
    pub function : MirFunction
    pub rest : List MirFunction
    pub peek_lem : Stack.peek stack ≡ ok function
    pub peek_mut_lem :
        {A : Type 0} (m : Run MirFunction A)
        → Stack.peek_mut m stack
          ≡ and_then (m function) λ (a, f). ok (a, record { items = f ∷ rest })
    pub inside : FunctionIn v o d function
    pub others : Stacked v o ds rest

  pub top :
      (v : View) (o : Objects) (d : DefId) (ds : List DefId) (fs : List MirFunction)
      → Stacked v o (d ∷ ds) fs
      → Top v o d ds (record { items = fs })
  unfolding Stack.peek Stack.peek_items Stack.peek_mut Stack.peek_mut_items
  top v o d ds [] h = elim h [ ]
  top v o d ds (f ∷ rest) h = record {
    function = f;
    rest = rest;
    peek_lem = refl;
    peek_mut_lem = λ m. refl;
    inside = h.0;
    others = h.1;
  }

  module _ (here : DefId) (n : Outline) (s : Translator Net) (h : Inv L (enter here n) s) where
    module _ {A : Type 0} (Q : About L A) where
      pub read_top-Safe :
          (m : MirFunction → Outcome A)
          → ((f : MirFunction)
              → FunctionIn (view s.net) s.objects here f
              → Safe (λ a. Q a (view s.net) s.objects) (m f))
          → Safe (Moves L (enter here n) s Q) (read_top m s)
      unfolding read_top
      read_top-Safe m safe =
          let t = top (view s.net) s.objects here n.stack s.call_stack.items h.functions in
          rw t.peek_lem (Safe.bind (safe t.function t.inside) λ a q. stay L a h q)

      pub with_frame-Safe :
          (m : Run (Frame Net) A)
          → ((c : Frame Net)
              → FrameIn L s.objects here c
              → Grows (view s.net) (view c.net)
              → Safe (FrameStep L s.objects here c λ a c'. Q a (view c'.net) s.objects) (m c))
          → Safe (Moves L (enter here n) s Q) (with_frame m s)
      unfolding with_frame frame_result
      with_frame-Safe m safe =
          let t = top (view s.net) s.objects here n.stack s.call_stack.items h.functions in
          let p = Spans-refl s.objects in
          rw t.peek_lem (
            Safe.bind
              (safe (record { function = t.function; net = s.net }) t.inside
                (Grows-refl (view s.net)))
              λ (a, c) (hc, g, q). rw t.peek_mut_lem (
                Safe.returns (record {
                  inv =
                      Inv-Grows L (enter here n) s h c.net s.objects
                        (record { items = c.function ∷ t.rest }) g p (Keeps-refl s.objects)
                        (ObjectsIn-Grows g s.objects h.objects)
                        (hc, Stacked-Grows n.stack t.rest g p t.others);
                  grows = g;
                  spans = p;
                  queue = Queues-refl n.may_spawn s.objects s.threads;
                  result = q;
                })))

      pub with_context-Safe :
          (m : Run (Context Net) A)
          → ((c : Context Net)
              → ContextIn L c
              → Grows (view s.net) (view c.net)
              → Spans s.objects c.store.objects
              → Safe (λ (a, c'). Step L c c' × Q a (view c'.net) c'.store.objects) (m c))
          → Safe (Moves L (enter here n) s Q) (with_context m s)
      unfolding with_context context_of context_result
      with_context-Safe m safe =
          let t = top (view s.net) s.objects here n.stack s.call_stack.items h.functions in
          rw t.peek_lem (
            Safe.bind
              (safe (context_of s t.function)
                (record { objects = h.objects; memory = t.inside.memory }) (Grows-refl (view s.net))
                (Spans-refl s.objects))
              λ (a, c) (step, q). rw t.peek_mut_lem (
                Safe.returns (record {
                  inv =
                      Inv-Grows L (enter here n) s h c.net c.store.objects
                        (record {
                          items = record (t.function) { memory = c.store.memory } ∷ t.rest;
                        })
                        step.grows step.spans step.keeps step.inside.objects
                        (
                          with_memory (FunctionIn-Grows step.grows step.spans t.function t.inside)
                              step.inside.memory,
                          Stacked-Grows n.stack t.rest step.grows step.spans t.others,
                        );
                  grows = step.grows;
                  spans = step.spans;
                  queue = Queues-refl n.may_spawn c.store.objects s.threads;
                  result = q;
                })))
