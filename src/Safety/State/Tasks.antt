-- ===== src/Safety/State/Tasks.antt =====
-- A handler that gives a task, and `push_task` after it: the tasks list the mutexes once the task is
-- among them.
use granite.Common.{◌≡◌, refl, Option, none, some, List, ◌∷◌, All}
use granite.Common.Outcome.{and_then, Run}
use granite.Common.Outcome.Safe
use granite.Common.Outcome.Safe.{Safe}
use granite.PetriNet.{PetriNet}
use granite.PetriNet.View.{Laws}
use granite.PetriNet.Grows.{Grows, Grows-refl}
use granite.Mir.{DefId}
use granite.Function.{PostprocessingTask}
use granite.Context.{Context}
use granite.Translator.{Translator, context_of, context_result, with_context}
use granite.Translator.Calls.{push_task}
use granite.Safety.Listed.{Listed, Lists, Listed-same, Listed-push}
use granite.Safety.World.{TaskIn, FunctionIn-Grows, Spans, Spans-refl}
use granite.Safety.Step.{ContextIn, OptionTaskIn, TaskStep}
use granite.Safety.State.Outlines.{Outline, enter, Stacked-Grows, Queues-refl}
use granite.Safety.State.Invariant.{Inv, Nothing, Moves, Inv-tasks, tasks-Grows}
use granite.Safety.State.Frames.{top, with_memory}

module _ {Net : Type 0} ⦃api : PetriNet Net⦄ (L : Laws Net) where
  open L use {view}

  -- between the handler and `push_task`, where a task may be missing
  record Unlisted (n : Outline) (s : Translator Net)
      (r : Option PostprocessingTask × Translator Net) : Type 0 where
    inv :
        (ts : List PostprocessingTask)
        → All (TaskIn (view r.1.net) r.1.objects) ts
        → Listed r.1.objects ts
        → Inv L n (record (r.1) { postprocessing = ts })
    grows : Grows (view s.net) (view r.1.net)
    spans : Spans s.objects r.1.objects
    threads : r.1.threads ≡ s.threads
    tasks : r.1.postprocessing ≡ s.postprocessing
    others : All (TaskIn (view r.1.net) r.1.objects) s.postprocessing
    task : OptionTaskIn (view r.1.net) r.1.objects r.0
    lists : Lists s.objects r.1.objects r.0

  module _ (here : DefId) (n : Outline) (s : Translator Net) (h : Inv L (enter here n) s) where
    with_context-Unlisted :
        (m : Run (Context Net) (Option PostprocessingTask))
        → ((c : Context Net)
            → ContextIn L c
            → Grows (view s.net) (view c.net)
            → Spans s.objects c.store.objects
            → Safe (λ (t, c'). TaskStep L c t c') (m c))
        → Safe (Unlisted (enter here n) s) (with_context m s)
    unfolding with_context context_of context_result
    with_context-Unlisted m safe =
        let t = top L (view s.net) s.objects here n.stack s.call_stack.items h.functions in
        rw t.peek_lem (
          Safe.bind
            (safe (context_of s t.function)
              (record { objects = h.objects; memory = t.inside.memory }) (Grows-refl (view s.net))
              (Spans-refl s.objects))
            λ (a, c) step. rw t.peek_mut_lem (
              Safe.returns (record {
                inv = λ ts ht hl.
                    Inv-tasks L (enter here n) s h c.net c.store.objects _ ts step.grows step.spans
                      step.inside.objects
                      (
                        with_memory L (FunctionIn-Grows step.grows step.spans t.function t.inside)
                            step.inside.memory,
                        Stacked-Grows n.stack t.rest step.grows step.spans t.others,
                      )
                      ht hl;
                grows = step.grows;
                spans = step.spans;
                threads = refl;
                tasks = refl;
                others = tasks-Grows L (enter here n) s h step.grows step.spans;
                task = step.task;
                lists = step.lists;
              })))

    push_task-Moves :
        (t : Option PostprocessingTask) (s' : Translator Net)
        → Unlisted (enter here n) s (t, s')
        → Safe (Moves L (enter here n) s (Nothing L)) (push_task t s')
    unfolding push_task
    push_task-Moves none s' u = Safe.returns (record {
      inv =
          u.inv s'.postprocessing (rw u.tasks u.others)
            (rw u.tasks (Listed-same s.objects s'.objects s.postprocessing u.lists h.listed));
      grows = u.grows;
      spans = u.spans;
      queue = rw u.threads (Queues-refl n.may_spawn s'.objects s.threads);
      result = tt;
    })
    push_task-Moves (some t) s' u = Safe.returns (record {
      inv =
          u.inv (t ∷ s'.postprocessing) (u.task, rw u.tasks u.others)
            (rw u.tasks (Listed-push s.objects s'.objects t s.postprocessing u.lists h.listed));
      grows = u.grows;
      spans = u.spans;
      queue = rw u.threads (Queues-refl n.may_spawn s'.objects s.threads);
      result = tt;
    })

    pub with_context_task-Safe :
        (m : Run (Context Net) (Option PostprocessingTask))
        → ((c : Context Net)
            → ContextIn L c
            → Grows (view s.net) (view c.net)
            → Spans s.objects c.store.objects
            → Safe (λ (t, c'). TaskStep L c t c') (m c))
        → Safe
            (Moves L (enter here n) s (Nothing L))
            (and_then (with_context m s) λ (t, s'). push_task t s')
    with_context_task-Safe m safe =
        Safe.bind (with_context-Unlisted m safe) λ (t, s') u. push_task-Moves t s' u
