-- ===== src/Safety/Postprocessing.antt =====
-- `Translator.Postprocessing`: the tasks keep the net, and refer to what is there.
use granite.Common.{
  ℕ, zero, suc, ◌<◌, inl, inr, Option-cases, List, [], ◌∷◌, length, All, All-append, All-map,
}
use granite.Common.Outcome.Safe
use granite.Common.Outcome.Safe.{Safe, via, last, of_Returns}
use granite.PetriNet.{PlaceRef, TransitionRef, PetriNet}
use granite.PetriNet.View.{Laws}
use granite.PetriNet.Grows.{PlaceIn, TransitionIn, Grows, Grows-refl, Grows-trans}
use granite.Objects.{MutexRef, Objects}
use granite.Function.{PostprocessingTask, link_mutex_to_condvar, new_mutex, pop_task}
use granite.Function.Heap.{AllPopped-some, pop_task-All}
use granite.Translator.{Translator}
use granite.Translator.Postprocessing.{link_all, run_task, run_tasks, translation_postprocessing}
use granite.Safety.World.{ObjectsIn, ObjectsIn-Grows, TaskIn, TaskIn-Grows, Spans-refl}
use granite.Safety.Net.{GrowsTo, link_to_condvar-GrowsTo}
use granite.Safety.Objects.{mutex_at-Safe}
use granite.Safety.State.{Outline, Inv}

module _ {Net : Type 0} ⦃api : PetriNet Net⦄ (L : Laws Net) where
  open L use {view}

  module _ (o : Objects) where
    link_all-Safe :
        (rs : List MutexRef) (i : ℕ) (a b : PlaceRef) (w : TransitionRef) (n : Net)
        → ObjectsIn (view n) o
        → All (λ r. r < length o.mutexes) rs
        → PlaceIn (view n) a
        → PlaceIn (view n) b
        → TransitionIn (view n) w
        → Safe (GrowsTo L n λ _ v. Unit {0}) (link_all o rs i a b w n)
    unfolding link_all
    link_all-Safe [] i a b w n ho hs ha hb hw = Safe.returns (Grows-refl (view n), tt)
    link_all-Safe (r ∷ rs) i a b w n ho hs ha hb hw = via _ _ (mutex_at-Safe o ho r hs.0) λ m hm.
        Safe.bind (of_Returns (link_to_condvar-GrowsTo L m i a b w n ha hb hw hm)) λ (_, n₁) (g, _).
          Safe.mono
            (link_all-Safe rs i a b w n₁ (ObjectsIn-Grows g o ho) hs.1 (g.places a ha)
              (g.places b hb) (g.transitions w hw))
            λ (_, n₂) (g', _). (Grows-trans g g', tt)

    run_task-Safe :
        (t : PostprocessingTask) (rs : List MutexRef) (n : Net)
        → ObjectsIn (view n) o
        → TaskIn (view n) o t
        → All (λ r. r < length o.mutexes) rs
        → Safe (GrowsTo L n λ rs' v. All (λ r. r < length o.mutexes) rs') (run_task o t rs n)
    unfolding run_task
    run_task-Safe (link_mutex_to_condvar k i a b w) rs n ho ht hs =
        Safe.bind (link_all-Safe rs i a b w n ho hs ht.0 ht.1 ht.2)
          λ (_, n₁) (g, _). Safe.returns (g, hs)
    run_task-Safe (new_mutex k r) rs n ho ht hs =
        Safe.returns (Grows-refl (view n), All-append _ rs (r ∷ []) hs (ht, tt))

    run_tasks-Safe :
        (rounds : ℕ) (ts : List PostprocessingTask) (rs : List MutexRef) (n : Net)
        → ObjectsIn (view n) o
        → All (TaskIn (view n) o) ts
        → All (λ r. r < length o.mutexes) rs
        → Safe (GrowsTo L n λ _ v. Unit {0}) (run_tasks rounds o ts rs n)
    unfolding run_tasks
    run_tasks-Safe zero ts rs n ho ht hs = Safe.returns (Grows-refl (view n), tt)
    run_tasks-Safe (suc rounds) ts rs n ho ht hs = elim (Option-cases (pop_task ts)) [
      | inl e ↦ rw (run_tasks, e) (Safe.returns (Grows-refl (view n), tt))
      | inr ((t, rest), e) ↦
          rw (run_tasks, e)
            (let h = AllPopped-some (TaskIn (view n) o) _ t rest e (pop_task-All _ ts ht) in
              Safe.bind (run_task-Safe t rs n ho h.0 hs) λ (rs', n₁) (g, hs').
                Safe.mono
                  (run_tasks-Safe rounds rest rs' n₁ (ObjectsIn-Grows g o ho)
                    (All-map (TaskIn (view n) o) rest (TaskIn-Grows g (Spans-refl o)) h.1) hs')
                  λ (_, n₂) (g', _). (Grows-trans g g', tt))
    ]

  pub postprocessing-Safe :
      (n : Outline) (s : Translator Net)
      → Inv L n s
      → Safe (λ (_, s'). Grows (view s.net) (view s'.net)) (translation_postprocessing s)
  unfolding translation_postprocessing
  postprocessing-Safe n s h =
      last _ (run_tasks-Safe s.objects _ s.postprocessing [] s.net h.objects h.tasks tt)
        λ (_, n) (g, _). g
