-- ===== src/Translator/Postprocessing/Order.antt =====
-- The order of the postprocessing, `translation_postprocessing` of src/translator.rs: the heap gives
-- the tasks that bring a mutex before the calls of `wait`, whatever the order in which the tasks were
-- found.
use mathlib.Core.Path.{fun_ext}
use granite.Common.{
  ℕ, zero, suc, ◌≤◌, ◌≡◌, refl, ap, ◌∙◌, sym, true, false, none, some, ◌⊎◌, inl, inr, List, [], ◌∷◌,
  ◌++◌, arith, length, All, append_assoc, append-nil,
}
use granite.Common.Outcome.{Outcome, ok, panic, Run, and_then, pure, ◌>>◌}
use granite.PetriNet.{PlaceRef, TransitionRef, PetriNet}
use granite.Objects.{MutexRef, Objects}
use granite.Function.{
  PostprocessingTask, link_mutex_to_condvar, new_mutex, get_priority, is_greatest, pop_task,
}
use granite.Translator.Postprocessing.{link_all, run_task, run_tasks}

-- the priorities with which the two kinds of task are created
abbrev pub Prioritised : PostprocessingTask → Type 0
Prioritised (link_mutex_to_condvar k i a b w) = k ≡ 1
Prioritised (new_mutex k r) = k ≡ 2

-- the mutexes of the tasks
unfoldable pub mutexes_of : List PostprocessingTask → List MutexRef
mutexes_of [] = []
mutexes_of (link_mutex_to_condvar k i a b w ∷ ts) = mutexes_of ts
mutexes_of (new_mutex k r ∷ ts) = r ∷ mutexes_of ts

module _ {Net : Type 0} ⦃api : PetriNet Net⦄ where
  -- each call of `wait` among the tasks is linked to all the mutexes
  unfoldable pub link_each : Objects → List MutexRef → List PostprocessingTask → Run Net (Unit {0})
  link_each o rs [] = pure tt
  link_each o rs (link_mutex_to_condvar k i a b w ∷ ts) = do
    link_all o rs i a b w
    link_each o rs ts
  link_each o rs (new_mutex k r ∷ ts) = link_each o rs ts

-- `t` is the first task of the list that brings a mutex, and `rest` are the other tasks
data FirstMutex
    : List PostprocessingTask
      → MutexRef
      → PostprocessingTask
      → List PostprocessingTask
      → Type 0 where
  here :
      {k : ℕ} {r : MutexRef} {ts : List PostprocessingTask}
      → FirstMutex (new_mutex k r ∷ ts) r (new_mutex k r) ts
  there :
      {k i : ℕ} {a b : PlaceRef} {w : TransitionRef} {r : MutexRef} {t : PostprocessingTask}
      {ts rest : List PostprocessingTask}
      → FirstMutex ts r t rest
      → FirstMutex
          (link_mutex_to_condvar k i a b w ∷ ts)
          r
          t
          (link_mutex_to_condvar k i a b w ∷ rest)

below_two :
    (k r : ℕ) (ts : List PostprocessingTask)
    → k ≡ 2
    → All Prioritised ts
    → is_greatest (new_mutex k r) ts ≡ true
unfolding is_greatest
below_two k r [] e h = refl
below_two k r (link_mutex_to_condvar j i a b w ∷ ts) e h =
    ground (arith, h.0, below_two k r ts e h.1)
below_two k r (new_mutex j s ∷ ts) e h = ground (arith, h.0, below_two k r ts e h.1)

not_greatest :
    (t : PostprocessingTask) {ts rest : List PostprocessingTask} {r : MutexRef}
    {u : PostprocessingTask}
    → get_priority t ≡ 1
    → All Prioritised ts
    → FirstMutex ts r u rest
    → is_greatest t ts ≡ false
unfolding is_greatest
not_greatest t e h here = ground (arith, h.0)
not_greatest t e h (there f) = ground (arith, not_greatest t e h.1 f)

pop_first :
    {ts rest : List PostprocessingTask} {r : MutexRef} {t : PostprocessingTask}
    → All Prioritised ts
    → FirstMutex ts r t rest
    → pop_task ts ≡ some (t, rest)
unfolding pop_task
pop_first h (here {k} {r} {ts}) = rw (below_two k r ts h.0 h.1) refl
pop_first h (there f) = rw (not_greatest _ h.0 h.1 f, pop_first h.1 f) refl

-- what the first mutex leaves
first-mutexes_of :
    {ts rest : List PostprocessingTask} {r : MutexRef} {t : PostprocessingTask}
    → FirstMutex ts r t rest
    → mutexes_of ts ≡ r ∷ mutexes_of rest
unfolding mutexes_of
first-mutexes_of here = refl
first-mutexes_of (there f) = first-mutexes_of f

first-Prioritised :
    {ts rest : List PostprocessingTask} {r : MutexRef} {t : PostprocessingTask}
    → All Prioritised ts
    → FirstMutex ts r t rest
    → All Prioritised rest × (length ts ≡ suc (length rest))
first-Prioritised h here = (h.1, refl)
first-Prioritised h (there f) = let (k, e) = first-Prioritised h.1 f in ((h.0, k), ap suc e)

-- without a mutex, the tasks are taken off in their order
data NoMutex : List PostprocessingTask → Type 0 where
  none_left : NoMutex []
  one_more :
      {k i : ℕ} {a b : PlaceRef} {w : TransitionRef} {ts : List PostprocessingTask}
      → NoMutex ts
      → NoMutex (link_mutex_to_condvar k i a b w ∷ ts)

NoMutex-mutexes_of : {ts : List PostprocessingTask} → NoMutex ts → mutexes_of ts ≡ []
unfolding mutexes_of
NoMutex-mutexes_of none_left = refl
NoMutex-mutexes_of (one_more h) = NoMutex-mutexes_of h

none_greater :
    (t : PostprocessingTask) {ts : List PostprocessingTask}
    → get_priority t ≡ 1
    → All Prioritised ts
    → NoMutex ts
    → is_greatest t ts ≡ true
unfolding is_greatest
none_greater t e h none_left = refl
none_greater t e h (one_more n) = ground (arith, h.0, none_greater t e h.1 n)

first_mutex :
    (ts : List PostprocessingTask)
    → NoMutex ts
      ⊎ ((r : MutexRef) × (t : PostprocessingTask) × (rest : List PostprocessingTask) × FirstMutex
            ts r t rest)
first_mutex [] = inl none_left
first_mutex (link_mutex_to_condvar k i a b w ∷ ts) = elim (first_mutex ts) [
  | inl n ↦ inl (one_more n)
  | inr (r, t, rest, f) ↦ inr (r, t, link_mutex_to_condvar k i a b w ∷ rest, there f)
]
first_mutex (new_mutex k r ∷ ts) = inr (r, new_mutex k r, ts, here)

pop_empty : pop_task [] ≡ none
unfolding pop_task
pop_empty = refl

pop_none :
    {t : PostprocessingTask} {ts : List PostprocessingTask}
    → All Prioritised (t ∷ ts)
    → NoMutex (t ∷ ts)
    → pop_task (t ∷ ts) ≡ some (t, ts)
unfolding pop_task
pop_none h (one_more m) = rw (none_greater _ h.0 h.1 m) refl

-- two ways to go on after a step
and_then-same :
    {A B C : Type 0} (o : Outcome A) (f : A → B) (g : B → Outcome C) (h : A → Outcome C)
    → ((a : A) → g (f a) ≡ h a)
    → and_then (and_then o λ a. ok (f a)) g ≡ and_then o h
and_then-same (ok a) f g h same = same a
and_then-same (panic e) f g h same = refl

module _ {Net : Type 0} ⦃api : PetriNet Net⦄ (o : Objects) where
  first-link_each :
      (rs : List MutexRef) {ts rest : List PostprocessingTask} {r : MutexRef}
      {t : PostprocessingTask}
      → FirstMutex ts r t rest
      → (n : Net) → link_each o rs ts n ≡ link_each o rs rest n
  unfolding link_each
  first-link_each rs here n = refl
  first-link_each rs (there {i} {a} {b} {w} f) n =
      ap (and_then (link_all o rs i a b w n)) (fun_ext λ (_, n'). first-link_each rs f n')

  first-run_task :
      {ts rest : List PostprocessingTask} {r : MutexRef} {t : PostprocessingTask}
      → FirstMutex ts r t rest
      → (rs : List MutexRef) (n : Net) → run_task o t rs n ≡ ok (rs ++ r ∷ [], n)
  unfolding run_task
  first-run_task here rs n = refl
  first-run_task (there f) rs n = first-run_task f rs n

  NoMutex-run_tasks :
      (rounds : ℕ) {ts : List PostprocessingTask}
      → length ts ≤ rounds
      → All Prioritised ts
      → NoMutex ts
      → (rs : List MutexRef) (n : Net) → run_tasks rounds o ts rs n ≡ link_each o rs ts n
  unfolding run_tasks run_task link_each
  NoMutex-run_tasks zero le h none_left rs n = refl
  NoMutex-run_tasks zero le h (one_more m) rs n = elim le [ ]
  NoMutex-run_tasks (suc k) le h none_left rs n = rw (run_tasks, pop_empty) refl
  NoMutex-run_tasks (suc k) le h (one_more {k = j} {i} {a} {b} {w} {ts} m) rs n =
      let t = link_mutex_to_condvar j i a b w in
      let popped : pop_task (t ∷ ts) ≡ some (t, ts) = pop_none h (one_more m) in
      rw (run_tasks, popped)
        (and_then-same (link_all o rs i a b w n) _ _ _
          (λ (_, n'). NoMutex-run_tasks k (omega arith) h.1 m rs n'))

  -- the round that takes the first mutex
  round :
      (k : ℕ) {ts rest : List PostprocessingTask} {r : MutexRef} {t : PostprocessingTask}
      → FirstMutex ts r t rest
      → All Prioritised ts
      → (rs : List MutexRef) (n : Net)
      → run_tasks (suc k) o ts rs n ≡ run_tasks k o rest (rs ++ r ∷ []) n
  unfolding run_tasks
  round k f h rs n = rw (run_tasks, pop_first h f) (rw (first-run_task f rs n) refl)

  -- emptying the heap, by the calls of `wait` among the tasks
  pub run_tasks-link_each :
      (rounds : ℕ) (ts : List PostprocessingTask)
      → length ts ≤ rounds
      → All Prioritised ts
      → (rs : List MutexRef) (n : Net)
      → run_tasks rounds o ts rs n ≡ link_each o (rs ++ mutexes_of ts) ts n
  run_tasks-link_each zero [] le h rs n =
      NoMutex-run_tasks zero le h none_left rs n
      ∙ rw (NoMutex-mutexes_of none_left, append-nil) refl
  run_tasks-link_each zero (t ∷ ts) le h rs n = elim le [ ]
  run_tasks-link_each (suc k) ts le h rs n = elim (first_mutex ts) [
    | inl none_ ↦
        NoMutex-run_tasks (suc k) le h none_ rs n ∙ rw (NoMutex-mutexes_of none_, append-nil) refl
    | inr (r, t, rest, f) ↦
        let (h', e) = first-Prioritised h f in
        round k f h rs n
        ∙ run_tasks-link_each k rest (omega arith) h' (rs ++ r ∷ []) n
        ∙ sym (rw (first-mutexes_of f) (first-link_each _ f n ∙ rw append_assoc refl))
  ]
