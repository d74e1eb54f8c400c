-- ===== src/Translator/Postprocessing/Links.antt =====
-- The postprocessing of src/translator.rs as a list of links, one for each call of `wait` and each
-- mutex: each is one call of `link_to_condvar`.
use granite.Common.{ℕ, ◌≤◌, ◌≡◌, refl, ap, ◌∙◌, sym, List, [], ◌∷◌, ◌++◌, length, All}
use granite.Common.Outcome.{Outcome, ok, panic, Run, and_then, pure, lift, ◌>>=◌, ◌>>◌}
use granite.PetriNet.{PlaceRef, TransitionRef, PetriNet}
use granite.Objects.{MutexRef, Objects, mutex_at}
use granite.Function.{PostprocessingTask, link_mutex_to_condvar, new_mutex}
use granite.Sync.Mutex.{link_to_condvar}
use granite.Translator.Postprocessing.{link_all, run_tasks}
use granite.Translator.Postprocessing.Order.{
  Prioritised, mutexes_of, link_each, run_tasks-link_each,
}

-- a mutex that is linked to a call of `wait`
pub record Link : Type 0 where
  pub mutex : MutexRef
  pub index : ℕ
  pub start_place : PlaceRef
  pub end_place : PlaceRef
  pub wait_start : TransitionRef

-- one call of `wait` with every mutex
abbrev pub links_of_wait :
    ℕ → (start_place end_place : PlaceRef) → TransitionRef → List MutexRef → List Link
links_of_wait i a b w [] = []
links_of_wait i a b w (r ∷ rs) =
    record { mutex = r; index = i; start_place = a; end_place = b; wait_start = w }
    ∷ links_of_wait i a b w rs

-- every call of `wait` among the tasks with every mutex
abbrev pub expected_links : List MutexRef → List PostprocessingTask → List Link
expected_links rs [] = []
expected_links rs (link_mutex_to_condvar k i a b w ∷ ts) =
    links_of_wait i a b w rs ++ expected_links rs ts
expected_links rs (new_mutex k r ∷ ts) = expected_links rs ts

-- two ways to go on after a step
same_rest :
    {A B : Type 0} (x : Outcome A) (f g : A → Outcome B)
    → ((a : A) → f a ≡ g a)
    → and_then x f ≡ and_then x g
same_rest (ok a) f g same = same a
same_rest (panic e) f g same = refl

after :
    {A B C : Type 0} (x : Outcome A) (f : A → Outcome B) (g : B → Outcome C) (h : A → Outcome C)
    → ((a : A) → h a ≡ and_then (f a) g)
    → and_then x h ≡ and_then (and_then x f) g
after (ok a) f g h same = same a
after (panic e) f g h same = refl

module _ {Net : Type 0} ⦃api : PetriNet Net⦄ (o : Objects) where
  -- one `link_to_condvar` for each link
  unfoldable pub make_links : List Link → Run Net (Unit {0})
  make_links [] = pure tt
  make_links (l ∷ ls) = do
    m ← lift (mutex_at l.mutex o)
    link_to_condvar m l.index l.start_place l.end_place l.wait_start
    make_links ls

  make_links-append :
      (xs ys : List Link) (n : Net)
      → make_links (xs ++ ys) n ≡ and_then (make_links xs n) λ (_, n'). make_links ys n'
  unfolding make_links
  make_links-append [] ys n = refl
  make_links-append (l ∷ ls) ys n =
      after (and_then (mutex_at l.mutex o) λ m. ok (m, n)) _ _ _ λ (m, n₀).
        after (link_to_condvar m l.index l.start_place l.end_place l.wait_start n₀) _ _ _
          λ (_, n₁). make_links-append ls ys n₁

  link_all-make_links :
      (rs : List MutexRef) (i : ℕ) (a b : PlaceRef) (w : TransitionRef) (n : Net)
      → link_all o rs i a b w n ≡ make_links (links_of_wait i a b w rs) n
  unfolding link_all make_links
  link_all-make_links [] i a b w n = refl
  link_all-make_links (r ∷ rs) i a b w n =
      same_rest (and_then (mutex_at r o) λ m. ok (m, n)) _ _ λ (m, n₀).
        same_rest (link_to_condvar m i a b w n₀) _ _ λ (_, n₁). link_all-make_links rs i a b w n₁

  link_each-make_links :
      (rs : List MutexRef) (ts : List PostprocessingTask) (n : Net)
      → link_each o rs ts n ≡ make_links (expected_links rs ts) n
  unfolding link_each make_links
  link_each-make_links rs [] n = refl
  link_each-make_links rs (link_mutex_to_condvar k i a b w ∷ ts) n =
      same_rest (link_all o rs i a b w n) _ _ (λ (_, n₁). link_each-make_links rs ts n₁)
      ∙ ap (λ x. and_then x λ (_, n₁). make_links (expected_links rs ts) n₁)
          (link_all-make_links rs i a b w n)
      ∙ sym (make_links-append (links_of_wait i a b w rs) (expected_links rs ts) n)
  link_each-make_links rs (new_mutex k r ∷ ts) n = link_each-make_links rs ts n

  -- With as many rounds as there are tasks, each with the priority of its kind, emptying the heap
  -- is one call of `link_to_condvar` for each call of `wait` among the tasks and each mutex, of
  -- those collected before and those among the tasks: all the mutexes are collected before the
  -- first call of `wait` is linked.
  pub run_tasks-make_links :
      (rounds : ℕ) (ts : List PostprocessingTask)
      → length ts ≤ rounds
      → All Prioritised ts
      → (rs : List MutexRef) (n : Net)
      → run_tasks rounds o ts rs n ≡ make_links (expected_links (rs ++ mutexes_of ts) ts) n
  run_tasks-make_links rounds ts le h rs n =
      run_tasks-link_each o rounds ts le h rs n ∙ link_each-make_links (rs ++ mutexes_of ts) ts n
