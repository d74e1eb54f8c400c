-- ===== src/Safety/Listed.antt =====
-- The postprocessing tasks list all the mutexes of the program, and have a call of `wait` for each
-- condition variable that is linked to one.
use granite.Common.{
  ℕ, zero, suc, ◌≡◌, refl, ap, ◌∙◌, sym, Bool, true, false, ◌||◌, ◌==◌, Option, none, some, List,
  [], ◌∷◌, arith, length, All, All-map,
}
use granite.PetriNet.{TransitionRef}
use granite.Objects.{MutexRef, Condvar, Objects}
use granite.Function.{PostprocessingTask, link_mutex_to_condvar, new_mutex}
use granite.Translator.Postprocessing.Order.{Prioritised, mutexes_of}

-- the references below `k`, the last one first
abbrev pub down_from : ℕ → List MutexRef
down_from zero = []
down_from (suc k) = k ∷ down_from k

-- one of the tasks is a call of `wait` that starts with this transition
abbrev pub has_wait : TransitionRef → List PostprocessingTask → Bool
has_wait w [] = false
has_wait w (link_mutex_to_condvar k i a b u ∷ ts) = w == u || has_wait w ts
has_wait w (new_mutex k r ∷ ts) = has_wait w ts

-- a condition variable that is linked to a call of `wait` has its task
abbrev pub Registered : List PostprocessingTask → Condvar → Type 0
Registered ts c = c.already_linked_to_call ≡ true → has_wait c.wait_start ts ≡ true

abbrev pub AllRegistered : Objects → List PostprocessingTask → Type 0
AllRegistered o ts = All (Registered ts) o.condvars

-- neither a new mutex nor a new call of `wait`
pub record Keeps (o o' : Objects) : Type 0 where
  pub mutexes : length o'.mutexes ≡ length o.mutexes
  pub waits : (ts : List PostprocessingTask) → AllRegistered o ts → AllRegistered o' ts

pub Keeps-refl : (o : Objects) → Keeps o o
Keeps-refl o = record { mutexes = refl; waits = λ ts h. h }

pub Keeps-trans : {o o' o'' : Objects} → Keeps o o' → Keeps o' o'' → Keeps o o''
Keeps-trans s t = record {
  mutexes = t.mutexes ∙ s.mutexes;
  waits = λ ts h. t.waits ts (s.waits ts h);
}

-- the tasks have the priority of their kind, and bring the mutexes and the calls of `wait`
abbrev pub Listed : Objects → List PostprocessingTask → Type 0
Listed o ts =
    All Prioritised ts × (mutexes_of ts ≡ down_from (length o.mutexes)) × AllRegistered o ts

-- the task of a handler that has changed the objects
abbrev pub Lists : (before after : Objects) → Option PostprocessingTask → Type 0
Lists o o' none = Keeps o o'
Lists o o' (some (link_mutex_to_condvar p i a b w)) =
    (length o'.mutexes ≡ length o.mutexes)
    × (p ≡ 1)
    × ((ts : List PostprocessingTask)
        → has_wait w ts ≡ true
        → AllRegistered o ts
        → AllRegistered o' ts)
Lists o o' (some (new_mutex p r)) =
    (r ≡ length o.mutexes)
    × (length o'.mutexes ≡ suc (length o.mutexes))
    × (p ≡ 2)
    × ((ts : List PostprocessingTask) → AllRegistered o ts → AllRegistered o' ts)

pub Listed-same :
    (o o' : Objects) (ts : List PostprocessingTask) → Keeps o o' → Listed o ts → Listed o' ts
Listed-same o o' ts k h = (h.0, h.1 ∙ ap down_from (sym k.mutexes), k.waits ts h.2)

-- a task more, and what was registered is so still
AllRegistered-push :
    (o : Objects) (p i : ℕ) (a b w : ℕ) (ts : List PostprocessingTask)
    → AllRegistered o ts
    → AllRegistered o (link_mutex_to_condvar p i a b w ∷ ts)
AllRegistered-push o p i a b w ts h =
    All-map (Registered ts) o.condvars (λ c k linked. ground (arith, k linked)) h

-- the task is added to the others
pub Listed-push :
    (o o' : Objects) (t : PostprocessingTask) (ts : List PostprocessingTask)
    → Lists o o' (some t)
    → Listed o ts
    → Listed o' (t ∷ ts)
unfolding mutexes_of
Listed-push o o' (link_mutex_to_condvar p i a b w) ts (e, q, f) h = (
  (q, h.0),
  h.1 ∙ ap down_from (sym e),
  f (link_mutex_to_condvar p i a b w ∷ ts) (ground arith) (AllRegistered-push o p i a b w ts h.2),
)
Listed-push o o' (new_mutex p r) ts (e, f, q, g) h = ((q, h.0), rw (e, f, h.1) refl, g ts h.2)
