-- ===== src/Examples/Exclusion.antt =====
-- A mutex with one lock and one unlock, and a run of its net.
use granite.Common.{◌+◌, ◌≤◌, ◌≡◌, refl, List, [], ◌∷◌, arith}
use granite.Common.Outcome.{Outcome, ok, panic}
use granite.PetriNet
use granite.PetriNet.{TransitionRef}
use granite.PetriNet.Counted.{Counted, counted_net, counted_laws}
use granite.PetriNet.Firing.{Fires, fire_all, firings}
use granite.Objects.{Mutex}
use granite.Sync.Mutex
use granite.Sync.Mutex.Exclusion.{
  MutexUse, locks, unlocks, is_lock, is_unlock, use_mutex, used_mutex, mutual_exclusion,
}
use granite.Examples.Nets.{small_net}

-- the small net with a second transition, 4
abbrev two_transitions : Counted
two_transitions = (counted_net.add_transition "U" small_net).1

abbrev lock_and_unlock : List MutexUse
lock_and_unlock = locks 3 ∷ unlocks 4 ∷ []

-- the mutex stands on the place 5
abbrev new_mutex : Mutex
new_mutex = record { mutex = 5; deref_mut = [] }

abbrev net_of : Outcome (Mutex × Counted) → Counted
net_of (ok (m, n)) = n
net_of (panic e) = small_net

abbrev mutex_net : Counted
mutex_net = net_of (used_mutex 0 lock_and_unlock two_transitions)

-- lock, unlock and lock again
abbrev lock_twice : List TransitionRef
lock_twice = 3 ∷ 4 ∷ 3 ∷ []

mutex_net_lem : used_mutex 0 lock_and_unlock two_transitions ≡ ok (new_mutex, mutex_net)
unfolding used_mutex use_mutex Mutex.new Mutex.add_lock_arc Mutex.add_unlock_arc PetriNet.add_place
    PetriNet.add_token PetriNet.add_arc_place_transition PetriNet.add_arc_transition_place
mutex_net_lem = refl

lock_twice-Fires : Fires mutex_net.seen lock_twice mutex_net.seen.tokens
unfolding used_mutex use_mutex Mutex.new Mutex.add_lock_arc Mutex.add_unlock_arc PetriNet.add_place
    PetriNet.add_token PetriNet.add_arc_place_transition PetriNet.add_arc_transition_place
lock_twice-Fires = (
  record { transition = refl; inputs = λ p. ground arith },
  (
    record { transition = refl; inputs = λ p. ground arith },
    (record { transition = refl; inputs = λ p. ground arith }, tt),
  ),
)

mutual_exclusion_example :
    (1 ≤ firings (is_unlock lock_and_unlock) (4 ∷ []))
    × (fire_all mutex_net.seen lock_twice mutex_net.seen.tokens 5
          + firings (is_lock lock_and_unlock) lock_twice
        ≡ 1 + firings (is_unlock lock_and_unlock) lock_twice)
mutual_exclusion_example =
    mutual_exclusion counted_laws 0 lock_and_unlock two_transitions new_mutex mutex_net [] (4 ∷ [])
      [] 3 3 (refl, (refl, tt)) mutex_net_lem lock_twice-Fires refl refl refl (omega arith)
