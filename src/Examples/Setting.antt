-- ===== src/Examples/Setting.antt =====
-- A mutex whose value one transition sets, linked to a call of `wait`, and a run in which it is set.
use granite.Common.{◌≡◌, refl, List, [], ◌∷◌, arith}
use granite.Common.Outcome.{Outcome, ok, panic}
use granite.PetriNet
use granite.PetriNet.{TransitionRef}
use granite.PetriNet.Counted.{Counted, counted_net, counted_laws}
use granite.PetriNet.Firing.{Fires}
use granite.Sync.Mutex
use granite.Sync.Mutex.Condition.{contains}
use granite.Sync.Mutex.Setting.{SetsOnce, link_to_condvar-SetsOnce}
use granite.Examples.Nets.{small_net, small_mutex}

-- the small net with a second transition, 4, which starts the wait
abbrev waiting_net : Counted
waiting_net = (counted_net.add_transition "U" small_net).1

abbrev net_of : Outcome (Unit {0} × Counted) → Counted
net_of (ok (x, n)) = n
net_of (panic e) = small_net

abbrev condition_net : Counted
condition_net = net_of (Mutex.link_to_condvar small_mutex 0 0 1 4 waiting_net)

condition_net_lem : Mutex.link_to_condvar small_mutex 0 0 1 4 waiting_net ≡ ok (tt, condition_net)
unfolding Mutex.link_to_condvar Mutex.link_transitions Mutex.add_condition Mutex.set_condition
    PetriNet.add_place PetriNet.add_token PetriNet.add_transition PetriNet.connect_places
    PetriNet.add_arc_place_transition PetriNet.add_arc_transition_place
condition_net_lem = refl

-- the wait starts, and then the value is set
abbrev start_and_set : List TransitionRef
start_and_set = 4 ∷ 3 ∷ []

start_and_set-Fires : Fires condition_net.seen start_and_set condition_net.seen.tokens
unfolding Mutex.link_to_condvar Mutex.link_transitions Mutex.add_condition Mutex.set_condition
    PetriNet.add_place PetriNet.add_token PetriNet.add_transition PetriNet.connect_places
    PetriNet.add_arc_place_transition PetriNet.add_arc_transition_place
start_and_set-Fires = (
  record { transition = refl; inputs = λ p. ground arith },
  (record { transition = refl; inputs = λ p. ground arith }, tt),
)

link_to_condvar-SetsOnce_example :
    SetsOnce waiting_net.seen condition_net.seen 0 1 (3 ∷ []) start_and_set 4
unfolding contains
link_to_condvar-SetsOnce_example =
    link_to_condvar-SetsOnce counted_laws 2 3 [] 0 0 1 4 waiting_net condition_net start_and_set
      refl refl refl (refl, tt) refl condition_net_lem start_and_set-Fires
