-- ===== src/Examples/Wake.antt =====
-- A condition variable with one notifier, and a run of its net in which nothing waits.
use granite.Common.{◌+◌, ◌≤◌, ◌≡◌, ◌↔◌, refl, List, [], ◌∷◌, ◌==◌, false, arith}
use granite.Common.Outcome.{Outcome, ok, panic}
use granite.Common.Outcome.Returns.{Returns}
use granite.PetriNet
use granite.PetriNet.{TransitionRef}
use granite.PetriNet.Counted.{Counted, counted_net, counted_laws}
use granite.PetriNet.Firing.{Marking, Enabled, Fires, firings}
use granite.Objects.{Condvar}
use granite.Context.{Context}
use granite.Sync.Condvar
use granite.Sync.Condvar.Wait.{WaitsOn}
use granite.Sync.Condvar.Wake.{
  is_notifier, link_notifiers, notified_condvar, notified_condvar_lem, wake_without_wait,
}
use granite.Examples.Nets.{small_net, small_mutex, small_context}

abbrev net_of : Outcome (Condvar × Counted) → Counted
net_of (ok (c, n)) = n
net_of (panic e) = small_net

abbrev condvar_net : Counted
condvar_net = net_of (notified_condvar 0 (3 ∷ []) small_net)

abbrev new_condvar : Condvar
new_condvar = record {
  wait_start = 6;
  notify = 5;
  notify_received = 8;
  already_linked_to_call = false;
}

-- a notification, which is received although nothing waits
abbrev notify_and_receive : List TransitionRef
notify_and_receive = 3 ∷ 8 ∷ []

condvar_net_lem : notified_condvar 0 (3 ∷ []) small_net ≡ ok (new_condvar, condvar_net)
unfolding notified_condvar link_notifiers Condvar.new Condvar.link_to_notify_one_call
    PetriNet.add_place PetriNet.add_transition PetriNet.add_token PetriNet.add_arc_place_transition
    PetriNet.add_arc_transition_place
condvar_net_lem = refl

notify_and_receive-Fires : Fires condvar_net.seen notify_and_receive condvar_net.seen.tokens
unfolding notified_condvar link_notifiers Condvar.new Condvar.link_to_notify_one_call
    PetriNet.add_place PetriNet.add_transition PetriNet.add_token PetriNet.add_arc_place_transition
    PetriNet.add_arc_transition_place
notify_and_receive-Fires = (
  record { transition = refl; inputs = λ p. ground arith },
  (record { transition = refl; inputs = λ p. ground arith }, tt),
)

notified_condvar_lem_example :
    (firings (λ t. t == 8) notify_and_receive ≤ firings (is_notifier (3 ∷ [])) notify_and_receive)
    × (firings (λ t. t == 6) notify_and_receive ≤ 1 + firings (λ t. t == 8) notify_and_receive)
notified_condvar_lem_example =
    notified_condvar_lem counted_laws 0 (3 ∷ []) small_net new_condvar condvar_net
      notify_and_receive (refl, tt) condvar_net_lem notify_and_receive-Fires

-- the caller of `wait`, with the mutex and the condition variable
abbrev waiting_context : Context Counted
waiting_context = record {
  net = condvar_net;
  store = record (small_context.store) {
    objects = record (small_context.store.objects) { condvars = new_condvar ∷ [] };
  };
}

waits_on : WaitsOn waiting_context 0 new_condvar (record { mutex = 0 }) small_mutex
waits_on = record { condvar_object = refl; mutex_object = refl; first_call = refl }

wake_without_wait_example :
    Returns
      (λ (_, c').
        (marking : Marking) → Enabled c'.net.seen 8 marking ↔ ((1 ≤ marking 5) × (1 ≤ marking 2)))
      (Condvar.link_to_wait_call 0 0 1 (record { mutex = 0 }) waiting_context)
unfolding notified_condvar link_notifiers Condvar.new Condvar.link_to_notify_one_call
    PetriNet.add_place PetriNet.add_transition PetriNet.add_token PetriNet.add_arc_place_transition
    PetriNet.add_arc_transition_place
wake_without_wait_example =
    wake_without_wait counted_laws 0 0 1 (record { mutex = 0 }) waiting_context new_condvar
      small_mutex waits_on refl refl refl refl refl (λ p. ground arith) refl
