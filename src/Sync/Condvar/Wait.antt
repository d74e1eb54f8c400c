-- ===== src/Sync/Condvar/Wait.antt =====
-- The one call of `wait` of a condition variable: src/translator/sync/condvar.rs.
use granite.Common.{ℕ, ◌≡◌, refl, ap, ◌∙◌, true, false, some, get_elem?, get_elem?-set_self}
use granite.Common.Outcome.{panic, multiple_waits}
use granite.Common.Outcome.Returns.{Returns, returns, result}
use granite.PetriNet.{PlaceRef, PetriNet}
use granite.PetriNet.View.{View, Laws, with_input, with_output}
use granite.PetriNet.Grows.{PlaceIn, TransitionIn}
use granite.PetriNet.Operations.{add_input_lem, add_output_lem}
use granite.Objects.{Mutex, Condvar, Guard, mutex_at, condvar_at, set_condvar}
use granite.Context.{Context}
use granite.Sync.Mutex.{add_lock_arc, add_unlock_arc}
use granite.Sync.Condvar.{add_wait_arcs, link_to_wait_call}

-- the condvar and the mutex of a call of `wait`
pub record WaitsOn {Net : Type 0} (c : Context Net) (r : ℕ) (cv : Condvar) (g : Guard) (m : Mutex)
    : Type 0 where
  pub condvar_object : get_elem? c.store.objects.condvars r ≡ some cv
  pub mutex_object : get_elem? c.store.objects.mutexes g.mutex ≡ some m
  pub first_call : cv.already_linked_to_call ≡ false

module _ {Net : Type 0} ⦃api : PetriNet Net⦄ (L : Laws Net) where
  open L use {view}

  -- the four arcs of a wait
  abbrev pub waiting : Condvar → Mutex → (start_place end_place : PlaceRef) → View → View
  waiting cv m s e v = with_input cv.notify_received m.mutex (
      with_output cv.wait_start m.mutex
        (with_output cv.notify_received e (with_input cv.wait_start s v)))

  second_call :
      (r : ℕ) (c : Context Net) (cv : Condvar) (s e : PlaceRef) (g : Guard)
      → get_elem? c.store.objects.condvars r ≡ some cv
      → cv.already_linked_to_call ≡ true
      → link_to_wait_call r s e g c ≡ panic multiple_waits
  unfolding link_to_wait_call condvar_at
  second_call r c cv s e g object linked = rw (object, linked) refl

  -- The first call of `wait` on a condvar does not panic, if its places and transitions and the
  -- mutex are in the net: the wait starts from the start place and unlocks the mutex, what receives
  -- the notification leads to the end place and locks the mutex again, and nothing else is added.
  -- The memory stays, and the condvar is marked as linked.
  -- Every later call on the same condvar panics.
  pub link_to_wait_call-waiting :
      (r : ℕ) (s e : PlaceRef) (g : Guard) (c : Context Net) (cv : Condvar) (m : Mutex)
      → WaitsOn c r cv g m
      → PlaceIn (view c.net) s
      → PlaceIn (view c.net) e
      → PlaceIn (view c.net) m.mutex
      → TransitionIn (view c.net) cv.wait_start
      → TransitionIn (view c.net) cv.notify_received
      → Returns
          (λ (_, c').
            (view c'.net ≡ waiting cv m s e (view c.net))
            × (c'.store ≡ record (c.store) {
              objects = set_condvar r (record cv { already_linked_to_call = true }) c.store.objects;
            })
            × ((s' e' : PlaceRef) (g' : Guard)
                → link_to_wait_call r s' e' g' c' ≡ panic multiple_waits))
          (link_to_wait_call r s e g c)
  unfolding link_to_wait_call add_wait_arcs add_lock_arc add_unlock_arc condvar_at mutex_at
      set_condvar
  link_to_wait_call-waiting r s e g c cv m w hs he hm hw hn =
      let ((_, n₁), e₁, v₁) = result (add_input_lem L s cv.wait_start c.net hs hw) in
      let ((_, n₂), e₂, v₂) =
        result (add_output_lem L cv.notify_received e n₁ (rw v₁ hn) (rw v₁ he)) in
      let u₂ = v₂ ∙ ap (with_output cv.notify_received e) v₁ in
      let ((_, n₃), e₃, v₃) =
        result (add_output_lem L cv.wait_start m.mutex n₂ (rw u₂ hw) (rw u₂ hm)) in
      let u₃ = v₃ ∙ ap (with_output cv.wait_start m.mutex) u₂ in
      let ((_, n₄), e₄, v₄) =
        result (add_input_lem L m.mutex cv.notify_received n₃ (rw u₃ hm) (rw u₃ hn)) in
      rw (w.condvar_object, w.first_call, e₁, e₂, w.mutex_object, e₃, e₄)
        (returns (
          v₄ ∙ ap (with_input cv.notify_received m.mutex) u₃,
          refl,
          λ s' e' g'.
              second_call r _ _ s' e' g'
                (get_elem?-set_self c.store.objects.condvars r _ cv w.condvar_object) refl,
        ))
