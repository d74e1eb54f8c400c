-- ===== src/Sync/Mutex/Lock.antt =====
-- Locking a mutex and dropping its guard: src/translator/sync/mutex.rs on the net and the memory.
use granite.Common.{ℕ, String, ◌≡◌, refl, ap, ◌∙◌, false, some, List, get_elem?, ==_refl}
use granite.Common.Outcome.Returns.{Returns, returns, result}
use granite.PetriNet.{PlaceRef, TransitionRef, PetriNet}
use granite.PetriNet.View.{Laws, with_input, with_output}
use granite.PetriNet.Grows.{PlaceIn, TransitionIn}
use granite.PetriNet.Operations.{connected, connect_places_lem, add_input_lem, add_output_lem}
use granite.Mir.{Place, place_eq_refl, Operand}
use granite.Utils.{extract_nth_argument_as_place}
use granite.Objects.{Mutex, mutex, mutex_guard, mutex_at}
use granite.Memory.{
  get_mutex, get_mutex_guard, get_linked_value, is_mutex_guard, is_guard, insert_value,
  link_mutex_guard,
}
use granite.Naming.Function.{foreign_call_transition_labels}
use granite.Memory.Map.{get, get-insert}
use granite.Function.{Places, ignore_cleanup_place, get_start_end_place, get_default}
use granite.SpecialFunction.{call_foreign_function}
use granite.Context.{Context}
use granite.Sync.Mutex.{
  call_lock, add_lock_arc, drop_guard, add_unlock_arc, handle_mutex_guard_drop,
}

-- `self` of a method call is the place `p`, which is linked to the mutex `r`, which is `m`
pub record SelfIsMutex {Net : Type 0} (args : List Operand) (c : Context Net) (p : Place) (r : ℕ)
    (m : Mutex) : Type 0 where
  pub argument : extract_nth_argument_as_place args 0 ≡ some p
  pub linked : get p c.store.memory.map ≡ some (mutex r)
  pub object : get_elem? c.store.objects.mutexes r ≡ some m

module _ {Net : Type 0} ⦃api : PetriNet Net⦄ (L : Laws Net) where
  open L use {view}

  abbrev pub Locked :
      Context Net
      → (s e : PlaceRef) → (destination : Place) → ℕ
      → Mutex
      → Unit {0} × Context Net
      → Type 0
  Locked c s e destination r m (_, c') =
      (t : TransitionRef) × ((view c.net).is_transition t ≡ false)
      × (view c'.net ≡ with_input t m.mutex (connected s e t (view c.net)))
      × (get destination c'.store.memory.map ≡ some (mutex_guard (record { mutex = r })))
      × (c'.store.objects ≡ c.store.objects)

  lock_between :
      (f : String) (i : ℕ) (args : List Operand) (d : Place) (s e : PlaceRef) (c : Context Net)
      (p : Place) (r : ℕ) (m : Mutex)
      → SelfIsMutex args c p r m
      → PlaceIn (view c.net) s
      → PlaceIn (view c.net) e
      → PlaceIn (view c.net) m.mutex
      → Returns (Locked c s e d r m) (call_lock f i args d (Places.basic s e) c)
  unfolding call_lock call_foreign_function get_default get_mutex ignore_cleanup_place
      get_linked_value mutex_at add_lock_arc link_mutex_guard insert_value
  lock_between f i args d s e c p r m self hs he hm =
      let ((t, n₁), e₁, (fresh, v₁)) =
        result (connect_places_lem L s e (foreign_call_transition_labels f i).0 c.net hs he) in
      let ((_, n₂), e₂, v₂) =
        result (add_input_lem L m.mutex t n₁ (rw v₁ hm) (rw (v₁, ==_refl) refl)) in
      rw (e₁, self.argument, self.linked, self.object, e₂)
        (returns (
          t,
          fresh,
          v₂ ∙ ap (with_input t m.mutex) v₁,
          get-insert d d _ c.store.memory.map ∙ rw (place_eq_refl d) refl,
          refl,
        ))

  -- Locking a mutex with `lock` does not panic when the argument is linked to a mutex, and the start,
  -- the end and the mutex are places of the net. Whether or
  -- not the call has a cleanup place, it adds one new transition, from the start to the end of the
  -- call, that also takes the token of the mutex; the destination is linked to a guard of this
  -- mutex, and no object changes.
  pub call_lock-Locked :
      (f : String) (i : ℕ) (args : List Operand) (d : Place) (places : Places) (c : Context Net)
      (p : Place) (r : ℕ) (m : Mutex)
      → SelfIsMutex args c p r m
      → PlaceIn (view c.net) (get_start_end_place places).0
      → PlaceIn (view c.net) (get_start_end_place places).1
      → PlaceIn (view c.net) m.mutex
      → Returns
          (Locked c (get_start_end_place places).0 (get_start_end_place places).1 d r m)
          (call_lock f i args d places c)
  unfolding call_lock get_start_end_place ignore_cleanup_place
  call_lock-Locked f i args d (Places.basic s e) c p r m = lock_between f i args d s e c p r m
  call_lock-Locked f i args d (Places.with_cleanup s e u) c p r m =
      lock_between f i args d s e c p r m

  -- Dropping a place that is linked to a guard does not panic, if the transition and the mutex of the
  -- guard are in the net: the transition of the drop gives the
  -- token back to the guard's mutex, and neither the memory nor an object changes.
  pub handle_mutex_guard_drop-unlocks :
      (p : Place) (t : TransitionRef) (c : Context Net) (r : ℕ) (m : Mutex)
      → get p c.store.memory.map ≡ some (mutex_guard (record { mutex = r }))
      → get_elem? c.store.objects.mutexes r ≡ some m
      → TransitionIn (view c.net) t
      → PlaceIn (view c.net) m.mutex
      → Returns
          (λ (_, c'). (view c'.net ≡ with_output t m.mutex (view c.net)) × (c'.store ≡ c.store))
          (handle_mutex_guard_drop p t c)
  unfolding handle_mutex_guard_drop drop_guard add_unlock_arc is_mutex_guard is_guard
      get_mutex_guard get_linked_value mutex_at
  handle_mutex_guard_drop-unlocks p t c r m linked object ht hm =
      let ((_, n₁), e₁, v₁) = result (add_output_lem L t m.mutex c.net ht hm) in
      rw (linked, object, e₁) (returns (v₁, refl))
