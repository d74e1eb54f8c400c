-- ===== src/Sync/Condvar/Call.antt =====
-- The call of `wait` of src/translator/sync/condvar.rs on the net, the memory and the objects.
use granite.Common.{ℕ, String, ◌≡◌, refl, ap, ◌∙◌, true, some, List, get_elem?, get_elem?-set_self}
use granite.Common.Outcome.Returns.{Returns, returns, result}
use granite.PetriNet.{PlaceRef, PetriNet}
use granite.PetriNet.View.{Laws}
use granite.PetriNet.Grows.{PlaceIn, TransitionIn}
use granite.Mir.{Place, place_eq_refl, Operand}
use granite.Utils.{extract_nth_argument_as_place}
use granite.Objects.{Mutex, Condvar, Guard, mutex_guard, condvar, condvar_at, set_condvar}
use granite.Memory.{get_condvar, get_mutex_guard, get_linked_value, link_place_to_same_value}
use granite.Memory.Map.{get, get-insert}
use granite.Function.{
  Places, ignore_cleanup_place, get_start_end_place, PostprocessingTask, link_mutex_to_condvar,
  link_mutex_to_condvar_task,
}
use granite.Context.{Context}
use granite.Sync.Condvar.{call_wait}
use granite.Sync.Condvar.Wait.{WaitsOn, waiting, link_to_wait_call-waiting}

-- The two arguments of the call: a place that is linked to the condvar `r`, which is `cv`, and one
-- that is linked to the guard `g` of the mutex `m`.
pub record WaitArguments {Net : Type 0} (args : List Operand) (c : Context Net) (p q : Place)
    (r : ℕ) (cv : Condvar) (g : Guard) (m : Mutex) : Type 0 where
  pub self_argument : extract_nth_argument_as_place args 0 ≡ some p
  pub guard_argument : extract_nth_argument_as_place args 1 ≡ some q
  pub condvar_linked : get p c.store.memory.map ≡ some (condvar r)
  pub guard_linked : get q c.store.memory.map ≡ some (mutex_guard g)
  pub waits_on : WaitsOn c r cv g m

module _ {Net : Type 0} ⦃api : PetriNet Net⦄ (L : Laws Net) where
  open L use {view}

  abbrev pub Waited :
      Context Net
      → ℕ
      → (s e : PlaceRef) → (destination : Place) → ℕ
      → Condvar
      → Guard
      → Mutex
      → PostprocessingTask × Context Net
      → Type 0
  Waited c i s e destination r cv g m (task, c') =
      (task ≡ link_mutex_to_condvar 1 i s e cv.wait_start)
      × (view c'.net ≡ waiting L cv m s e (view c.net))
      × (get destination c'.store.memory.map ≡ some (mutex_guard g))
      × (c'.store.objects
          ≡ set_condvar r (record cv { already_linked_to_call = true }) c.store.objects)

  basic-Waited :
      (f : String) (i : ℕ) (args : List Operand) (d : Place) (s e : PlaceRef) (c : Context Net)
      (p q : Place) (r : ℕ) (cv : Condvar) (g : Guard) (m : Mutex)
      → WaitArguments args c p q r cv g m
      → PlaceIn (view c.net) s
      → PlaceIn (view c.net) e
      → PlaceIn (view c.net) m.mutex
      → TransitionIn (view c.net) cv.wait_start
      → TransitionIn (view c.net) cv.notify_received
      → Returns (Waited c i s e d r cv g m) (call_wait f i args d (Places.basic s e) c)
  unfolding call_wait ignore_cleanup_place get_start_end_place get_condvar get_mutex_guard
      get_linked_value condvar_at set_condvar link_place_to_same_value link_mutex_to_condvar_task
  basic-Waited f i args d s e c p q r cv g m a hs he hm hw hn =
      let ((_, c₁), e₁, (v₁, store₁, _)) =
        result (link_to_wait_call-waiting L r s e g c cv m a.waits_on hs he hm hw hn) in
      let objects₁ = ap (λ t. t.objects) store₁ in
      let linked = ap (λ t. get q t.memory.map) store₁ ∙ a.guard_linked in
      let marked = get_elem?-set_self c.store.objects.condvars r _ cv a.waits_on.condvar_object in
      let object = ap (λ o. get_elem? o.condvars r) objects₁ ∙ marked in
      rw (a.self_argument, a.condvar_linked, a.guard_argument, a.guard_linked, e₁, object, linked)
        (returns (refl, v₁, rw (get-insert, place_eq_refl) refl, objects₁))

  -- The first call of `wait` on a condvar does not panic, if its arguments are linked to the condvar
  -- and to a guard, and the places and transitions are in the net. It adds the four arcs of the wait
  -- between the start and the end of the call, whether or not there is a cleanup place, links the
  -- destination to the same guard, marks the condvar as linked, and gives the task that links the
  -- mutexes of the program to these two places and the start of the wait.
  pub call_wait-Waited :
      (f : String) (i : ℕ) (args : List Operand) (d : Place) (places : Places) (c : Context Net)
      (p q : Place) (r : ℕ) (cv : Condvar) (g : Guard) (m : Mutex)
      → WaitArguments args c p q r cv g m
      → PlaceIn (view c.net) (get_start_end_place places).0
      → PlaceIn (view c.net) (get_start_end_place places).1
      → PlaceIn (view c.net) m.mutex
      → TransitionIn (view c.net) cv.wait_start
      → TransitionIn (view c.net) cv.notify_received
      → Returns
          (Waited c i (get_start_end_place places).0 (get_start_end_place places).1 d r cv g m)
          (call_wait f i args d places c)
  unfolding call_wait get_start_end_place ignore_cleanup_place
  call_wait-Waited f i args d (Places.basic s e) c p q r cv g m =
      basic-Waited f i args d s e c p q r cv g m
  call_wait-Waited f i args d (Places.with_cleanup s e u) c p q r cv g m =
      basic-Waited f i args d s e c p q r cv g m
