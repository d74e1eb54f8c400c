-- ===== src/Memory/Aliases.antt =====
-- Two places with one value see one object: the aliasing of src/translator/mir_function/memory.rs
-- with the objects behind its `Rc` pointers.
use granite.Common.{
  ◌≡◌, ◌≢◌, refl, Bool-cases, false, some, [], ◌∷◌, ◌++◌, get_elem?, inl, inr, get_elem?-set_self,
  get_elem?-set_other,
}
use granite.Common.Outcome.{ok}
use granite.Common.Outcome.Returns.{Returns, returns}
use granite.PetriNet.{TransitionRef}
use granite.Mir.{Place, place_eq, place_eq_refl}
use granite.Objects.{MutexRef, Mutex, mutex_guard, Objects, mutex_at, set_mutex}
use granite.Memory.{Memory, Store, get_linked_value, link_place_to_same_value, get_mutex_guard}
use granite.Memory.Map.{get, get-insert}
use granite.Sync.Mutex.{add_deref_mut_transition}

-- The transition is noted in the mutex `m`, and the other mutexes stay.
abbrev pub Noted : MutexRef → Mutex → TransitionRef → Objects → Objects → Type 0
Noted r m t o o' =
    (mutex_at r o' ≡ ok (record m { deref_mut = m.deref_mut ++ t ∷ [] }))
    × ((other : MutexRef) → r ≢ other → mutex_at other o' ≡ mutex_at other o)

-- the transition of `deref_mut`, noted through the place `p`
abbrev pub NotesThrough : Place → MutexRef → Mutex → TransitionRef → Objects → Memory → Type 0
NotesThrough p r m t o memory =
    (get_mutex_guard p memory ≡ ok (record { mutex = r }))
    × Returns (λ (_, o'). Noted r m t o o') (add_deref_mut_transition r t o)

add_deref_mut-Noted :
    (r : MutexRef) (m : Mutex) (t : TransitionRef) (o : Objects)
    → get_elem? o.mutexes r ≡ some m
    → Returns (λ (_, o'). Noted r m t o o') (add_deref_mut_transition r t o)
unfolding add_deref_mut_transition mutex_at set_mutex
add_deref_mut-Noted r m t o object = rw object (
    returns (
      rw (get_elem?-set_self o.mutexes r _ m object) refl,
      λ other apart. rw (get_elem?-set_other o.mutexes r other _ apart) refl,
    ))

-- Linking a place to the guard that another place holds does not panic. Both places then hold a
-- guard of the same mutex, and no third place changes. A transition that is noted through either of
-- them is noted in this one mutex, and in no other.
pub link_place_to_same_value-shares :
    (new old : Place) (s : Store) (r : MutexRef) (m : Mutex) (t : TransitionRef)
    → get old s.memory.map ≡ some (mutex_guard (record { mutex = r }))
    → get_elem? s.objects.mutexes r ≡ some m
    → Returns
        (λ (_, memory).
          NotesThrough new r m t s.objects memory
          × NotesThrough old r m t s.objects memory
          × ((other : Place)
              → place_eq new other ≡ false
              → get other memory.map ≡ get other s.memory.map))
        (link_place_to_same_value new old s.memory)
unfolding link_place_to_same_value get_mutex_guard get_linked_value
link_place_to_same_value-shares new old s r m t linked object =
    let noted = add_deref_mut-Noted r m t s.objects object in
    rw linked (
      returns (
        (rw (get-insert, place_eq_refl) refl, noted),
        (
          elim (Bool-cases (place_eq new old)) [
            | inl e ↦ rw (get-insert, e) refl
            | inr e ↦ rw (get-insert, e, linked) refl
          ],
          noted,
        ),
        λ other e. rw (get-insert, e) refl,
      ))
