-- ===== src/Safety/Memory.antt =====
-- The memory of a function: what is read points to objects, and what is written keeps that.
use granite.Common.{
  ℕ, zero, suc, ◌<◌, ◌≡◌, refl, some, List, [], ◌∷◌, arith, length, get_elem?, get_elem?_total, All,
  All-get_elem?, inl, inr, Bool-cases,
}
use granite.Common.Outcome.{dangling, not_linked, no_field, argument_not_a_place, expect}
use granite.Common.Outcome.Safe
use granite.Common.Outcome.Safe.{Safe, panics, of_expect, via, last}
use granite.Mir.{Place, Operand, place_eq}
use granite.Utils.{extract_nth_argument_as_place}
use granite.Objects.{Value, aggregate, ValueVec, nil, cons, Objects}
use granite.Objects.Values.{
  unpack_mutex, unpack_mutex_guard, unpack_join_handle, unpack_condvar, unpack_aggregate,
  get_value?,
}
use granite.Memory.{
  Memory, get_linked_value, get_mutex, get_mutex_guard, get_join_handle, get_condvar,
  copy_aggregate, linked_values, insert_new, link_aggregate, link_place_to_same_value,
  create_aggregate, link_field_in_aggregate,
}
use granite.Memory.Map.{PlaceMap, get, insert, contains_key}
use granite.Safety.World.{
  ValueIn, mutex_in, guard_in, handle_in, condvar_in, aggregate_in, ValuesIn, nil_in, cons_in,
  MapIn,
}

pub argument-Safe :
    (args : List Operand) (i : ℕ)
    → Safe (λ p. Unit {0}) (expect argument_not_a_place (extract_nth_argument_as_place args i))
argument-Safe args i = of_expect argument_not_a_place _ refl λ p e. tt

module _ {A : Type 0} (P : A → Type 0) where
  -- following a reference that is within bounds
  pub at-Safe :
      (xs : List A) (r : ℕ) → r < length xs → All P xs → Safe P (expect dangling (get_elem? xs r))
  at-Safe xs r h all =
      let (x, e) = get_elem?_total xs r h in rw e (Safe.returns (All-get_elem? P xs r all e))

module _ (o : Objects) where
  get-ValueIn : (p : Place) (m : PlaceMap) {v : Value} → MapIn o m → get p m ≡ some v → ValueIn o v
  unfolding get
  get-ValueIn p [] h e = cc
  get-ValueIn p ((j, w) ∷ m) {v} h e = elim (Bool-cases (place_eq j p)) [
    | inl hit ↦ entry (rw hit at e)
    | inr miss ↦ get-ValueIn p m h.1 (rw miss at e)
  ]
    where
      entry : some w ≡ some v → ValueIn o v
      entry q = ground (arith, h.0)

  pub insert-MapIn :
      (p : Place) (v : Value) (m : PlaceMap) → MapIn o m → ValueIn o v → MapIn o (insert p v m)
  unfolding insert
  insert-MapIn p v [] h k = (k, tt)
  insert-MapIn p v ((j, w) ∷ m) h k = elim (Bool-cases (place_eq j p)) [
    | inl hit ↦ rw hit (k, h.1)
    | inr miss ↦ rw miss (h.0, insert-MapIn p v m h.1 k)
  ]

  unpack_mutex-Safe : {v : Value} → ValueIn o v → Safe (λ r. r < length o.mutexes) (unpack_mutex v)
  unpack_mutex-Safe (mutex_in h) = Safe.returns h
  unpack_mutex-Safe (guard_in h) = panics refl
  unpack_mutex-Safe (handle_in h) = panics refl
  unpack_mutex-Safe (condvar_in h) = panics refl
  unpack_mutex-Safe (aggregate_in h) = panics refl

  unpack_mutex_guard-Safe :
      {v : Value} → ValueIn o v → Safe (λ g. g.mutex < length o.mutexes) (unpack_mutex_guard v)
  unpack_mutex_guard-Safe (mutex_in h) = panics refl
  unpack_mutex_guard-Safe (guard_in h) = Safe.returns h
  unpack_mutex_guard-Safe (handle_in h) = panics refl
  unpack_mutex_guard-Safe (condvar_in h) = panics refl
  unpack_mutex_guard-Safe (aggregate_in h) = panics refl

  unpack_join_handle-Safe :
      {v : Value} → ValueIn o v → Safe (λ r. r < length o.threads) (unpack_join_handle v)
  unpack_join_handle-Safe (mutex_in h) = panics refl
  unpack_join_handle-Safe (guard_in h) = panics refl
  unpack_join_handle-Safe (handle_in h) = Safe.returns h
  unpack_join_handle-Safe (condvar_in h) = panics refl
  unpack_join_handle-Safe (aggregate_in h) = panics refl

  unpack_condvar-Safe :
      {v : Value} → ValueIn o v → Safe (λ r. r < length o.condvars) (unpack_condvar v)
  unpack_condvar-Safe (mutex_in h) = panics refl
  unpack_condvar-Safe (guard_in h) = panics refl
  unpack_condvar-Safe (handle_in h) = panics refl
  unpack_condvar-Safe (condvar_in h) = Safe.returns h
  unpack_condvar-Safe (aggregate_in h) = panics refl

  unpack_aggregate-Safe : {v : Value} → ValueIn o v → Safe (ValuesIn o) (unpack_aggregate v)
  unpack_aggregate-Safe (mutex_in h) = panics refl
  unpack_aggregate-Safe (guard_in h) = panics refl
  unpack_aggregate-Safe (handle_in h) = panics refl
  unpack_aggregate-Safe (condvar_in h) = panics refl
  unpack_aggregate-Safe (aggregate_in h) = Safe.returns h

  module _ (p : Place) (m : Memory) (h : MapIn o m.map) where
    pub get_linked_value-Safe : Safe (ValueIn o) (get_linked_value p m)
    unfolding get_linked_value
    get_linked_value-Safe = of_expect not_linked _ refl λ v e. get-ValueIn p m.map h e

    pub get_mutex-Safe : Safe (λ r. r < length o.mutexes) (get_mutex p m)
    unfolding get_mutex
    get_mutex-Safe = Safe.bind get_linked_value-Safe λ v k. unpack_mutex-Safe k

    pub get_mutex_guard-Safe : Safe (λ g. g.mutex < length o.mutexes) (get_mutex_guard p m)
    unfolding get_mutex_guard
    get_mutex_guard-Safe = Safe.bind get_linked_value-Safe λ v k. unpack_mutex_guard-Safe k

    pub get_join_handle-Safe : Safe (λ r. r < length o.threads) (get_join_handle p m)
    unfolding get_join_handle
    get_join_handle-Safe = Safe.bind get_linked_value-Safe λ v k. unpack_join_handle-Safe k

    pub get_condvar-Safe : Safe (λ r. r < length o.condvars) (get_condvar p m)
    unfolding get_condvar
    get_condvar-Safe = Safe.bind get_linked_value-Safe λ v k. unpack_condvar-Safe k

    pub copy_aggregate-Safe : Safe (ValuesIn o) (copy_aggregate p m)
    unfolding copy_aggregate
    copy_aggregate-Safe = Safe.bind get_linked_value-Safe λ v k. unpack_aggregate-Safe k

  linked_values-Safe :
      (ps : List Place) (m : Memory) → MapIn o m.map → Safe (ValuesIn o) (linked_values ps m)
  unfolding linked_values
  linked_values-Safe [] m h = Safe.returns nil_in
  linked_values-Safe (p ∷ ps) m h =
      Safe.bind (get_linked_value-Safe p m h)
        λ v k. Safe.bind (linked_values-Safe ps m h) λ vs ks. Safe.returns (cons_in k ks)

  get_value?-ValueIn :
      (vs : ValueVec) (i : ℕ) {v : Value} → ValuesIn o vs → get_value? vs i ≡ some v → ValueIn o v
  unfolding get_value?
  get_value?-ValueIn nil i nil_in e = cc
  get_value?-ValueIn (cons w vs) zero (cons_in h k) e = ground (arith, h)
  get_value?-ValueIn (cons w vs) (suc i) (cons_in h k) e = get_value?-ValueIn vs i k e

  -- memory stays inside, whatever is linked
  abbrev pub MemoryIn : Unit {0} × Memory → Type 0
  MemoryIn (_, m) = MapIn o m.map

  insert_new-Safe :
      (p : Place) (v : Value) (m : Memory)
      → MapIn o m.map
      → ValueIn o v
      → Safe MemoryIn (insert_new p v m)
  unfolding insert_new
  insert_new-Safe p v m h k = elim (Bool-cases (contains_key p m.map)) [
    | inl old ↦ rw old (panics refl)
    | inr new ↦ rw new (Safe.returns (insert-MapIn p v m.map h k))
  ]

  pub link_aggregate-Safe :
      (p : Place) (vs : ValueVec) (m : Memory)
      → MapIn o m.map
      → ValuesIn o vs
      → Safe MemoryIn (link_aggregate p vs m)
  unfolding link_aggregate
  link_aggregate-Safe p vs m h k = insert_new-Safe p (aggregate vs) m h (aggregate_in k)

  pub link_place_to_same_value-Safe :
      (p q : Place) (m : Memory) → MapIn o m.map → Safe MemoryIn (link_place_to_same_value p q m)
  unfolding link_place_to_same_value
  link_place_to_same_value-Safe p q m h =
      Safe.bind (get_linked_value-Safe q m h) λ v k. Safe.returns (insert-MapIn p v m.map h k)

  pub create_aggregate-Safe :
      (p : Place) (ps : List Place) (m : Memory)
      → MapIn o m.map
      → Safe MemoryIn (create_aggregate p ps m)
  unfolding create_aggregate
  create_aggregate-Safe p ps m h =
      Safe.bind (linked_values-Safe ps m h) λ vs k. link_aggregate-Safe p vs m h k

  pub link_field_in_aggregate-Safe :
      (p q : Place) (i : ℕ) (m : Memory)
      → MapIn o m.map
      → Safe MemoryIn (link_field_in_aggregate p q i m)
  unfolding link_field_in_aggregate
  link_field_in_aggregate-Safe p q i m h = Safe.bind (copy_aggregate-Safe q m h) λ vs k.
      Safe.bind (of_expect no_field (get_value? vs i) refl λ v e. get_value?-ValueIn vs i k e)
        λ v kv. insert_new-Safe p v m h kv
