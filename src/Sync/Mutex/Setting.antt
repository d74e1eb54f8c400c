-- ===== src/Sync/Mutex/Setting.antt =====
-- How the condition of a condition variable runs: `link_to_condvar` of src/translator/sync/mutex.rs.
use granite.Common.{ℕ, ◌+◌, ◌≤◌, ◌≡◌, false, ◌||◌, List, ◌∷◌, ◌==◌, arith, All}
use granite.Common.Outcome.{ok}
use granite.Common.Outcome.Returns.{of_result}
use granite.PetriNet.{PlaceRef, TransitionRef, PetriNet}
use granite.PetriNet.View.{View, Laws}
use granite.PetriNet.Grows.{PlaceIn, TransitionIn}
use granite.PetriNet.Firing.{
  Enabled, Fires, fire_all, firings, firings-eq, firings_or, tokens_balance,
}
use granite.Objects.{Mutex}
use granite.Sync.Mutex.{link_to_condvar}
use granite.Sync.Mutex.Condition.{
  contains, not-contains, ConditionModel, Linked, condition, link_to_condvar-Linked,
}

-- how often the value was set
abbrev pub settings : List TransitionRef → List TransitionRef → ℕ
settings setters fired = firings (λ t. contains t setters) fired

-- The value is set once, a wait can start only before, and can be skipped only afterwards.
pub record SetOnce (w : View) (setters fired : List TransitionRef)
    (wait_start wait_skip : TransitionRef) : Type 0 where
  pub once : settings setters fired ≤ 1
  pub start_before : Enabled w wait_start (fire_all w fired w.tokens) → settings setters fired ≡ 0
  pub skip_after : Enabled w wait_skip (fire_all w fired w.tokens) → settings setters fired ≡ 1

module _ (v w : View) (ts fired : List TransitionRef) (s e : PlaceRef) (ws : TransitionRef)
    (ns se : PlaceRef) (sk : TransitionRef) (m : ConditionModel v w ts s e ws ns se sk)
    (start_apart : contains ws ts ≡ false) (skip_apart : contains sk ts ≡ false)
    (fires : Fires w fired w.tokens) where
  not_set_balance : fire_all w fired w.tokens ns + settings ts fired ≡ 1
  not_set_balance = omega (
    arith,
    tokens_balance w ns fired w.tokens fires,
    m.not_set_marked,
    firings-eq _ _ fired m.from_not_set,
    firings-eq _ _ fired m.to_not_set,
    firings_or (λ t. t == ws) (λ t. contains t ts) fired λ t. ground (arith, start_apart),
  )

  is_set_balance : fire_all w fired w.tokens se ≡ settings ts fired
  is_set_balance = omega (
    arith,
    tokens_balance w se fired w.tokens fires,
    m.is_set_empty,
    firings-eq _ _ fired m.from_is_set,
    firings-eq _ _ fired m.to_is_set,
    firings_or (λ t. t == sk) (λ t. contains t ts) fired λ t. ground (arith, skip_apart),
  )

  condition-SetOnce : SetOnce w ts fired ws sk
  condition-SetOnce = record {
    once = omega (arith, not_set_balance);
    start_before = λ enabled. ground (arith, enabled.inputs ns, m.from_not_set ws, not_set_balance);
    skip_after = λ enabled.
        ground (arith, enabled.inputs se, m.from_is_set sk, not_set_balance, is_set_balance);
  }

-- The net `w` has one more transition than `v`: it goes from `start_place` to `end_place` as far as
-- the places of `v` are concerned, and skips the wait of the run.
abbrev pub SetsOnce :
    View
    → View
    → (start_place end_place : PlaceRef) → (setters fired : List TransitionRef) → TransitionRef
    → Type 0
SetsOnce v w start_place end_place setters fired wait_start =
    (wait_skip : TransitionRef) × (v.is_transition wait_skip ≡ false)
    × ((t : TransitionRef) → w.is_transition t ≡ (t == wait_skip || v.is_transition t))
    × ((p : PlaceRef) → PlaceIn v p → w.input wait_skip p ≡ (p == start_place))
    × ((p : PlaceRef) → PlaceIn v p → w.output wait_skip p ≡ (p == end_place))
    × SetOnce w setters fired wait_start wait_skip

Linked-SetsOnce :
    (v w : View) (s e : PlaceRef) (ws u : TransitionRef) (us fired : List TransitionRef)
    → contains ws (u ∷ us) ≡ false
    → All (TransitionIn v) (u ∷ us)
    → Fires w fired w.tokens
    → Linked v w s e ws (u ∷ us)
    → SetsOnce v w s e (u ∷ us) fired ws
Linked-SetsOnce v w s e ws u us fired apart ht fires (condition ns se sk m) = (
  sk,
  m.skip_fresh,
  m.new_transitions,
  m.skip_input,
  m.skip_output,
  condition-SetOnce v w (u ∷ us) fired s e ws ns se sk m apart
      (not-contains v sk (u ∷ us) m.skip_fresh ht) fires,
)

module _ {Net : Type 0} ⦃api : PetriNet Net⦄ (L : Laws Net) where
  open L use {view}

  -- The condition of a wait in every run of its net. A mutex whose value some transitions set, not
  -- the start of the wait among them, is linked to a call of `wait`, with everything in the net. The
  -- net gets exactly one new transition, the one that skips the wait: of the places before, it takes
  -- from the start of the call only and gives to its end only. In any sequence of firings from the
  -- marking after this, the value is set at most once, by one transition; as soon as it is set the
  -- wait cannot start any more, and this new transition is enabled only when it is set.
  pub link_to_condvar-SetsOnce :
      (place : PlaceRef) (setter : TransitionRef) (setters : List TransitionRef) (index : ℕ)
      (s e : PlaceRef) (wait_start : TransitionRef) (n n' : Net) (fired : List TransitionRef)
      → PlaceIn (view n) s
      → PlaceIn (view n) e
      → TransitionIn (view n) wait_start
      → All (TransitionIn (view n)) (setter ∷ setters)
      → contains wait_start (setter ∷ setters) ≡ false
      → link_to_condvar
          (record { mutex = place; deref_mut = setter ∷ setters })
          index
          s
          e
          wait_start
          n
        ≡ ok (tt, n')
      → Fires (view n') fired (view n').tokens
      → SetsOnce (view n) (view n') s e (setter ∷ setters) fired wait_start
  link_to_condvar-SetsOnce place u us index s e ws n n' fired hs he hw ht apart linked fires =
      let m : Mutex = record { mutex = place; deref_mut = u ∷ us } in
      Linked-SetsOnce (view n) (view n') s e ws u us fired apart ht fires
        (of_result (link_to_condvar-Linked L m index s e ws n hs he hw ht) linked)
