-- ===== src/Sync/Mutex/Exclusion.antt =====
-- What the net of a mutex guarantees when it runs: src/translator/sync/mutex.rs.
use granite.Common.{
  ℕ, ◌+◌, ◌≤◌, ◌≡◌, refl, sym, ==_refl, subst, Bool, true, false, ◌||◌, List, [], ◌∷◌, ◌++◌, ap,
  ◌==◌, arith, All,
}
use granite.Common.Outcome.{ok, Run, pure, ◌>>=◌, ◌>>◌}
use granite.Common.Outcome.Returns.{Returns, returns, bind, mono, of_result}
use granite.PetriNet.{TransitionRef, PlaceRef, PetriNet}
use granite.PetriNet.View.{View, Laws, with_input, with_output}
use granite.PetriNet.Grows.{PlaceIn, TransitionIn}
use granite.PetriNet.Operations.{add_input_lem, add_output_lem}
use granite.PetriNet.Firing.{
  Fires, fire_all, weight, firings, firings-eq, firings-append, Fires-cut, tokens_balance,
}
use granite.Objects.{Mutex}
use granite.Sync.Mutex.{new, add_lock_arc, add_unlock_arc}
use granite.Sync.Mutex.Model.{new-unlocked}

-- what the translation asks of a mutex: an arc for a lock, or one for an unlock
pub data MutexUse : Type 0 where
  locks : TransitionRef → MutexUse
  unlocks : TransitionRef → MutexUse

abbrev pub transition_of : MutexUse → TransitionRef
transition_of (locks t) = t
transition_of (unlocks t) = t

abbrev pub is_lock : List MutexUse → TransitionRef → Bool
is_lock [] t = false
is_lock (locks u ∷ uses) t = t == u || is_lock uses t
is_lock (unlocks u ∷ uses) t = is_lock uses t

abbrev pub is_unlock : List MutexUse → TransitionRef → Bool
is_unlock [] t = false
is_unlock (locks u ∷ uses) t = is_unlock uses t
is_unlock (unlocks u ∷ uses) t = t == u || is_unlock uses t

module _ {Net : Type 0} ⦃api : PetriNet Net⦄ where
  unfoldable pub use_mutex : List MutexUse → Mutex → Run Net (Unit {0})
  use_mutex [] m = pure tt
  use_mutex (locks t ∷ uses) m = do add_lock_arc m t; use_mutex uses m
  use_mutex (unlocks t ∷ uses) m = do add_unlock_arc m t; use_mutex uses m

  -- a new mutex with all its uses
  unfoldable pub used_mutex : ℕ → List MutexUse → Run Net Mutex
  unfolding use_mutex
  used_mutex index uses = do m ← new index; use_mutex uses m; pure m

-- the arcs of the place of a mutex, over those of a net `v`
pub record UsedIn (v w : View) (uses : List MutexUse) (p : PlaceRef) : Type 0 where
  pub tokens : w.tokens p ≡ v.tokens p
  pub inputs : (t : TransitionRef) → w.input t p ≡ (is_lock uses t || v.input t p)
  pub outputs : (t : TransitionRef) → w.output t p ≡ (is_unlock uses t || v.output t p)

with_lock :
    (v v' w : View) (uses : List MutexUse) (t : TransitionRef) (p : PlaceRef)
    → v' ≡ with_input t p v
    → UsedIn v' w uses p
    → UsedIn v w (locks t ∷ uses) p
with_lock v v' w uses t p e h =
    let h' = subst (λ x. UsedIn x w uses p) e h in
    record { tokens = h'.tokens; inputs = λ u. ground (arith, h'.inputs u); outputs = h'.outputs }

with_unlock :
    (v v' w : View) (uses : List MutexUse) (t : TransitionRef) (p : PlaceRef)
    → v' ≡ with_output t p v
    → UsedIn v' w uses p
    → UsedIn v w (unlocks t ∷ uses) p
with_unlock v v' w uses t p e h =
    let h' = subst (λ x. UsedIn x w uses p) e h in
    record { tokens = h'.tokens; inputs = h'.inputs; outputs = λ u. ground (arith, h'.outputs u) }

module _ {Net : Type 0} ⦃api : PetriNet Net⦄ (L : Laws Net) where
  open L use {view}

  abbrev pub UsesIn : View → List MutexUse → Type 0
  UsesIn v uses = All (λ u. TransitionIn v (transition_of u)) uses

  use_mutex-UsedIn :
      (uses : List MutexUse) (m : Mutex) (n : Net)
      → PlaceIn (view n) m.mutex
      → UsesIn (view n) uses
      → Returns (λ (_, n'). UsedIn (view n) (view n') uses m.mutex) (use_mutex uses m n)
  unfolding use_mutex add_lock_arc add_unlock_arc
  use_mutex-UsedIn [] m n h hs =
      returns (record { tokens = refl; inputs = λ t. refl; outputs = λ t. refl })
  use_mutex-UsedIn (locks t ∷ uses) m n h hs =
      bind (add_input_lem L m.mutex t n h hs.0) λ (_, n₁) e.
        mono (use_mutex-UsedIn uses m n₁ (rw e h) (subst (λ v. UsesIn v uses) (sym e) hs.1))
          λ (_, n') k. with_lock (view n) (view n₁) (view n') uses t m.mutex e k
  use_mutex-UsedIn (unlocks t ∷ uses) m n h hs =
      bind (add_output_lem L t m.mutex n hs.0 h) λ (_, n₁) e.
        mono (use_mutex-UsedIn uses m n₁ (rw e h) (subst (λ v. UsesIn v uses) (sym e) hs.1))
          λ (_, n') k. with_unlock (view n) (view n₁) (view n') uses t m.mutex e k

  -- the marking, and the arcs of the place
  record Guarded (w : View) (uses : List MutexUse) (p : PlaceRef) : Type 0 where
    tokens : w.tokens p ≡ 1
    inputs : (t : TransitionRef) → w.input t p ≡ is_lock uses t
    outputs : (t : TransitionRef) → w.output t p ≡ is_unlock uses t

  used_mutex-Guarded :
      (index : ℕ) (uses : List MutexUse) (n : Net)
      → UsesIn (view n) uses
      → Returns (λ (m, n'). Guarded (view n') uses m.mutex) (used_mutex index uses n)
  unfolding used_mutex
  used_mutex-Guarded index uses n hs = bind (new-unlocked L index n) λ (m, n₁) (fresh, e, _).
      bind
        (use_mutex-UsedIn uses m n₁ (rw (e, ==_refl) refl) (subst (λ v. UsesIn v uses) (sym e) hs))
        λ (_, n₂) k.
          let k' = subst (λ v. UsedIn v (view n₂) uses m.mutex) e k in
          returns (record {
            tokens = ground (arith, k'.tokens);
            inputs = λ t. ground (arith, k'.inputs t);
            outputs = λ t. ground (arith, k'.outputs t);
          })

  -- the tokens of the mutex after a sequence of firings
  mutex_balance :
      (index : ℕ) (uses : List MutexUse) (n : Net) (m : Mutex) (n' : Net) (ts : List TransitionRef)
      → UsesIn (view n) uses
      → used_mutex index uses n ≡ ok (m, n')
      → Fires (view n') ts (view n').tokens
      → fire_all (view n') ts (view n').tokens m.mutex + firings (is_lock uses) ts
        ≡ 1 + firings (is_unlock uses) ts
  mutex_balance index uses n m n' ts hs e fires =
      let g = of_result (used_mutex-Guarded index uses n hs) e in
      omega (
        arith,
        tokens_balance (view n') m.mutex ts (view n').tokens fires,
        firings-eq _ (is_lock uses) ts g.inputs,
        firings-eq _ (is_unlock uses) ts g.outputs,
        g.tokens,
      )

  -- Mutual exclusion. For a new mutex with any uses, whose transitions are in the net, and any
  -- sequence of firings from the initial marking in which a lock fires, and a lock fires again
  -- later: if the first of them is no unlock at the same time, and before it the unlocks did not
  -- fire more often than the locks, then an unlock fires between the two; and the tokens of the
  -- mutex at the end, with the locks that fired, are one more than the unlocks that fired.
  pub mutual_exclusion :
      (index : ℕ) (uses : List MutexUse) (n : Net) (m : Mutex) (n' : Net)
      (before between after : List TransitionRef) (lock lock' : TransitionRef)
      → UsesIn (view n) uses
      → used_mutex index uses n ≡ ok (m, n')
      → Fires (view n') ((before ++ lock ∷ between) ++ lock' ∷ after) (view n').tokens
      → is_lock uses lock ≡ true
      → is_lock uses lock' ≡ true
      → is_unlock uses lock ≡ false
      → firings (is_unlock uses) before ≤ firings (is_lock uses) before
      → (1 ≤ firings (is_unlock uses) between)
        × (fire_all (view n') ((before ++ lock ∷ between) ++ lock' ∷ after) (view n').tokens m.mutex
              + firings (is_lock uses) ((before ++ lock ∷ between) ++ lock' ∷ after)
            ≡ 1 + firings (is_unlock uses) ((before ++ lock ∷ between) ++ lock' ∷ after))
  mutual_exclusion index uses n m n' before between after lock lock' hs e fires l l' u le =
      let g = of_result (used_mutex-Guarded index uses n hs) e in
      let (fired, enabled) = Fires-cut (view n') (before ++ lock ∷ between) lock' after _ fires in
      let free : 1 ≤ fire_all (view n') (before ++ lock ∷ between) (view n').tokens m.mutex =
        ground (arith, enabled.inputs m.mutex, g.inputs lock', l') in
      (
        omega (
          arith,
          free,
          mutex_balance index uses n m n' (before ++ lock ∷ between) hs e fired,
          firings-append (is_lock uses) before (lock ∷ between),
          firings-append (is_unlock uses) before (lock ∷ between),
          ap weight l,
          ap weight u,
          le,
        ),
        mutex_balance index uses n m n' _ hs e fires,
      )
