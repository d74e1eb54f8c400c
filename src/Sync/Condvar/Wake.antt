-- ===== src/Sync/Condvar/Wake.antt =====
-- What the net of a condition variable guarantees when it runs: src/translator/sync/condvar.rs.
use granite.Common.{
  ℕ, ◌+◌, ◌≤◌, ◌≡◌, refl, sym, subst, ◌∙◌, All-map, Bool, false, ◌||◌, ◌↔◌, List, [], ◌∷◌, ◌==◌,
  arith, All,
}
use granite.Common.Outcome.{ok, Run, pure, ◌>>=◌, ◌>>◌}
use granite.Common.Outcome.Returns.{Returns, returns, bind, mono, of_result}
use granite.PetriNet.{TransitionRef, PlaceRef, PetriNet}
use granite.PetriNet.View.{View, Laws, with_output}
use granite.PetriNet.Grows.{PlaceIn, TransitionIn}
use granite.PetriNet.Operations.{add_output_lem}
use granite.PetriNet.Firing.{
  Marking, Enabled, Fires, firings, firings-eq, firings_or, firings_or_le, tokens_balance,
}
use granite.Objects.{Mutex, Condvar, Guard}
use granite.Context.{Context}
use granite.Sync.Condvar.{new, link_to_notify_one_call, link_to_wait_call}
use granite.Sync.Condvar.Model.{CondvarModel, new-CondvarModel}
use granite.Sync.Condvar.Wait.{WaitsOn, link_to_wait_call-waiting}

abbrev pub is_notifier : List TransitionRef → TransitionRef → Bool
is_notifier [] t = false
is_notifier (u ∷ us) t = t == u || is_notifier us t

module _ {Net : Type 0} ⦃api : PetriNet Net⦄ where
  -- the calls of `notify_one` on one condition variable
  unfoldable pub link_notifiers : Condvar → List TransitionRef → Run Net (Unit {0})
  link_notifiers c [] = pure tt
  link_notifiers c (t ∷ ts) = do link_to_notify_one_call c t; link_notifiers c ts

  unfoldable pub notified_condvar : ℕ → List TransitionRef → Run Net Condvar
  unfolding link_notifiers
  notified_condvar index notifiers = do c ← new index; link_notifiers c notifiers; pure c

-- the marking and the arcs of the two places, with `ts` as the notifiers
record Wakes (w : View) (c : Condvar) (we : PlaceRef) (ls : TransitionRef) (ts : List TransitionRef)
    : Type 0 where
  we_marked : w.tokens we ≡ 1
  notify_empty : w.tokens c.notify ≡ 0
  we_inputs : (t : TransitionRef) → w.input t we ≡ (t == ls || t == c.wait_start)
  we_outputs : (t : TransitionRef) → w.output t we ≡ (t == ls || t == c.notify_received)
  notify_inputs : (t : TransitionRef) → w.input t c.notify ≡ (t == ls || t == c.notify_received)
  notify_outputs : (t : TransitionRef) → w.output t c.notify ≡ is_notifier ts t
  transitions_apart : (ls == c.wait_start) ≡ false

-- The links to the notifiers only add arcs to `notify`.
record LinkedTo (v w : View) (p : PlaceRef) (ts : List TransitionRef) : Type 0 where
  tokens : (q : PlaceRef) → w.tokens q ≡ v.tokens q
  inputs : (t : TransitionRef) (q : PlaceRef) → w.input t q ≡ v.input t q
  at_place : (t : TransitionRef) → w.output t p ≡ (is_notifier ts t || v.output t p)
  elsewhere : (t : TransitionRef) (q : PlaceRef) → (q == p) ≡ false → w.output t q ≡ v.output t q

with_notifier :
    (v v' w : View) (t : TransitionRef) (p : PlaceRef) (ts : List TransitionRef)
    → v' ≡ with_output t p v
    → LinkedTo v' w p ts
    → LinkedTo v w p (t ∷ ts)
with_notifier v v' w t p ts e h =
    let h' = subst (λ x. LinkedTo x w p ts) e h in
    record {
      tokens = h'.tokens;
      inputs = h'.inputs;
      at_place = λ u. ground (arith, h'.at_place u);
      elsewhere = λ u q apart. ground (arith, h'.elsewhere u q apart);
    }

Wakes-LinkedTo :
    (v u w : View) (c : Condvar) (we : PlaceRef) (ls : TransitionRef) (ts : List TransitionRef)
    → CondvarModel v u c we ls
    → LinkedTo u w c.notify ts
    → Wakes w c we ls ts
Wakes-LinkedTo v u w c we ls ts m k = record {
  we_marked = ground (arith, k.tokens we, m.wait_enabled_marked);
  notify_empty = ground (arith, k.tokens c.notify, m.notify_empty);
  we_inputs = λ t. ground (arith, k.inputs t we, m.enabled_inputs t);
  we_outputs = λ t. ground (arith, k.elsewhere t we m.places_apart, m.enabled_outputs t);
  notify_inputs = λ t. ground (arith, k.inputs t c.notify, m.notify_inputs t);
  notify_outputs = λ t. ground (arith, k.at_place t, m.notify_outputs t);
  transitions_apart = m.transitions_apart;
}

module _ {Net : Type 0} ⦃api : PetriNet Net⦄ (L : Laws Net) where
  open L use {view}

  link_notifiers-LinkedTo :
      (c : Condvar) (ts : List TransitionRef) (n : Net)
      → PlaceIn (view n) c.notify
      → All (TransitionIn (view n)) ts
      → Returns (λ (_, n'). LinkedTo (view n) (view n') c.notify ts) (link_notifiers c ts n)
  unfolding link_notifiers link_to_notify_one_call
  link_notifiers-LinkedTo c [] n h hs = returns (record {
    tokens = λ q. refl;
    inputs = λ t q. refl;
    at_place = λ t. refl;
    elsewhere = λ t q apart. refl;
  })
  link_notifiers-LinkedTo c (t ∷ ts) n h hs =
      bind (add_output_lem L t c.notify n hs.0 h) λ (_, n₁) e.
        mono
          (link_notifiers-LinkedTo c ts n₁ (rw e h)
            (subst (λ v. All (TransitionIn v) ts) (sym e) hs.1))
          λ (_, n') k. with_notifier (view n) (view n₁) (view n') t c.notify ts e k

  notified_condvar-Wakes :
      (index : ℕ) (ts : List TransitionRef) (n : Net)
      → All (TransitionIn (view n)) ts
      → Returns
          (λ (c, n'). (we : PlaceRef) × (ls : TransitionRef) × Wakes (view n') c we ls ts)
          (notified_condvar index ts n)
  unfolding notified_condvar
  notified_condvar-Wakes index ts n hs = bind (new-CondvarModel L index n) λ (c, n₁) (we, ls, m).
      bind
        (link_notifiers-LinkedTo c ts n₁ (m.new_places c.notify ∙ ground arith)
          (All-map (TransitionIn (view n)) ts (λ t h. m.new_transitions t ∙ ground arith) hs))
        λ (_, n₂) k. returns (we, ls, Wakes-LinkedTo (view n) (view n₁) (view n₂) c we ls ts m k)

  -- For a new condition variable with any notifiers, which are in the net, and any sequence of
  -- firings from the initial marking: each notification that is received was sent, by a firing of
  -- a notifier of its own, and a second wait starts only after a notification was received.
  pub notified_condvar_lem :
      (index : ℕ) (notifiers : List TransitionRef) (n : Net) (c : Condvar) (n' : Net)
      (ts : List TransitionRef)
      → All (TransitionIn (view n)) notifiers
      → notified_condvar index notifiers n ≡ ok (c, n')
      → Fires (view n') ts (view n').tokens
      → (firings (λ t. t == c.notify_received) ts ≤ firings (is_notifier notifiers) ts)
        × (firings (λ t. t == c.wait_start) ts ≤ 1 + firings (λ t. t == c.notify_received) ts)
  notified_condvar_lem index notifiers n c n' ts hs e fires =
      let (we, ls, k) = of_result (notified_condvar-Wakes index notifiers n hs) e in
      let at_notify = tokens_balance (view n') c.notify ts (view n').tokens fires in
      let at_enabled = tokens_balance (view n') we ts (view n').tokens fires in
      let lost = λ (t : TransitionRef). t == ls in
      let started = λ (t : TransitionRef). t == c.wait_start in
      let received = λ (t : TransitionRef). t == c.notify_received in
      (
        omega (
          arith,
          at_notify,
          k.notify_empty,
          firings-eq _ _ ts k.notify_inputs,
          firings-eq _ _ ts k.notify_outputs,
          firings_or_le lost received ts,
        ),
        omega (
          arith,
          at_enabled,
          k.we_marked,
          firings-eq _ _ ts k.we_inputs,
          firings-eq _ _ ts k.we_outputs,
          firings_or lost started ts (λ t. ground (arith, k.transitions_apart)),
          firings_or_le lost received ts,
        ),
      )

  -- In the net of a condition variable and its call of `wait`, receiving a notification asks only
  -- for a token in `notify` and for the token of the mutex, and not for a wait that has started:
  -- linking a first call of `wait` does not panic, and afterwards `notify_received` is enabled at
  -- exactly these markings.
  pub wake_without_wait :
      (r : ℕ) (s e : PlaceRef) (g : Guard) (c : Context Net) (cv : Condvar) (m : Mutex)
      → WaitsOn c r cv g m
      → PlaceIn (view c.net) s
      → PlaceIn (view c.net) e
      → PlaceIn (view c.net) m.mutex
      → TransitionIn (view c.net) cv.wait_start
      → TransitionIn (view c.net) cv.notify_received
      → ((p : PlaceRef) → (view c.net).input cv.notify_received p ≡ (p == cv.notify))
      → (cv.notify_received == cv.wait_start) ≡ false
      → Returns
          (λ (_, c').
            (marking : Marking)
            → Enabled (view c'.net) cv.notify_received marking
              ↔ ((1 ≤ marking cv.notify) × (1 ≤ marking m.mutex)))
          (link_to_wait_call r s e g c)
  wake_without_wait r s e g c cv m w hs he hm hw hn only apart =
      mono (link_to_wait_call-waiting L r s e g c cv m w hs he hm hw hn)
        λ (_, c') (v, _, _) marking.
          let inputs = λ (p : PlaceRef).
            let same : (view c'.net).input cv.notify_received p ≡ (p == m.mutex || p == cv.notify) =
              rw v (ground (arith, only p, apart)) in
            same in
          (
            λ enabled. (
              ground (arith, enabled.inputs cv.notify, inputs cv.notify),
              ground (arith, enabled.inputs m.mutex, inputs m.mutex),
            ),
            λ (noted, free). record {
              transition = rw v hn;
              inputs = λ p. ground (arith, inputs p);
            },
          )
