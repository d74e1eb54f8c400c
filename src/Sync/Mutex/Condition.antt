-- ===== src/Sync/Mutex/Condition.antt =====
-- The condition of a condition variable: `link_to_condvar` of src/translator/sync/mutex.rs.
use granite.Common.{ℕ, ◌≡◌, refl, ap, ◌∙◌, Bool, false, ◌&&◌, ◌||◌, List, [], ◌∷◌, arith, ◌==◌, All}
use mathlib.Core.Path.{fun_ext}
use granite.Common.Outcome.Returns.{Returns, returns, bind, mono}
use granite.PetriNet.{PlaceRef, TransitionRef, PetriNet}
use granite.PetriNet.View.{View, Laws, with_place, with_tokens, with_input, with_output}
use granite.PetriNet.Grows.{PlaceIn, TransitionIn}
use granite.PetriNet.Operations.{
  connected, add_place_lem, add_token_lem, add_input_lem, add_output_lem, connect_places_lem,
}
use granite.Objects.{Mutex}
use granite.Sync.Mutex.{set_condition, add_condition, link_transitions, link_to_condvar}

unfoldable pub contains : TransitionRef → List TransitionRef → Bool
contains t [] = false
contains t (u ∷ us) = t == u || contains t us

-- arcs from `p` into each transition of a list, and from each of them to `q`
abbrev pub with_arcs : (p q : PlaceRef) → List TransitionRef → View → View
with_arcs p q ts v = record v {
  input = λ t r. (contains t ts && r == p) || v.input t r;
  output = λ t r. (contains t ts && r == q) || v.output t r;
}

with_arcs-cons :
    (p q : PlaceRef) (t : TransitionRef) (ts : List TransitionRef) (v : View)
    → with_arcs p q ts (with_output t q (with_input t p v)) ≡ with_arcs p q (t ∷ ts) v
unfolding contains
with_arcs-cons p q t ts v = λ i. record v {
  input =
      fun_ext {f = (with_arcs p q ts (with_output t q (with_input t p v))).input}
        {g = (with_arcs p q (t ∷ ts) v).input} (λ u. fun_ext λ r. ground arith) i;
  output =
      fun_ext {f = (with_arcs p q ts (with_output t q (with_input t p v))).output}
        {g = (with_arcs p q (t ∷ ts) v).output} (λ u. fun_ext λ r. ground arith) i;
}

-- What linking a mutex whose value is set by the transitions `ts` adds to `v`: two places of which
-- `not_set` holds the token, and one transition; `not_set` goes through each of `ts` to `is_set`,
-- and back through `wait_start`; `wait_skip` goes from start to end while `is_set` is marked.
pub record ConditionModel (v w : View) (ts : List TransitionRef) (start_place end_place : PlaceRef)
    (wait_start : TransitionRef) (not_set is_set : PlaceRef) (wait_skip : TransitionRef)
    : Type 0 where
  pub new_places : (p : PlaceRef) → w.is_place p ≡ (p == not_set || p == is_set || v.is_place p)
  pub new_transitions :
      (t : TransitionRef) → w.is_transition t ≡ (t == wait_skip || v.is_transition t)
  pub skip_fresh : v.is_transition wait_skip ≡ false
  pub not_set_marked : w.tokens not_set ≡ 1
  pub is_set_empty : w.tokens is_set ≡ 0
  pub old_tokens : (p : PlaceRef) → PlaceIn v p → w.tokens p ≡ v.tokens p
  pub from_not_set : (t : TransitionRef) → w.input t not_set ≡ (t == wait_start || contains t ts)
  pub to_not_set : (t : TransitionRef) → w.output t not_set ≡ (t == wait_start)
  pub from_is_set : (t : TransitionRef) → w.input t is_set ≡ (t == wait_skip)
  pub to_is_set : (t : TransitionRef) → w.output t is_set ≡ (t == wait_skip || contains t ts)
  pub skip_input : (p : PlaceRef) → PlaceIn v p → w.input wait_skip p ≡ (p == start_place)
  pub skip_output : (p : PlaceRef) → PlaceIn v p → w.output wait_skip p ≡ (p == end_place)
  pub old_inputs :
      (t : TransitionRef) (p : PlaceRef)
      → TransitionIn v t
      → PlaceIn v p
      → w.input t p ≡ v.input t p
  pub old_outputs :
      (t : TransitionRef) (p : PlaceRef)
      → TransitionIn v t
      → PlaceIn v p
      → w.output t p ≡ v.output t p

abbrev condition_view :
    List TransitionRef
    → (start_place end_place : PlaceRef) → TransitionRef
    → (not_set is_set : PlaceRef) → TransitionRef
    → View
    → View
condition_view ts start_place end_place wait_start ns se sk v = with_output sk se (
    with_input sk se (
      connected start_place end_place sk (
        with_output wait_start ns (
          with_input wait_start ns
            (with_arcs ns se ts (with_tokens ns 1 (with_place se (with_place ns v))))))))

pub not-contains :
    (v : View) (t : TransitionRef) (ts : List TransitionRef)
    → v.is_transition t ≡ false
    → All (TransitionIn v) ts
    → contains t ts ≡ false
unfolding contains
not-contains v t [] fresh h = refl
not-contains v t (u ∷ us) fresh h = ground (arith, not-contains v t us fresh h.1)

module _ (v : View) (ts : List TransitionRef) {start_place end_place : PlaceRef}
    {wait_start : TransitionRef} {ns se : PlaceRef} {sk : TransitionRef}
    (hs : PlaceIn v start_place) (he : PlaceIn v end_place) (hw : TransitionIn v wait_start)
    (ht : All (TransitionIn v) ts) (fresh_ns : v.is_place ns ≡ false)
    (fresh_se : (with_place ns v).is_place se ≡ false) (fresh_sk : v.is_transition sk ≡ false) where
  condition_view-ConditionModel :
      ConditionModel v
        (condition_view ts start_place end_place wait_start ns se sk v)
        ts
        start_place
        end_place
        wait_start
        ns
        se
        sk
  condition_view-ConditionModel = record {
    new_places = λ p. ground arith;
    new_transitions = λ t. ground arith;
    skip_fresh = fresh_sk;
    not_set_marked = ground arith;
    is_set_empty = ground arith;
    old_tokens = λ p h. ground arith;
    from_not_set = λ t. ground (arith, not-contains v sk ts fresh_sk ht);
    to_not_set = λ t. ground arith;
    from_is_set = λ t. ground (arith, not-contains v sk ts fresh_sk ht);
    to_is_set = λ t. ground (arith, not-contains v sk ts fresh_sk ht);
    skip_input = λ p h. ground arith;
    skip_output = λ p h. ground arith;
    old_inputs = λ t p h k. ground arith;
    old_outputs = λ t p h k. ground arith;
  }

module _ {Net : Type 0} ⦃api : PetriNet Net⦄ (L : Laws Net) where
  open L use {view}

  module _ (p q : PlaceRef) where
    set_condition_lem :
        (ts : List TransitionRef) (n : Net)
        → PlaceIn (view n) p
        → PlaceIn (view n) q
        → All (TransitionIn (view n)) ts
        → Returns (λ (_, n'). view n' ≡ with_arcs p q ts (view n)) (set_condition p q ts n)
    unfolding set_condition contains
    set_condition_lem [] n hp hq h = returns refl
    set_condition_lem (t ∷ ts) n hp hq h = bind (add_input_lem L p t n hp h.0) λ (_, n₁) e₁.
        bind (add_output_lem L t q n₁ (rw e₁ h.0) (rw e₁ hq)) λ (_, n₂) e₂.
          let v₂ = e₂ ∙ ap (with_output t q) e₁ in
          mono (set_condition_lem ts n₂ (rw v₂ hp) (rw v₂ hq) (rw v₂ h.1))
            λ (_, n₃) e₃. e₃ ∙ ap (with_arcs p q ts) v₂ ∙ with_arcs-cons p q t ts (view n)

-- What `link_to_condvar` does: nothing for a mutex whose value is never set, and else the condition.
pub data Linked (v w : View) (start_place end_place : PlaceRef) (wait_start : TransitionRef)
    : List TransitionRef → Type 0 where
  never_set : w ≡ v → Linked v w start_place end_place wait_start []
  condition :
      {t : TransitionRef} {ts : List TransitionRef} (not_set is_set : PlaceRef)
      (wait_skip : TransitionRef)
      → ConditionModel v w (t ∷ ts) start_place end_place wait_start not_set is_set wait_skip
      → Linked v w start_place end_place wait_start (t ∷ ts)

module _ {Net : Type 0} ⦃api : PetriNet Net⦄ (L : Laws Net) where
  open L use {view}

  add_condition_lem :
      (ts : List TransitionRef) (index : ℕ) (start_place end_place : PlaceRef)
      (wait_start : TransitionRef) (n : Net)
      → PlaceIn (view n) start_place
      → PlaceIn (view n) end_place
      → TransitionIn (view n) wait_start
      → All (TransitionIn (view n)) ts
      → Returns
          (λ (_, n').
            (ns : PlaceRef) × (se : PlaceRef) × (sk : TransitionRef) × ConditionModel
              (view n)
              (view n')
              ts
              start_place
              end_place
              wait_start
              ns
              se
              sk)
          (add_condition ts index start_place end_place wait_start n)
  unfolding add_condition
  add_condition_lem ts index s e ws n hs he hw ht =
      bind (add_place_lem L _ n) λ (ns, n₁) (fresh_ns, e₁).
        bind (add_place_lem L _ n₁) λ (se, n₂) (fresh_se, e₂).
          let v₂ = e₂ ∙ ap (with_place se) e₁ in
          bind
            (add_token_lem L ns 1 n₂ (rw v₂ (ground arith))
              (rw v₂ (ground (arith, rw e₁ at fresh_se))))
            λ (_, n₃) e₃.
              let v₃ = e₃ ∙ ap (with_tokens ns 1) v₂ in
              bind
                (set_condition_lem L ns se ts n₃ (rw v₃ (ground arith)) (rw v₃ (ground arith))
                  (rw v₃ ht))
                λ (_, n₄) e₄.
                  let v₄ = e₄ ∙ ap (with_arcs ns se ts) v₃ in
                  bind (add_input_lem L ns ws n₄ (rw v₄ (ground arith)) (rw v₄ hw)) λ (_, n₅) e₅.
                    let v₅ = e₅ ∙ ap (with_input ws ns) v₄ in
                    bind (add_output_lem L ws ns n₅ (rw v₅ hw) (rw v₅ (ground arith))) λ (_, n₆) e₆.
                      let v₆ = e₆ ∙ ap (with_output ws ns) v₅ in
                      bind
                        (connect_places_lem L s e _ n₆ (rw v₆ (ground arith))
                          (rw v₆ (ground arith)))
                        λ (sk, n₇) (fresh_sk, e₇).
                          let v₇ = e₇ ∙ ap (connected s e sk) v₆ in
                          bind
                            (add_input_lem L se sk n₇ (rw v₇ (ground arith)) (rw v₇ (ground arith)))
                            λ (_, n₈) e₈.
                              let v₈ = e₈ ∙ ap (with_input sk se) v₇ in
                              mono
                                (add_output_lem L sk se n₈ (rw v₈ (ground arith))
                                  (rw v₈ (ground arith)))
                                λ (_, n₉) e₉. (
                                  ns,
                                  se,
                                  sk,
                                  rw (e₉ ∙ ap (with_output sk se) v₈) (
                                      condition_view-ConditionModel (view n) ts hs he hw ht fresh_ns
                                        (rw e₁ at fresh_se) (rw v₆ at fresh_sk)),
                                )

  -- Linking a mutex to a condition variable does not panic if the two places, `wait_start` and the
  -- transitions that set the mutex are in the net. A mutex whose value no transition sets
  -- leaves the net as it is; any other gets the two places of its condition and the transition that
  -- skips the wait, with exactly the arcs of the model, and every older arc and token stays.
  pub link_to_condvar-Linked :
      (m : Mutex) (index : ℕ) (start_place end_place : PlaceRef) (wait_start : TransitionRef)
      (n : Net)
      → PlaceIn (view n) start_place
      → PlaceIn (view n) end_place
      → TransitionIn (view n) wait_start
      → All (TransitionIn (view n)) m.deref_mut
      → Returns
          (λ (_, n'). Linked (view n) (view n') start_place end_place wait_start m.deref_mut)
          (link_to_condvar m index start_place end_place wait_start n)
  unfolding link_to_condvar
  link_to_condvar-Linked m index s e ws n hs he hw ht = linked m.deref_mut ht
    where
      linked :
          (ts : List TransitionRef)
          → All (TransitionIn (view n)) ts
          → Returns
              (λ (_, n'). Linked (view n) (view n') s e ws ts)
              (link_transitions ts index s e ws n)
      linked [] h = returns (never_set refl)
      linked (t ∷ ts) h =
          mono (add_condition_lem (t ∷ ts) index s e ws n hs he hw h)
            λ _ (ns, se, sk, c). condition ns se sk c
