-- ===== src/Sync/Condvar/Model.antt =====
-- The net of a condition variable: `Condvar::new` of src/translator/sync/condvar.rs.
use granite.Common.{ℕ, ◌≡◌, ap, ◌∙◌, false, ◌||◌, arith, ◌==◌}
use granite.Common.Outcome.Returns.{Returns, returns, bind}
use granite.PetriNet.{PlaceRef, TransitionRef, PetriNet}
use granite.PetriNet.View.{
  View, Laws, with_place, with_transition, with_tokens, with_input, with_output,
}
use granite.PetriNet.Grows.{PlaceIn, TransitionIn}
use granite.PetriNet.Operations.{
  add_place_lem, add_transition_lem, add_token_lem, add_input_lem, add_output_lem,
}
use granite.Objects.{Condvar}
use granite.Sync.Condvar.{new}

-- The two places and the three transitions, in `w`, of a condition variable that is new over `v`.
pub record CondvarModel (v w : View) (c : Condvar) (wait_enabled : PlaceRef)
    (lost_signal : TransitionRef) : Type 0 where
  pub new_places :
      (p : PlaceRef) → w.is_place p ≡ (p == wait_enabled || p == c.notify || v.is_place p)
  pub new_transitions :
      (t : TransitionRef)
      → w.is_transition t
        ≡ (t == c.wait_start || t == lost_signal || t == c.notify_received || v.is_transition t)
  pub wait_enabled_marked : w.tokens wait_enabled ≡ 1
  pub notify_empty : w.tokens c.notify ≡ 0
  pub wait_start_input : (p : PlaceRef) → w.input c.wait_start p ≡ (p == wait_enabled)
  pub wait_start_output : (p : PlaceRef) → w.output c.wait_start p ≡ false
  pub lost_signal_input :
      (p : PlaceRef) → w.input lost_signal p ≡ (p == wait_enabled || p == c.notify)
  pub lost_signal_output : (p : PlaceRef) → w.output lost_signal p ≡ (p == wait_enabled)
  pub received_input : (p : PlaceRef) → w.input c.notify_received p ≡ (p == c.notify)
  pub received_output : (p : PlaceRef) → w.output c.notify_received p ≡ (p == wait_enabled)
  -- what stands on the two places, for every transition of the net
  pub enabled_inputs :
      (t : TransitionRef) → w.input t wait_enabled ≡ (t == lost_signal || t == c.wait_start)
  pub enabled_outputs :
      (t : TransitionRef) → w.output t wait_enabled ≡ (t == lost_signal || t == c.notify_received)
  pub notify_inputs :
      (t : TransitionRef) → w.input t c.notify ≡ (t == lost_signal || t == c.notify_received)
  pub notify_outputs : (t : TransitionRef) → w.output t c.notify ≡ false
  pub places_apart : (wait_enabled == c.notify) ≡ false
  pub transitions_apart : (lost_signal == c.wait_start) ≡ false
  pub ends_apart : (c.notify_received == c.wait_start) ≡ false
  pub unlinked : c.already_linked_to_call ≡ false
  pub old_tokens : (p : PlaceRef) → PlaceIn v p → w.tokens p ≡ v.tokens p
  pub old_inputs :
      (t : TransitionRef) (p : PlaceRef)
      → TransitionIn v t
      → PlaceIn v p
      → w.input t p ≡ v.input t p
  pub old_outputs :
      (t : TransitionRef) (p : PlaceRef)
      → TransitionIn v t
      → PlaceIn v p
      → w.output t p ≡ v.output t p

abbrev condvar_view :
    (wait_enabled notify : PlaceRef) (wait_start lost_signal notify_received : TransitionRef)
    → View
    → View
condvar_view we nt ws ls nr v = with_output nr we (
    with_input nr nt (
      with_input ws we (
        with_output ls we (
          with_input ls nt (
            with_input ls we (
              with_transition nr (
                with_transition ls
                  (with_transition ws (with_tokens we 1 (with_place nt (with_place we v)))))))))))

module _ (v : View) {we nt : PlaceRef} {ws ls nr : TransitionRef} (fresh_we : v.is_place we ≡ false)
    (fresh_no : (with_place we v).is_place nt ≡ false) (fresh_ws : v.is_transition ws ≡ false)
    (fresh_ls : (with_transition ws v).is_transition ls ≡ false)
    (fresh_nr : (with_transition ls (with_transition ws v)).is_transition nr ≡ false) where
  condvar_view-CondvarModel :
      CondvarModel v
        (condvar_view we nt ws ls nr v)
        (record {
          wait_start = ws;
          notify = nt;
          notify_received = nr;
          already_linked_to_call = false;
        })
        we
        ls
  condvar_view-CondvarModel = record {
    new_places = λ p. ground arith;
    new_transitions = λ t. ground arith;
    wait_enabled_marked = ground arith;
    notify_empty = ground arith;
    wait_start_input = λ p. ground arith;
    wait_start_output = λ p. ground arith;
    lost_signal_input = λ p. ground arith;
    lost_signal_output = λ p. ground arith;
    received_input = λ p. ground arith;
    received_output = λ p. ground arith;
    enabled_inputs = λ t. ground arith;
    enabled_outputs = λ t. ground arith;
    notify_inputs = λ t. ground arith;
    notify_outputs = λ t. ground arith;
    places_apart = ground arith;
    transitions_apart = ground arith;
    ends_apart = ground arith;
    unlinked = ground arith;
    old_tokens = λ p h. ground arith;
    old_inputs = λ t p h k. ground arith;
    old_outputs = λ t p h k. ground arith;
  }

module _ {Net : Type 0} ⦃api : PetriNet Net⦄ (L : Laws Net) where
  open L use {view}

  -- Creating a condition variable never panics. It adds two places, of which only `wait_enabled`
  -- holds a token, and three transitions with exactly the arcs of the model, and changes no arc and
  -- no token that was there.
  pub new-CondvarModel :
      (index : ℕ) (n : Net)
      → Returns
          (λ (c, n').
            (we : PlaceRef) × (ls : TransitionRef) × CondvarModel (view n) (view n') c we ls)
          (new index n)
  unfolding new
  new-CondvarModel index n = bind (add_place_lem L _ n) λ (we, n₁) (fresh_we, e₁).
      bind (add_place_lem L _ n₁) λ (nt, n₂) (fresh_nt, e₂).
        let v₂ = e₂ ∙ ap (with_place nt) e₁ in
        bind
          (add_token_lem L we 1 n₂ (rw v₂ (ground arith))
            (rw v₂ (ground (arith, rw e₁ at fresh_nt))))
          λ (_, n₃) e₃. bind (add_transition_lem L _ n₃) λ (ws, n₄) (fresh_ws, e₄).
            bind (add_transition_lem L _ n₄) λ (ls, n₅) (fresh_ls, e₅).
              bind (add_transition_lem L _ n₅) λ (nr, n₆) (fresh_nr, e₆).
                let v₃ = e₃ ∙ ap (with_tokens we 1) v₂ in
                let v₄ = e₄ ∙ ap (with_transition ws) v₃ in
                let v₅ = e₅ ∙ ap (with_transition ls) v₄ in
                let v₆ = e₆ ∙ ap (with_transition nr) v₅ in
                bind (add_input_lem L we ls n₆ (rw v₆ (ground arith)) (rw v₆ (ground arith)))
                  λ (_, n₇) e₇.
                    let v₇ = e₇ ∙ ap (with_input ls we) v₆ in
                    bind (add_input_lem L nt ls n₇ (rw v₇ (ground arith)) (rw v₇ (ground arith)))
                      λ (_, n₈) e₈.
                        let v₈ = e₈ ∙ ap (with_input ls nt) v₇ in
                        bind
                          (add_output_lem L ls we n₈ (rw v₈ (ground arith)) (rw v₈ (ground arith)))
                          λ (_, n₉) e₉.
                            let v₉ = e₉ ∙ ap (with_output ls we) v₈ in
                            bind
                              (add_input_lem L we ws n₉ (rw v₉ (ground arith))
                                (rw v₉ (ground arith)))
                              λ (_, n₁₀) e₁₀.
                                let v₁₀ = e₁₀ ∙ ap (with_input ws we) v₉ in
                                bind
                                  (add_input_lem L nt nr n₁₀ (rw v₁₀ (ground arith))
                                    (rw v₁₀ (ground arith)))
                                  λ (_, n₁₁) e₁₁.
                                    let v₁₁ = e₁₁ ∙ ap (with_input nr nt) v₁₀ in
                                    bind
                                      (add_output_lem L nr we n₁₁ (rw v₁₁ (ground arith))
                                        (rw v₁₁ (ground arith)))
                                      λ (_, n₁₂) e₁₂.
                                        let v₁₂ = e₁₂ ∙ ap (with_output nr we) v₁₁ in
                                        returns (
                                          we,
                                          ls,
                                          rw v₁₂ (
                                              condvar_view-CondvarModel (view n) fresh_we
                                                (rw e₁ at fresh_nt) (rw v₃ at fresh_ws)
                                                (rw v₄ at fresh_ls) (rw v₅ at fresh_nr)),
                                        )
