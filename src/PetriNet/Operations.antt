-- ===== src/PetriNet/Operations.antt =====
-- The wrappers of src/data_structures/petri_net_interface.rs do not panic on references of the net,
-- and what they do to the view.
use granite.Common.{ℕ, ◌+◌, ◌<◌, String, ◌≡◌, refl, ap, ◌∙◌, false, ==_refl}
use granite.Common.Outcome.{arc_error, token_error}
use granite.Common.Outcome.Returns.{Returns, returns, bind, of_some}
use granite.PetriNet.{
  PlaceRef, TransitionRef, PetriNet, add_place, add_transition, add_token, add_arc_place_transition,
  add_arc_transition_place, connect_places,
}
use granite.PetriNet.View.{
  View, Laws, with_place, with_transition, with_tokens, with_input, with_output, usize_mod,
}
use granite.PetriNet.Grows.{PlaceIn, TransitionIn}

-- two places joined by a new transition
abbrev pub connected : (start_place end_place : PlaceRef) → TransitionRef → View → View
connected start_place end_place t v =
    with_output t end_place (with_input t start_place (with_transition t v))

module _ {Net : Type 0} ⦃api : PetriNet Net⦄ (L : Laws Net) where
  open L use {view}

  pub add_place_lem :
      (label : String) (n : Net)
      → Returns
          (λ (p, n'). ((view n).is_place p ≡ false) × (view n' ≡ with_place p (view n)))
          (add_place label n)
  unfolding add_place
  add_place_lem label n = returns (L.place_fresh label n, L.add_place_lem label n)

  pub add_transition_lem :
      (label : String) (n : Net)
      → Returns
          (λ (t, n'). ((view n).is_transition t ≡ false) × (view n' ≡ with_transition t (view n)))
          (add_transition label n)
  unfolding add_transition
  add_transition_lem label n = returns (L.transition_fresh label n, L.add_transition_lem label n)

  pub add_token_lem :
      (p : PlaceRef) (k : ℕ) (n : Net)
      → PlaceIn (view n) p
      → (view n).tokens p + k < usize_mod
      → Returns (λ (_, n'). view n' ≡ with_tokens p k (view n)) (add_token p k n)
  unfolding add_token
  add_token_lem p k n h room =
      let (n', e, v) = L.add_token_lem p k n h room in
      bind (of_some {Q = λ n''. n'' ≡ n'} token_error e refl) λ n'' same. returns (rw same v)

  pub add_input_lem :
      (p : PlaceRef) (t : TransitionRef) (n : Net)
      → PlaceIn (view n) p
      → TransitionIn (view n) t
      → Returns (λ (_, n'). view n' ≡ with_input t p (view n)) (add_arc_place_transition p t n)
  unfolding add_arc_place_transition
  add_input_lem p t n h k =
      let (n', e, v) = L.add_input_lem p t n h k in
      bind (of_some {Q = λ n''. n'' ≡ n'} arc_error e refl) λ n'' same. returns (rw same v)

  pub add_output_lem :
      (t : TransitionRef) (p : PlaceRef) (n : Net)
      → TransitionIn (view n) t
      → PlaceIn (view n) p
      → Returns (λ (_, n'). view n' ≡ with_output t p (view n)) (add_arc_transition_place t p n)
  unfolding add_arc_transition_place
  add_output_lem t p n k h =
      let (n', e, v) = L.add_output_lem t p n k h in
      bind (of_some {Q = λ n''. n'' ≡ n'} arc_error e refl) λ n'' same. returns (rw same v)

  -- Connecting two places of the net does not panic: it adds one new transition, whose only input
  -- arc comes from the first and whose only output arc goes to the second, and nothing else.
  pub connect_places_lem :
      (start_place end_place : PlaceRef) (label : String) (n : Net)
      → PlaceIn (view n) start_place
      → PlaceIn (view n) end_place
      → Returns
          (λ (t, n').
            ((view n).is_transition t ≡ false)
            × (view n' ≡ connected start_place end_place t (view n)))
          (connect_places start_place end_place label n)
  unfolding connect_places
  connect_places_lem start_place end_place label n hs he =
      bind (add_transition_lem label n) λ (t, n₁) (fresh, e₁).
        bind (add_input_lem start_place t n₁ (rw e₁ hs) (rw (e₁, ==_refl) refl)) λ (_, n₂) e₂.
          bind (add_output_lem t end_place n₂ (rw (e₂, e₁, ==_refl) refl) (rw (e₂, e₁) he))
            λ (_, n₃) e₃.
              returns
                (fresh, e₃ ∙ ap (with_output t end_place) (e₂ ∙ ap (with_input t start_place) e₁))
