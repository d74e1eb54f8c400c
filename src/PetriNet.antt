-- ===== src/PetriNet.antt =====
-- src/data_structures/petri_net_interface.rs, and the library `netcrab` behind it as a parameter.
pub mod View
pub mod Counted
pub mod Grows
pub mod Operations
pub mod Firing
use granite.Common.{ℕ, String, Option, none, some}
use granite.Common.Outcome.{ok, arc_error, token_error, expect, and_then, Run, pure, ◌>>=◌, ◌>>◌}

-- References into the net are opaque to the program: numbers tell them apart.
abbrev pub PlaceRef : Type 0
PlaceRef = ℕ

abbrev pub TransitionRef : Type 0
TransitionRef = ℕ

-- The operations of `netcrab` that the translation calls. `none` is an `Err`.
pub record PetriNet (Net : Type 0) : Type 0 where
  pub new : Net
  pub add_place : String → Net → PlaceRef × Net
  pub add_transition : String → Net → TransitionRef × Net
  pub add_token : PlaceRef → ℕ → Net → Option Net
  pub add_arc_place_transition : PlaceRef → TransitionRef → Net → Option Net
  pub add_arc_transition_place : TransitionRef → PlaceRef → Net → Option Net

module _ {Net : Type 0} ⦃api : PetriNet Net⦄ where
  unfoldable pub add_place : String → Run Net PlaceRef
  add_place label net = ok (api.add_place label net)

  unfoldable pub add_transition : String → Run Net TransitionRef
  add_transition label net = ok (api.add_transition label net)

  unfoldable pub add_token : PlaceRef → ℕ → Run Net (Unit {0})
  add_token place_ref n net =
      and_then (expect token_error (api.add_token place_ref n net)) λ net'. ok (tt, net')

  unfoldable pub add_arc_place_transition : PlaceRef → TransitionRef → Run Net (Unit {0})
  add_arc_place_transition place_ref transition_ref net =
      and_then (expect arc_error (api.add_arc_place_transition place_ref transition_ref net))
        λ net'. ok (tt, net')

  unfoldable pub add_arc_transition_place : TransitionRef → PlaceRef → Run Net (Unit {0})
  add_arc_transition_place transition_ref place_ref net =
      and_then (expect arc_error (api.add_arc_transition_place transition_ref place_ref net))
        λ net'. ok (tt, net')

  unfoldable pub connect_places : PlaceRef → PlaceRef → String → Run Net TransitionRef
  unfolding add_transition add_arc_place_transition add_arc_transition_place
  connect_places start_place end_place transition_label = do
    transition ← add_transition transition_label
    add_arc_place_transition start_place transition
    add_arc_transition_place transition end_place
    pure transition
