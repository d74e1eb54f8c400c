-- ===== src/PetriNet/View.antt =====
-- What can be observed of a net, and what the program relies on of `netcrab`.
use granite.Common.{
  ℕ, ◌+◌, ◌^◌, ◌<◌, String, ◌≡◌, Bool, true, false, ◌&&◌, some, ◌==◌, if◌then◌else◌,
}
use granite.PetriNet.{PlaceRef, TransitionRef, PetriNet}

-- Places, transitions, the marking, and the arcs into and out of each transition.
pub record View : Type 0 where
  pub is_place : PlaceRef → Bool
  pub is_transition : TransitionRef → Bool
  pub tokens : PlaceRef → ℕ
  pub input : TransitionRef → PlaceRef → Bool
  pub output : TransitionRef → PlaceRef → Bool

abbrev pub empty : View
empty = record {
  is_place = λ p. false;
  is_transition = λ t. false;
  tokens = λ p. 0;
  input = λ t p. false;
  output = λ t p. false;
}

-- a new place has no token and no arc
abbrev pub with_place : PlaceRef → View → View
with_place p v = record v {
  is_place = λ q. if q == p then true else v.is_place q;
  tokens = λ q. if q == p then 0 else v.tokens q;
  input = λ t q. if q == p then false else v.input t q;
  output = λ t q. if q == p then false else v.output t q;
}

-- a new transition has no arc
abbrev pub with_transition : TransitionRef → View → View
with_transition t v = record v {
  is_transition = λ u. if u == t then true else v.is_transition u;
  input = λ u q. if u == t then false else v.input u q;
  output = λ u q. if u == t then false else v.output u q;
}

abbrev pub with_tokens : PlaceRef → ℕ → View → View
with_tokens p n v = record v { tokens = λ q. if q == p then v.tokens q + n else v.tokens q }

abbrev pub with_input : TransitionRef → PlaceRef → View → View
with_input t p v = record v { input = λ u q. if u == t && q == p then true else v.input u q }

abbrev pub with_output : TransitionRef → PlaceRef → View → View
with_output t p v = record v { output = λ u q. if u == t && q == p then true else v.output u q }

abbrev pub usize_mod : ℕ
usize_mod = 2 ^ 64

-- The documented behaviour: a new place or transition is a new one, an arc can be added between a
-- place and a transition of the net, tokens to a place of the net if their number fits a `usize`,
-- and nothing else changes.
pub record Laws (Net : Type 0) ⦃api : PetriNet Net⦄ : Type 0 where
  pub view : Net → View
  pub new_lem : view api.new ≡ empty
  pub place_fresh : (label : String) (n : Net) → (view n).is_place (api.add_place label n).0 ≡ false
  pub add_place_lem :
      (label : String) (n : Net)
      → view (api.add_place label n).1 ≡ with_place (api.add_place label n).0 (view n)
  pub transition_fresh :
      (label : String) (n : Net) → (view n).is_transition (api.add_transition label n).0 ≡ false
  pub add_transition_lem :
      (label : String) (n : Net)
      → view (api.add_transition label n).1
        ≡ with_transition (api.add_transition label n).0 (view n)
  pub add_token_lem :
      (p : PlaceRef) (k : ℕ) (n : Net)
      → (view n).is_place p ≡ true
      → (view n).tokens p + k < usize_mod
      → (n' : Net) × (api.add_token p k n ≡ some n') × (view n' ≡ with_tokens p k (view n))
  pub add_input_lem :
      (p : PlaceRef) (t : TransitionRef) (n : Net)
      → (view n).is_place p ≡ true
      → (view n).is_transition t ≡ true
      → (n' : Net) × (api.add_arc_place_transition p t n ≡ some n')
        × (view n' ≡ with_input t p (view n))
  pub add_output_lem :
      (t : TransitionRef) (p : PlaceRef) (n : Net)
      → (view n).is_transition t ≡ true
      → (view n).is_place p ≡ true
      → (n' : Net) × (api.add_arc_transition_place t p n ≡ some n')
        × (view n' ≡ with_output t p (view n))
