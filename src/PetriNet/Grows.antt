-- ===== src/PetriNet/Grows.antt =====
-- What every operation of the net keeps: places and transitions stay, a place keeps its tokens, and
-- a marking that is safe stays safe.
use granite.Common.{◌≤◌, ◌≡◌, refl, true, false, ◌||◌, ◌==◌, ◌∙◌, arith}
use granite.PetriNet.{PlaceRef, TransitionRef}
use granite.PetriNet.View.{View, with_place, with_transition, with_tokens, with_input, with_output}

abbrev pub PlaceIn : View → PlaceRef → Type 0
PlaceIn v p = v.is_place p ≡ true

abbrev pub TransitionIn : View → TransitionRef → Type 0
TransitionIn v t = v.is_transition t ≡ true

-- no place holds more than one token
abbrev pub IsSafe : View → Type 0
IsSafe v = (p : PlaceRef) → PlaceIn v p → v.tokens p ≤ 1

pub record Grows (v w : View) : Type 0 where
  pub places : (p : PlaceRef) → PlaceIn v p → PlaceIn w p
  pub transitions : (t : TransitionRef) → TransitionIn v t → TransitionIn w t
  pub tokens : (p : PlaceRef) → PlaceIn v p → w.tokens p ≡ v.tokens p
  pub safe : IsSafe v → IsSafe w

pub Grows-refl : (v : View) → Grows v v
Grows-refl v = record {
  places = λ p h. h;
  transitions = λ t h. h;
  tokens = λ p h. refl;
  safe = λ s. s;
}

pub Grows-trans : {u v w : View} → Grows u v → Grows v w → Grows u w
Grows-trans g h = record {
  places = λ p x. h.places p (g.places p x);
  transitions = λ t x. h.transitions t (g.transitions t x);
  tokens = λ p x. h.tokens p (g.places p x) ∙ g.tokens p x;
  safe = λ s. h.safe (g.safe s);
}

pub Grows-with_place : (p : PlaceRef) (v : View) → v.is_place p ≡ false → Grows v (with_place p v)
Grows-with_place p v fresh = record {
  places = λ q h. ground arith;
  transitions = λ t h. h;
  tokens = λ q h. ground arith;
  safe = λ s q h. ground (arith, s q);
}

-- a new place with one token
pub Grows-with_marked_place :
    (p : PlaceRef) (v : View) → v.is_place p ≡ false → Grows v (with_tokens p 1 (with_place p v))
Grows-with_marked_place p v fresh = record {
  places = λ q h. ground arith;
  transitions = λ t h. h;
  tokens = λ q h. ground arith;
  safe = λ s q h. ground (arith, s q);
}

pub Grows-with_transition : (t : TransitionRef) (v : View) → Grows v (with_transition t v)
Grows-with_transition t v = record {
  places = λ q h. h;
  transitions = λ u h. ground arith;
  tokens = λ q h. refl;
  safe = λ s. s;
}

pub Grows-with_input : (t : TransitionRef) (p : PlaceRef) (v : View) → Grows v (with_input t p v)
Grows-with_input t p v = record {
  places = λ q h. h;
  transitions = λ u h. h;
  tokens = λ q h. refl;
  safe = λ s. s;
}

pub Grows-with_output : (t : TransitionRef) (p : PlaceRef) (v : View) → Grows v (with_output t p v)
Grows-with_output t p v = record {
  places = λ q h. h;
  transitions = λ u h. h;
  tokens = λ q h. refl;
  safe = λ s. s;
}

-- two new places of which the first has one token
pub two_places-IsSafe :
    (v w : View) (a b : PlaceRef)
    → ((p : PlaceRef) → w.is_place p ≡ (p == a || p == b || v.is_place p))
    → w.tokens a ≡ 1
    → w.tokens b ≡ 0
    → ((p : PlaceRef) → PlaceIn v p → w.tokens p ≡ v.tokens p)
    → IsSafe v
    → IsSafe w
two_places-IsSafe v w a b places marked empty old s p h =
    ground (arith, places p, marked, empty, old p, s p)
