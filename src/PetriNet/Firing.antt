-- ===== src/PetriNet/Firing.antt =====
-- The token game on a net, as the model checker plays it: what the marking becomes when transitions
-- fire one after the other.
use granite.Common.{
  ℕ, ◌+◌, ◌-◌, ◌≤◌, ◌≡◌, refl, Bool, true, false, ◌&&◌, ◌||◌, Bool-cases, List, [], ◌∷◌, ◌++◌,
  arith,
}
use granite.PetriNet.{PlaceRef, TransitionRef}
use granite.PetriNet.View.{View}
use granite.PetriNet.Grows.{TransitionIn}

abbrev pub Marking : Type 0
Marking = PlaceRef → ℕ

-- every arc has the weight one
abbrev pub weight : Bool → ℕ
weight true = 1
weight false = 0

-- a transition of the net that finds a token on each of its inputs
pub record Enabled (v : View) (t : TransitionRef) (marking : Marking) : Type 0 where
  pub transition : TransitionIn v t
  pub inputs : (p : PlaceRef) → weight (v.input t p) ≤ marking p

abbrev pub fire : View → TransitionRef → Marking → Marking
fire v t marking p = marking p - weight (v.input t p) + weight (v.output t p)

-- the marking after a sequence of firings
abbrev pub fire_all : View → List TransitionRef → Marking → Marking
fire_all v [] marking = marking
fire_all v (t ∷ ts) marking = fire_all v ts (fire v t marking)

-- each transition of the sequence is enabled when its turn comes
abbrev pub Fires : View → List TransitionRef → Marking → Type 0
Fires v [] marking = Unit
Fires v (t ∷ ts) marking = Enabled v t marking × Fires v ts (fire v t marking)

-- how often the transitions that a test picks have fired
abbrev pub firings : (TransitionRef → Bool) → List TransitionRef → ℕ
firings test [] = 0
firings test (t ∷ ts) = weight (test t) + firings test ts

-- The tokens of a place: those it had and those given to it are those taken and those left.
pub tokens_balance :
    (v : View) (p : PlaceRef) (ts : List TransitionRef) (marking : Marking)
    → Fires v ts marking
    → fire_all v ts marking p + firings (λ t. v.input t p) ts
      ≡ marking p + firings (λ t. v.output t p) ts
tokens_balance v p [] marking h = refl
tokens_balance v p (t ∷ ts) marking h =
    omega (arith, h.0.inputs p, tokens_balance v p ts (fire v t marking) h.1)

-- two tests that agree pick the same firings
pub firings-eq :
    (f g : TransitionRef → Bool) (ts : List TransitionRef)
    → ((t : TransitionRef) → f t ≡ g t)
    → firings f ts ≡ firings g ts
firings-eq f g [] same = refl
firings-eq f g (t ∷ ts) same = rw (same t, firings-eq f g ts same) refl

-- two tests of which at most one picks a transition
pub firings_or :
    (f g : TransitionRef → Bool) (ts : List TransitionRef)
    → ((t : TransitionRef) → (f t && g t) ≡ false)
    → firings (λ t. f t || g t) ts ≡ firings f ts + firings g ts
firings_or f g [] apart = refl
firings_or f g (t ∷ ts) apart =
    ground (arith, apart t, Bool-cases (f t), Bool-cases (g t), firings_or f g ts apart)

pub firings_or_le :
    (f g : TransitionRef → Bool) (ts : List TransitionRef)
    → (firings (λ t. f t || g t) ts ≤ firings f ts + firings g ts)
      × (firings g ts ≤ firings (λ t. f t || g t) ts)
firings_or_le f g [] = omega arith
firings_or_le f g (t ∷ ts) =
    ground (arith, Bool-cases (f t), Bool-cases (g t), firings_or_le f g ts)

-- how often they have fired in the two parts of a sequence
pub firings-append :
    (test : TransitionRef → Bool) (ts us : List TransitionRef)
    → firings test (ts ++ us) ≡ firings test ts + firings test us
firings-append test [] us = omega arith
firings-append test (t ∷ ts) us = omega (arith, firings-append test ts us)

-- a sequence that fires, cut before one of its transitions
pub Fires-cut :
    (v : View) (ts : List TransitionRef) (t : TransitionRef) (us : List TransitionRef)
    (marking : Marking)
    → Fires v (ts ++ t ∷ us) marking
    → Fires v ts marking × Enabled v t (fire_all v ts marking)
Fires-cut v [] t us marking h = (tt, h.0)
Fires-cut v (u ∷ ts) t us marking h =
    let (fired, enabled) = Fires-cut v ts t us (fire v u marking) h.1 in ((h.0, fired), enabled)
