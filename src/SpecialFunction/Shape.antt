-- ===== src/SpecialFunction/Shape.antt =====
-- The net of a call that is translated without looking into the called function.
use granite.Common.{ℕ, String, ◌≡◌, ap, ◌∙◌, false}
use granite.Common.Outcome.Returns.{Returns, returns, bind}
use granite.PetriNet.{PlaceRef, TransitionRef, PetriNet}
use granite.PetriNet.View.{View, Laws, with_transition}
use granite.PetriNet.Operations.{connected, connect_places_lem}
use granite.Function.{Places, Transitions}
use granite.SpecialFunction.{call_foreign_function}
use granite.PetriNet.Grows.{PlaceIn}

-- From `v` to `w` a call is added: a new transition from the start to the end, and for a call with
-- a cleanup place a second new one from the start to that place.
pub data ForeignCall (v w : View) : Places → Transitions → Type 0 where
  plain :
      {s e : PlaceRef} {t : TransitionRef}
      → v.is_transition t ≡ false
      → w ≡ connected s e t v
      → ForeignCall v w (Places.basic s e) (Transitions.basic t)
  unwinding :
      {s e c : PlaceRef} {t u : TransitionRef}
      → v.is_transition t ≡ false
      → (with_transition t v).is_transition u ≡ false
      → w ≡ connected s c u (connected s e t v)
      → ForeignCall v w (Places.with_cleanup s e c) (Transitions.with_cleanup t u)

abbrev pub AllIn : View → Places → Type 0
AllIn v (Places.basic s e) = PlaceIn v s × PlaceIn v e
AllIn v (Places.with_cleanup s e c) = PlaceIn v s × PlaceIn v e × PlaceIn v c

module _ {Net : Type 0} ⦃api : PetriNet Net⦄ (L : Laws Net) where
  open L use {view}

  -- On places of the net the call does not panic. It adds one new transition from the start to the
  -- end place, or, with a cleanup place, two different ones, the second to the cleanup place; it
  -- returns them, and changes nothing else.
  pub call_foreign_function-ForeignCall :
      (function_name : String) (index : ℕ) (places : Places) (n : Net)
      → AllIn (view n) places
      → Returns
          (λ (ts, n'). ForeignCall (view n) (view n') places ts)
          (call_foreign_function function_name index places n)
  unfolding call_foreign_function
  call_foreign_function-ForeignCall f i (Places.basic s e) n h =
      bind (connect_places_lem L s e _ n h.0 h.1) λ (t, n₁) (fresh, v₁). returns (plain fresh v₁)
  call_foreign_function-ForeignCall f i (Places.with_cleanup s e c) n h =
      bind (connect_places_lem L s e _ n h.0 h.1) λ (t, n₁) (fresh, v₁).
        bind (connect_places_lem L s c _ n₁ (rw v₁ h.0) (rw v₁ h.2)) λ (u, n₂) (fresh₂, v₂).
          returns (unwinding fresh (rw v₁ at fresh₂) (v₂ ∙ ap (connected s c u) v₁))
