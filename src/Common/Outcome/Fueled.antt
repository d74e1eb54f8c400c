-- ===== src/Common/Outcome/Fueled.antt =====
-- A run that may also use up its fuel, if `starving` allows it.
use mathlib.Core.Path.{◌≡◌, refl, subst}
use mathlib.Core.Bool.{Bool, true, false}
use granite.Common.Outcome.{Panic, Outcome, ok, panic, out_of_fuel, and_then}
use granite.Common.Outcome.Safe.{Safe, is_fault, is_internal, is_fault-is_internal}

pub data Fueled (starving : Bool) {A : Type 0} (Q : A → Type 0) : Outcome A → Type 0 where
  returns : {a : A} → Q a → Fueled starving Q (ok a)
  panics : {e : Panic} → is_fault e ≡ false → Fueled starving Q (panic e)
  starved : starving ≡ true → Fueled starving Q (panic out_of_fuel)

module _ {b : Bool} {A : Type 0} {Q : A → Type 0} where
  pub of_Safe : {o : Outcome A} → Safe Q o → Fueled b Q o
  of_Safe (Safe.returns q) = returns q
  of_Safe (Safe.panics h) = panics h

  pub bind :
      {B : Type 0} {R : B → Type 0} {o : Outcome A} {f : A → Outcome B}
      → Fueled b Q o
      → ((a : A) → Q a → Fueled b R (f a))
      → Fueled b R (and_then o f)
  bind (returns q) next = next _ q
  bind (panics h) next = panics h
  bind (starved e) next = starved e

  pub mono : {R : A → Type 0} {o : Outcome A} → Fueled b Q o → ((a : A) → Q a → R a) → Fueled b R o
  mono (returns q) weaken = returns (weaken _ q)
  mono (panics h) weaken = panics h
  mono (starved e) weaken = starved e

  -- a step that takes no fuel, and what comes after it
  pub first :
      {B : Type 0} {R : B → Type 0} {o : Outcome A} {f : A → Outcome B}
      → Safe Q o
      → ((a : A) → Q a → Fueled b R (f a))
      → Fueled b R (and_then o f)
  first (Safe.returns q) next = next _ q
  first (Safe.panics h) next = panics h

  -- such a step of a `do` block that works on a part of the state
  pub via :
      {B C : Type 0} {R : C → Type 0} {o : Outcome A} (g : A → B) (f : B → Outcome C)
      → Safe Q o
      → ((a : A) → Q a → Fueled b R (f (g a)))
      → Fueled b R (and_then (and_then o λ a. ok (g a)) f)
  via g f (Safe.returns q) next = next _ q
  via g f (Safe.panics h) next = panics h

pub of_result :
    {b : Bool} {A : Type 0} {Q : A → Type 0} {o : Outcome A} {a : A} → Fueled b Q o → o ≡ ok a → Q a
of_result {Q} {a} (returns {a = c} q) e = let same : c ≡ a = cc in subst Q same q
of_result (panics h) e = cc
of_result (starved h) e = cc

abbrev pub NotInternal {ℓ} : {A : Type ℓ} → Outcome A → Type 0
NotInternal (ok a) = Unit
NotInternal (panic e) = is_internal e ≡ false

pub Fueled-NotInternal :
    {b : Bool} {A : Type 0} {Q : A → Type 0} {o : Outcome A} → Fueled b Q o → NotInternal o
Fueled-NotInternal (returns q) = tt
Fueled-NotInternal (panics h) = is_fault-is_internal _ h
Fueled-NotInternal (starved e) = refl
