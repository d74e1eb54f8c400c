-- ===== src/Common/Outcome/Returns.antt =====
-- A run that returns, with a property of what it returns.
use mathlib.Core.Path.{◌≡◌, refl, subst}
use mathlib.Core.Option.{Option, none, some}
use granite.Common.Outcome.{Outcome, ok, panic, Panic, expect, and_then}

pub data Returns {A : Type 0} (Q : A → Type 0) : Outcome A → Type 0 where
  returns : {a : A} → Q a → Returns Q (ok a)

module _ {A : Type 0} {Q : A → Type 0} where
  pub bind :
      {B : Type 0} {R : B → Type 0} {o : Outcome A} {f : A → Outcome B}
      → Returns Q o
      → ((a : A) → Q a → Returns R (f a))
      → Returns R (and_then o f)
  bind (returns q) next = next _ q

  pub mono : {R : A → Type 0} {o : Outcome A} → Returns Q o → ((a : A) → Q a → R a) → Returns R o
  mono (returns q) weaken = returns (weaken _ q)

  -- an operation of the net that gives a result
  pub of_some : (e : Panic) {o : Option A} {a : A} → o ≡ some a → Q a → Returns Q (expect e o)
  of_some e h q = rw h (returns q)

  -- the result, with the equation
  pub result : {o : Outcome A} → Returns Q o → (a : A) × (o ≡ ok a) × Q a
  result (returns q) = (_, refl, q)

  -- what is known of a result that is at hand
  pub of_result : {o : Outcome A} {a : A} → Returns Q o → o ≡ ok a → Q a
  of_result {a} (returns {a = b} q) e = let same : b ≡ a = cc in subst Q same q

-- a run of two steps that returns
pub and_then_ok :
    {A B : Type 0} (o : Outcome A) (f : A → Outcome B) {b : B}
    → and_then o f ≡ ok b
    → (a : A) × (o ≡ ok a) × (f a ≡ ok b)
and_then_ok (ok a) f e = (a, refl, e)
and_then_ok (panic e') f e = cc

pub ok-injective : {A : Type 0} {a b : A} → ◌≡◌ {A = Outcome A} (ok a) (ok b) → a ≡ b
ok-injective e = cc

-- a value that was expected, and was there
pub expect_ok :
    {A : Type 0} (refusal : Panic) (o : Option A) {a : A} → expect refusal o ≡ ok a → o ≡ some a
expect_ok refusal none e = cc
expect_ok refusal (some a) e = cc
