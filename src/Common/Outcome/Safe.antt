-- ===== src/Common/Outcome/Safe.antt =====
-- A run that may panic only for a reason that lies in the translated program.
use mathlib.Core.Path.{◌≡◌, refl}
use mathlib.Core.Bool.{Bool, true, false, ◌||◌}
use native.Mathlib.Omega.{arith}
use mathlib.Core.Option.{Option, none, some}
use granite.Common.Tests.{if◌then◌else◌}
use granite.Common.Outcome.{
  Panic, Outcome, ok, panic, expect, and_then, arc_error, token_error, empty_stack,
  invalid_active_block, block_added_twice, block_missing, no_handler, dangling, out_of_fuel,
}
use granite.Common.Outcome.Returns.{Returns}

-- The panics that would be faults of the translator itself: an arc or a token that the net refuses,
-- an empty call stack, a lost or doubled block, a sync function without a handler, and a reference
-- to no object.
abbrev pub is_internal : Panic → Bool
is_internal arc_error = true
is_internal token_error = true
is_internal empty_stack = true
is_internal invalid_active_block = true
is_internal block_added_twice = true
is_internal block_missing = true
is_internal no_handler = true
is_internal dangling = true
is_internal _ = false

abbrev is_starved : Panic → Bool
is_starved out_of_fuel = true
is_starved _ = false

-- The translation of a recursive program may use up its fuel, what comes before a recursion not.
abbrev pub is_fault : Panic → Bool
is_fault e = is_starved e || is_internal e

pub is_fault-is_internal : (e : Panic) → is_fault e ≡ false → is_internal e ≡ false
is_fault-is_internal e h = ground arith

pub data Safe {A : Type 0} (Q : A → Type 0) : Outcome A → Type 0 where
  returns : {a : A} → Q a → Safe Q (ok a)
  panics : {e : Panic} → is_fault e ≡ false → Safe Q (panic e)

module _ {A : Type 0} {Q : A → Type 0} where
  pub bind :
      {B : Type 0} {R : B → Type 0} {o : Outcome A} {f : A → Outcome B}
      → Safe Q o
      → ((a : A) → Q a → Safe R (f a))
      → Safe R (and_then o f)
  bind (Safe.returns q) next = next _ q
  bind (panics h) next = panics h

  pub mono : {R : A → Type 0} {o : Outcome A} → Safe Q o → ((a : A) → Q a → R a) → Safe R o
  mono (Safe.returns q) weaken = Safe.returns (weaken _ q)
  mono (panics h) weaken = panics h

  -- the result, with the equation
  pub with_result : {o : Outcome A} → Safe Q o → Safe (λ a. (o ≡ ok a) × Q a) o
  with_result (Safe.returns q) = Safe.returns (refl, q)
  with_result (panics h) = panics h

  pub of_Returns : {o : Outcome A} → Returns Q o → Safe Q o
  of_Returns (Returns.returns q) = Safe.returns q

  -- a test of the program's own that may fail
  pub of_expect :
      (e : Panic) (o : Option A)
      → is_fault e ≡ false
      → ((a : A) → o ≡ some a → Q a)
      → Safe Q (expect e o)
  of_expect e none h q = panics h
  of_expect e (some a) h q = Safe.returns (q a refl)

  -- the two branches of a test, each with what the test says
  pub branch :
      (b : Bool) {x y : Outcome A}
      → (b ≡ true → Safe Q x)
      → (b ≡ false → Safe Q y)
      → Safe Q (if b then x else y)
  branch true f g = f refl
  branch false f g = g refl

module _ {A B : Type 0} {Q : A → Type 0} where
  -- A step of a `do` block that works on a part of the state, and what comes after it. The two
  -- functions are read off the goal: write `_`.
  pub via :
      {C : Type 0} {R : C → Type 0} {o : Outcome A} (g : A → B) (f : B → Outcome C)
      → Safe Q o
      → ((a : A) → Q a → Safe R (f (g a)))
      → Safe R (and_then (and_then o λ a. ok (g a)) f)
  via g f (Safe.returns q) next = next _ q
  via g f (panics h) next = panics h

  -- the same at the end of the block
  pub last :
      {R : B → Type 0} {o : Outcome A} (g : A → B)
      → Safe Q o
      → ((a : A) → Q a → R (g a))
      → Safe R (and_then o λ a. ok (g a))
  last g (Safe.returns q) next = Safe.returns (next _ q)
  last g (panics h) next = panics h
