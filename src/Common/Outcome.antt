-- ===== src/Common/Outcome.antt =====
-- Code that may panic, and the state monad over it.
pub mod Returns
pub mod Safe
pub mod Fueled
use Prim.Native.String.{String}
use mathlib.Core.Option.{Option, none, some}

-- One constructor for each message of a `panic!`, `expect`, `assert!` or `unimplemented!`. The last
-- two are the model's own: a reference that names no object, and a recursion that used up its fuel.
pub data Panic : Type 0 where
  arc_error token_error : Panic
  empty_stack no_active_block invalid_active_block block_added_twice block_missing : Panic
  not_linked not_a_mutex not_a_mutex_guard not_a_join_handle not_a_condvar not_an_aggregate : Panic
  already_linked no_field no_field_projection : Panic
  argument_not_a_place no_function_argument function_pointer not_a_function closure_constant : Panic
  multiple_waits joined_twice no_handler unsupported_terminator no_main : Panic
  no_global_ctxt lola_not_found lola_error lola_not_utf8 lola_unknown_output : Panic
  dangling out_of_fuel : Panic

pub data Outcome {ℓ} (A : Type ℓ) : Type ℓ where
  ok : A → Outcome A
  panic : Panic → Outcome A

-- A `Result` whose error is a text.
pub data Fallible (A : Type 0) : Type 0 where
  success : A → Fallible A
  failed : String → Fallible A

abbrev pub and_then {ℓ κ} : {A : Type ℓ} {B : Type κ} → Outcome A → (A → Outcome B) → Outcome B
and_then (ok a) f = f a
and_then (panic e) f = panic e

-- `expect` and `unwrap_or_else`
abbrev pub expect {ℓ} : {A : Type ℓ} → Panic → Option A → Outcome A
expect e none = panic e
expect e (some a) = ok a

-- A method on the state `S`.
abbrev pub Run {ℓ} : Type ℓ → Type ℓ → Type ℓ
Run S A = S → Outcome (A × S)

module _ {ℓ} {S : Type ℓ} where
  abbrev pub pure : {A : Type ℓ} → A → Run S A
  pure a s = ok (a, s)

  abbrev pub fail : {A : Type ℓ} → Panic → Run S A
  fail e s = panic e

  -- A computation that does not touch the state.
  abbrev pub lift : {A : Type ℓ} → Outcome A → Run S A
  lift o s = and_then o λ a. ok (a, s)

  abbrev pub gets : {A : Type ℓ} → (S → A) → Run S A
  gets f s = ok (f s, s)

  infixl 5 ◌>>=◌ ◌>>◌
  abbrev pub ◌>>=◌ : {A B : Type ℓ} → Run S A → (A → Run S B) → Run S B
  ◌>>=◌ m f s = and_then (m s) λ (a, s'). f a s'

  abbrev pub ◌>>◌ : {A B : Type ℓ} → Run S A → Run S B → Run S B
  m >> n = m >>= λ _. n

abbrev pub modify : {S : Type 0} → (S → S) → Run S (Unit {0})
modify f s = ok (tt, f s)
