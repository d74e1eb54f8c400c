-- ===== src/Safety/Sync.antt =====
-- The dispatch of src/translator/sync.rs.
use granite.Common.{
  ℕ, String, ◌≡◌, Bool, true, false, ◌||◌, inl, inr, Bool-cases, List, str_eq, arith,
}
use granite.Common.Outcome.Safe
use granite.Common.Outcome.Safe.{Safe, panics}
use granite.PetriNet.{PetriNet}
use granite.PetriNet.View.{Laws}
use granite.Mir.{Place, Operand}
use granite.Function.{Places}
use granite.Context.{Context}
use granite.Sync.{is_supported_function, call_function}
use granite.Safety.World.{PlacesIn}
use granite.Safety.Step.{ContextIn, TaskStep, TaskStep-none}
use granite.Safety.Mutex.{call_lock-Safe, call_new_mutex-Safe}
use granite.Safety.Condvar.{call_new_condvar-Safe, call_notify_one-Safe, call_wait-Safe}
use granite.Safety.Thread.{call_join-Safe}

abbrev is_wait : String → Bool
is_wait f = str_eq f "std::sync::Condvar::wait" || str_eq f "std::sync::Condvar::wait_while"

module _ {Net : Type 0} ⦃api : PetriNet Net⦄ (L : Laws Net) where
  open L use {view}

  -- Every supported function but `spawn`, which has its own branch before, has a handler.
  pub call_function-Safe :
      (f : String) (i : ℕ) (args : List Operand) (d : Place) (places : Places) (c : Context Net)
      → is_supported_function f ≡ true
      → str_eq f "std::thread::spawn" ≡ false
      → ContextIn L c
      → PlacesIn (view c.net) places
      → Safe (λ (t, c'). TaskStep L c t c') (call_function f i args d places c)
  unfolding call_function is_supported_function
  call_function-Safe f i args d places c supported not_spawn h hp =
      elim (Bool-cases (str_eq f "std::sync::Condvar::new")) [
        | inl e₁ ↦ rw e₁ (
            Safe.bind (call_new_condvar-Safe L f i d places c h hp)
              λ _ s. Safe.returns (TaskStep-none L s))
        | inr e₁ ↦ rw e₁ (elim (Bool-cases (str_eq f "std::sync::Condvar::notify_one")) [
          | inl e₂ ↦ rw e₂ (
              Safe.bind (call_notify_one-Safe L f i args places c h hp)
                λ _ s. Safe.returns (TaskStep-none L s))
          | inr e₂ ↦ rw e₂ (elim (Bool-cases (is_wait f)) [
            | inl e₃ ↦
                rw e₃ (Safe.bind (call_wait-Safe L f i args d places c h hp) λ _ s. Safe.returns s)
            | inr e₃ ↦ rw e₃ (elim (Bool-cases (str_eq f "std::sync::Mutex::<T>::lock")) [
              | inl e₄ ↦ rw e₄ (
                  Safe.bind (call_lock-Safe L f i args d places c h hp)
                    λ _ s. Safe.returns (TaskStep-none L s))
              | inr e₄ ↦ rw e₄ (elim (Bool-cases (str_eq f "std::sync::Mutex::<T>::new")) [
                | inl e₅ ↦
                    rw e₅
                      (Safe.bind (call_new_mutex-Safe L f i d places c h hp) λ _ s. Safe.returns s)
                | inr e₅ ↦
                    rw e₅ (elim (Bool-cases (str_eq f "std::thread::JoinHandle::<T>::join")) [
                      | inl e₆ ↦ rw e₆ (
                          Safe.bind (call_join-Safe L f i args places c h hp)
                            λ _ s. Safe.returns (TaskStep-none L s))
                      | inr e₆ ↦ ground arith
                    ])
              ])
            ])
          ])
        ])
      ]
