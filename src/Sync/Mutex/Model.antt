-- ===== src/Sync/Mutex/Model.antt =====
-- The net of a mutex: `Mutex::new` of src/translator/sync/mutex.rs.
use granite.Common.{ℕ, ◌≡◌, refl, ap, ◌∙◌, false, [], arith}
use granite.Common.Outcome.Returns.{Returns, returns, bind}
use granite.PetriNet.{PetriNet}
use granite.PetriNet.View.{Laws, with_place, with_tokens}
use granite.PetriNet.Operations.{add_place_lem, add_token_lem}
use granite.Sync.Mutex.{new}

module _ {Net : Type 0} ⦃api : PetriNet Net⦄ (L : Laws Net) where
  open L use {view}

  -- Creating a mutex never panics. It adds one place, with one token, and nothing else, and no
  -- transition sets its value yet.
  pub new-unlocked :
      (index : ℕ) (n : Net)
      → Returns
          (λ (m, n').
            ((view n).is_place m.mutex ≡ false)
            × (view n' ≡ with_tokens m.mutex 1 (with_place m.mutex (view n)))
            × (m.deref_mut ≡ []))
          (new index n)
  unfolding new
  new-unlocked index n = bind (add_place_lem L _ n) λ (p, n₁) (fresh, e₁).
      bind (add_token_lem L p 1 n₁ (rw e₁ (ground arith)) (rw e₁ (ground arith)))
        λ (_, n₂) e₂. returns (fresh, e₂ ∙ ap (with_tokens p 1) e₁, refl)
