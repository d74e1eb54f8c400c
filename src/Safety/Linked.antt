-- ===== src/Safety/Linked.antt =====
-- The postprocessing of a whole program, src/translator.rs: which mutexes each call of `wait` is
-- linked to.
use granite.Common.{ℕ, ◌≡◌, refl, ap, ◌∙◌, sym, true, [], length, arith, All}
use granite.Common.Outcome.{ok, and_then}
use granite.Common.Outcome.Returns.{and_then_ok, ok-injective}
use granite.Common.Outcome.Fueled
use granite.Common.Outcome.Fueled.{of_Safe}
use granite.PetriNet.{PetriNet}
use granite.PetriNet.View.{Laws}
use granite.Mir.{TyCtxt}
use granite.Translator.{Translator, new, get_result}
use granite.Translator.Main.{translate, run}
use granite.Translator.Threads.{translate_all, before_postprocessing, run-translate_all}
use granite.Translator.Postprocessing.{run_tasks, translation_postprocessing}
use granite.Translator.Postprocessing.Links.{expected_links, make_links, run_tasks-make_links}
use granite.Safety.Listed.{Registered, Listed, down_from}
use granite.Safety.Main.{AnyFunction, translate_all-Ends}
use granite.Safety.Program.{new-Inv}

module _ {Net : Type 0} ⦃api : PetriNet Net⦄ (L : Laws Net) (depth rounds : ℕ) (tcx : TyCtxt) where
  postprocessing-make_links :
      (s : Translator Net) (n : Net)
      → Listed s.objects s.postprocessing
      → and_then (translation_postprocessing s) (λ (_, s'). ok (get_result s').0) ≡ ok n
      → make_links s.objects
          (expected_links (down_from (length s.objects.mutexes)) s.postprocessing)
          s.net
        ≡ ok (tt, n)
  unfolding translation_postprocessing get_result
  postprocessing-make_links s n h e =
      let ((_, s'), e₁, f₁) = and_then_ok (translation_postprocessing s) _ e in
      let ((_, n'), e₂, f₂) =
        and_then_ok (run_tasks (length s.postprocessing) s.objects s.postprocessing [] s.net) _
          e₁ in
      let same : n' ≡ n = ap (λ r. r.1.net) (ok-injective f₂) ∙ ok-injective f₁ in
      sym (ap (λ rs. make_links s.objects (expected_links rs s.postprocessing) s.net) h.1)
      ∙ sym (
          run_tasks-make_links s.objects (length s.postprocessing) s.postprocessing (omega arith)
            h.0 [] s.net)
      ∙ e₂
      ∙ ap (λ m. ok (tt, m)) same

  -- When the translation gives a net, then all threads were translated before, and the net comes
  -- from the state `s` in which they are: for each task of `s` that a call of `wait` left, in the
  -- order of the tasks, and for each mutex of `s`, from the last to the first, one
  -- `link_to_condvar` of that mutex with the number and the nodes of that call, and nothing else. And
  -- each condition variable of `s` that is linked to a call of `wait` has its task among them.
  pub translate-linked :
      (n : Net)
      → translate depth rounds tcx ≡ ok n
      → (s : Translator Net) × (before_postprocessing depth rounds tcx ≡ ok s)
        × (make_links s.objects
              (expected_links (down_from (length s.objects.mutexes)) s.postprocessing)
              s.net
            ≡ ok (tt, n))
        × All (Registered s.postprocessing) s.objects.condvars
  unfolding translate
  translate-linked n e =
      let (s, e₁, f₁) = and_then_ok (new tcx) _ e in
      let (h, _, _, _) = Fueled.of_result {b = true} (of_Safe (new-Inv L tcx AnyFunction)) e₁ in
      let ((_, s'), e₂, f₂) = and_then_ok (run depth rounds s) _ f₁ in
      let ((_, s₁), e₃, f₃) =
        and_then_ok (translate_all depth rounds s) _
          (sym (run-translate_all depth rounds s) ∙ e₂) in
      let (h₁, _) = Fueled.of_result (translate_all-Ends L tcx depth rounds s h) e₃ in
      (s₁, rw (e₁, e₃) refl, postprocessing-make_links s₁ n h₁.listed (rw f₃ f₂), h₁.listed.2)
