-- ===== src/Safety/Threads.antt =====
-- One round of the loop over the threads, src/translator.rs.
use granite.Common.{◌≡◌, refl, Bool, false, Option, none, some, List, [], ◌∷◌, ℕ, arith, All}
use granite.Common.Outcome.{ok}
use granite.Common.Outcome.Safe.{Safe}
use granite.Common.Outcome.Fueled.{Fueled, via}
use granite.PetriNet.{PetriNet}
use granite.PetriNet.View.{Laws}
use granite.PetriNet.Grows.{PlaceIn, Grows, Grows-refl, Grows-trans}
use granite.Mir.{DefId, TyCtxt}
use granite.Objects.{ThreadRef, Objects}
use granite.Translator.{Translator}
use granite.Translator.Main.{translate_thread, next_thread, pop_thread}
use granite.Safety.ThreadDefs.{def_at}
use granite.Safety.World.{Spans-trans, ThreadIn-Grows}
use granite.Safety.Net.{prepare_for_translation-GrowsTo}
use granite.Safety.Objects.{thread_at-Safe}
use granite.Safety.Thread.{move_sync_variables-Safe}
use granite.Safety.Step.{on_memory-Safe}
use granite.Safety.Allowed.{Ranked}
use granite.Safety.Bodies.{Below, outline, translate_top-Ends, push_called-Safe}
use granite.Safety.State.{
  Inv, Moves, Nothing, first, with_context-Safe, on_translator_net-Safe, set_program_panic-Safe,
  with_threads, ThreadRefIn,
}

module _ {Net : Type 0} ⦃api : PetriNet Net⦄ (L : Laws Net) {b : Bool} {program : TyCtxt}
    {rank : DefId → ℕ} (ranked : b ≡ false → Ranked program rank) (P : DefId → Type 0) where
  open L use {view}

  -- the function of a thread, of a rank within the fuel, and what its body may spawn
  abbrev Fits : ℕ → DefId → Type 0
  Fits depth d = Below b rank depth d × ((e : DefId) → Below b rank (rank d) e → P e)

  pub translate_thread-Ends :
      (depth : ℕ) (r : ThreadRef) (s : Translator Net)
      → Inv L (outline program P []) s
      → ThreadRefIn s.objects r
      → ((d : DefId) → def_at s.objects.threads r ≡ some d → Fits depth d)
      → Fueled b (Moves L (outline program P []) s (Nothing L)) (translate_thread depth r s)
  unfolding translate_thread
  translate_thread-Ends depth r s h lt fits =
      let n = outline program P [] in
      via _ _ (thread_at-Safe s.objects h.objects r lt) λ t (ht, runs).
        first L
          (on_translator_net-Safe L n s h
            (λ (d, a, c) v. PlaceIn v a × PlaceIn v c × (d ≡ t.def_id)) _
            (prepare_for_translation-GrowsTo L t s.net ht))
          λ ((d, a, c), s₁) m₁.
            first L (set_program_panic-Safe L n s₁ m₁.inv c m₁.result.1) λ (_, s₂) m₂.
              first L
                (push_called-Safe L d [] a c s₂ m₂.inv (m₂.grows.places a m₁.result.0)
                  (m₂.grows.places c m₁.result.1))
                λ (_, s₃) m₃.
                  first L
                    (with_context-Safe L d n s₃ m₃.inv (Nothing L) _ λ x hx g p.
                      on_memory-Safe L x hx (
                        move_sync_variables-Safe x.store.objects t s.tcx x.store.memory
                          (ThreadIn-Grows
                            (Grows-trans m₁.grows (Grows-trans m₂.grows (Grows-trans m₃.grows g)))
                            (Spans-trans m₁.spans (Spans-trans m₂.spans (Spans-trans m₃.spans p))) t
                            ht)
                          hx.memory))
                    λ (_, s₄) m₄.
                      let (enough, may) = fits d (rw m₁.result.2 runs) in
                      translate_top-Ends ranked L P depth d [] s₄ enough may m₄.inv

abbrev pub OptionRefIn : Objects → Option ThreadRef → Type 0
OptionRefIn o none = Unit
OptionRefIn o (some r) = ThreadRefIn o r

pub some_ref :
    (o : Objects) (r : Option ThreadRef) (r' : ThreadRef)
    → r ≡ some r'
    → OptionRefIn o r
    → ThreadRefIn o r'
some_ref o none r' e h = cc
some_ref o (some r) r' e h = ground (arith, h)

module _ {Net : Type 0} ⦃api : PetriNet Net⦄ (L : Laws Net) (program : TyCtxt)
    (P : DefId → Type 0) where
  open L use {view}

  next_thread-Safe :
      (s : Translator Net) (threads : List ThreadRef)
      → Inv L (outline program P []) s
      → All (ThreadRefIn s.objects) threads
      → Safe
          (λ (r, s').
            OptionRefIn s'.objects r
            × Inv L (outline program P []) s'
            × Grows (view s.net) (view s'.net))
          (next_thread threads s)
  unfolding next_thread
  next_thread-Safe s [] h hs = Safe.returns (tt, h, Grows-refl (view s.net))
  next_thread-Safe s (r ∷ threads) h hs =
      Safe.returns
        (hs.0, with_threads L (outline program P []) s h threads hs.1, Grows-refl (view s.net))

  -- the next thread, if there is one, is an object
  pub pop_thread-Safe :
      (s : Translator Net)
      → Inv L (outline program P []) s
      → Safe
          (λ (r, s').
            OptionRefIn s'.objects r
            × Inv L (outline program P []) s'
            × Grows (view s.net) (view s'.net))
          (pop_thread s)
  unfolding pop_thread
  pop_thread-Safe s h = next_thread-Safe s s.threads h h.threads

module _ {Net : Type 0} ⦃api : PetriNet Net⦄ (s : Translator Net) where
  next_thread-first :
      (threads : List ThreadRef) (r : ThreadRef) (rest : List ThreadRef)
      → threads ≡ r ∷ rest
      → next_thread threads s ≡ ok (some r, record s { threads = rest })
  unfolding next_thread
  next_thread-first [] r rest e = cc
  next_thread-first (q ∷ threads) r rest e = ground (arith, e)

  next_thread-none :
      (threads : List ThreadRef) → threads ≡ [] → next_thread threads s ≡ ok (none, s)
  unfolding next_thread
  next_thread-none [] e = refl
  next_thread-none (q ∷ threads) e = cc

  pub pop_thread-first :
      (r : ThreadRef) (rest : List ThreadRef)
      → s.threads ≡ r ∷ rest
      → pop_thread s ≡ ok (some r, record s { threads = rest })
  unfolding pop_thread
  pop_thread-first r rest e = next_thread-first s.threads r rest e

  pub pop_thread-none : s.threads ≡ [] → pop_thread s ≡ ok (none, s)
  unfolding pop_thread
  pop_thread-none e = next_thread-none s.threads e
