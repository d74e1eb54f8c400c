-- ===== src/Safety/Program.antt =====
-- The translation of a whole program, `Translator::new` and `run` of src/translator.rs.
use granite.Common.{sym, [], true, ℕ, ◌≡◌, ◌≢◌, refl, subst, false, arith, ==_refl, ap, ◌∙◌}
use granite.Common.Outcome.{ok, panic, Panic}
use granite.Common.Outcome.Returns.{Returns, bind}
use granite.Common.Outcome.Safe
use granite.Common.Outcome.Safe.{Safe, is_internal, of_Returns}
use granite.Common.Outcome.Fueled
use granite.Common.Outcome.Fueled.{Fueled, NotInternal, Fueled-NotInternal}
use granite.PetriNet.{PlaceRef, PetriNet}
use granite.PetriNet.Grows.{PlaceIn, IsSafe, Grows}
use granite.PetriNet.View.{View, Laws, empty, with_place, with_tokens}
use granite.PetriNet.Operations.{add_place_lem, add_token_lem}
use granite.Stack
use granite.Mir.{DefId, TyCtxt}
use granite.Translator.{Translator, with_net, initial_places, new, get_result}
use granite.Translator.Main.{translate}
use granite.Translator.Postprocessing.Order.{mutexes_of}
use granite.Safety.State.{Inv}
use granite.Safety.Bodies.{outline}
use granite.Safety.Main.{AnyFunction, run-Ends}

-- The marking with which the model checker starts: one token on the start of the program, none on
-- its end and its panic, and no place with more than one.
pub record Started (v : View) (start end panicked : PlaceRef) : Type 0 where
  pub start_place : PlaceIn v start
  pub end_place : PlaceIn v end
  pub panic_place : PlaceIn v panicked
  pub start_marked : v.tokens start ≡ 1
  pub end_empty : v.tokens end ≡ 0
  pub panic_empty : v.tokens panicked ≡ 0
  pub safe : IsSafe v

Started-Grows :
    {v w : View} {start end panicked : PlaceRef}
    → Grows v w
    → Started v start end panicked
    → Started w start end panicked
Started-Grows {start} {end} {panicked} g h = record {
  start_place = g.places start h.start_place;
  end_place = g.places end h.end_place;
  panic_place = g.places panicked h.panic_place;
  start_marked = g.tokens start h.start_place ∙ h.start_marked;
  end_empty = g.tokens end h.end_place ∙ h.end_empty;
  panic_empty = g.tokens panicked h.panic_place ∙ h.panic_empty;
  safe = g.safe h.safe;
}

initial-Started :
    (s e p : PlaceRef)
    → s ≢ e
    → s ≢ p
    → e ≢ p
    → Started (with_tokens s 1 (with_place s (with_place e (with_place p empty)))) s e p
initial-Started s e p d₁ d₂ d₃ = record {
  start_place = ground arith;
  end_place = ground arith;
  panic_place = ground arith;
  start_marked = ground arith;
  end_empty = ground arith;
  panic_empty = ground arith;
  safe = λ q h. ground arith;
}

module _ {Net : Type 0} ⦃api : PetriNet Net⦄ (L : Laws Net) where
  open L use {view}

  -- The net of a new translator has three different places and no transition; the program start
  -- holds one token, and the other two hold none.
  pub initial_places_lem :
      Returns
        (λ ((start, end, panicked), n).
          (start ≢ end)
          × (start ≢ panicked)
          × (end ≢ panicked)
          × (view n
              ≡ with_tokens start 1
                  (with_place start (with_place end (with_place panicked empty)))))
        (initial_places api.new)
  unfolding initial_places
  initial_places_lem = bind (add_place_lem L _ api.new) λ (p, n₁) (fresh₁, e₁).
      bind (add_place_lem L _ n₁) λ (e, n₂) (fresh₂, e₂).
        bind (add_place_lem L _ n₂) λ (s, n₃) (fresh₃, e₃).
          let v₁ = e₁ ∙ ap (with_place p) L.new_lem in
          let v₂ = e₂ ∙ ap (with_place e) v₁ in
          let v₃ = e₃ ∙ ap (with_place s) v₂ in
          bind (add_token_lem L s 1 n₃ (rw (v₃, ==_refl) refl) (rw (v₃, ==_refl) (omega arith)))
            λ (_, n₄) e₄.
              let old₂ : (with_place p empty).is_place e ≡ false =
                subst (λ v. v.is_place e ≡ false) v₁ fresh₂ in
              let old₃ : (with_place e (with_place p empty)).is_place s ≡ false =
                subst (λ v. v.is_place s ≡ false) v₂ fresh₃ in
              Returns.returns (
                (λ same. ground (arith, old₃)),
                (λ same. ground (arith, old₃)),
                (λ same. ground (arith, old₂)),
                e₄ ∙ ap (with_tokens s 1) v₃,
              )

  -- No thread waits, and no function is on the stack.
  pub new-Inv :
      (tcx : TyCtxt) (P : DefId → Type 0)
      → Safe
          (λ s.
            Inv L (outline tcx P []) s
            × (s.threads ≡ [])
            × ((s.program_start ≢ s.program_end)
                × (s.program_start ≢ s.program_panic)
                × (s.program_end ≢ s.program_panic))
            × Started (view s.net) s.program_start s.program_end s.program_panic)
          (new tcx)
  unfolding new with_net Stack.new mutexes_of
  new-Inv tcx P = Safe.bind (of_Returns initial_places_lem) λ ((s, e, p), n) (d₁, d₂, d₃, v).
      let started : Started (view n) s e p =
        subst (λ w. Started w s e p) (sym v) (initial-Started s e p d₁ d₂ d₃) in
      Safe.returns (
        record {
          program = refl;
          program_start = started.start_place;
          program_end = started.end_place;
          program_panic = started.panic_place;
          functions = tt;
          threads = tt;
          tasks = tt;
          listed = (tt, refl, tt);
          objects = record { mutexes = tt; condvars = tt; threads = tt };
        },
        refl,
        (d₁, d₂, d₃),
        started,
      )

  -- the net `n` starts well, with the places that a new translator for the program has
  abbrev pub HasStarted : TyCtxt → Net → Type 0
  HasStarted tcx n =
      (s : Translator Net) × (new tcx ≡ ok s)
      × ((s.program_start ≢ s.program_end)
          × (s.program_start ≢ s.program_panic)
          × (s.program_end ≢ s.program_panic))
      × Started (view n) s.program_start s.program_end s.program_panic

  translate-Ends :
      (depth rounds : ℕ) (tcx : TyCtxt)
      → Fueled true (HasStarted tcx) (translate {Net = Net} depth rounds tcx)
  unfolding translate get_result
  translate-Ends depth rounds tcx =
      Fueled.first (Safe.with_result (new-Inv tcx AnyFunction)) λ s (made, (h, _, apart, started)).
        Fueled.bind (run-Ends L tcx depth rounds s h)
          λ (_, s') g. Fueled.returns (s, made, apart, Started-Grows g started)

  -- Whatever the program, the translation does not fail on its own account: when it panics, the
  -- reason is not an arc or a token that the net refuses, an empty call stack, a basic block that
  -- is missing or added twice, a supported sync function without a handler, or a reference to no
  -- object.
  pub translate_not_internal :
      (depth rounds : ℕ) (tcx : TyCtxt) (e : Panic)
      → translate {Net = Net} depth rounds tcx ≡ panic e
      → is_internal e ≡ false
  translate_not_internal depth rounds tcx e same =
      subst NotInternal same (Fueled-NotInternal (translate-Ends depth rounds tcx))

  -- The net of every translation starts well: a new translator for the program gives three
  -- different places as the start, the end and the panic of the program, and in the net of the
  -- translation that start holds one token, that end and that panic hold none, and no place holds
  -- more than one.
  pub translate-HasStarted :
      (depth rounds : ℕ) (tcx : TyCtxt) (n : Net)
      → translate {Net = Net} depth rounds tcx ≡ ok n
      → HasStarted tcx n
  translate-HasStarted depth rounds tcx n e = Fueled.of_result (translate-Ends depth rounds tcx) e
