-- ===== src/Safety/Calls.antt =====
-- `Translator.Calls`: a call, whichever handler takes it, leads to a well-formed state.
use granite.Common.{
  ℕ, String, ◌≡◌, subst, Bool, true, false, ◌||◌, Option, none, some, inl, inr, Bool-cases, List,
  str_eq,
}
use granite.Common.Outcome.{Run}
use granite.Common.Outcome.Safe.{Safe, with_result}
use granite.Common.Outcome.Fueled.{Fueled, of_Safe, via}
use granite.Common.Outcome.Returns.{mono}
use granite.PetriNet.{PlaceRef, PetriNet}
use granite.PetriNet.View.{View, Laws}
use granite.PetriNet.Grows.{PlaceIn}
use granite.Mir.{
  DefId, Place, BasicBlock, Operand, UnwindAction, continue, unreachable, terminate, cleanup,
}
use granite.Function.{Places, basic, with_cleanup}
use granite.MirFunction.{get_end_place_for_function_call}
use granite.SpecialFunction.{is_panic_function, is_foreign_function}
use granite.Sync.{is_supported_function}
use granite.Translator.{Translator, with_frame}
use granite.Translator.Calls.{
  call_places, call_unwind, call_mir_function, call_sync_function, call_default,
  call_unwrap_or_default, start_function_call, finish_call, call_function,
}
use granite.Safety.World.{PlacesIn, FunctionIn}
use granite.Safety.Net.{
  connect_places-GrowsTo, call_diverging_function-GrowsTo, call_panic_function-GrowsTo,
}
use granite.Safety.Step.{PlacesIn-Grows}
use granite.Safety.Frame.{
  get_start_place_for_function_call-Safe, get_end_place_for_function_call-Safe,
}
use granite.Safety.Sync.{call_function-Safe}
use granite.Safety.Allowed.{MaySpawn, Allowed, called_in}
use granite.Safety.Arguments.{called_function-Safe}
use granite.Safety.Special.{
  is_self_ref_mutex-Safe, call_foreign_function-Safe, call_mem_drop-Safe, call_deref_mutex-Safe,
  call_unwrap_mutex-Safe, call_thread_spawn-Safe,
}
use granite.Safety.State.{
  Outline, enter, first, proceed, Inv, Moves, Nothing, next, stay, read_top-Safe, with_frame-Safe,
  on_translator_net-Safe, get_count-Safe, increment-Safe, with_context_task-Safe,
  push_function-Safe, new-FunctionIn,
}

abbrev is_deref : String → Bool
is_deref f = str_eq f "std::ops::Deref::deref" || str_eq f "std::ops::DerefMut::deref_mut"

abbrev pub OptionPlacesIn : View → Option Places → Type 0
OptionPlacesIn v none = Unit
OptionPlacesIn v (some places) = PlacesIn v places

module _ {Net : Type 0} ⦃api : PetriNet Net⦄ (L : Laws Net) (here : DefId) (n : Outline) where
  open L use {view}

  end_place-Safe :
      (block : BasicBlock) (s : Translator Net)
      → Inv L (enter here n) s
      → Safe
          (Moves L (enter here n) s λ p v o. PlaceIn v p)
          (with_frame (get_end_place_for_function_call block) s)
  end_place-Safe block s h =
      with_frame-Safe L here n s h (λ p v o. PlaceIn v p) _
        λ c hc g. get_end_place_for_function_call-Safe L s.objects here block c hc

  -- The places of a call are in the net, whatever its target and its unwind action.
  call_places-Safe :
      (target : Option BasicBlock) (u : UnwindAction) (start : PlaceRef) (f : String)
      (s : Translator Net)
      → Inv L (enter here n) s
      → PlaceIn (view s.net) start
      → Safe (Moves L (enter here n) s λ p v o. OptionPlacesIn v p) (call_places target u start f s)
  unfolding call_places
  call_places-Safe (some b) continue start f s h hs =
      next L (end_place-Safe b s h)
        λ (e, s₁) m₁. stay L _ m₁.inv (m₁.grows.places start hs, m₁.result)
  call_places-Safe (some b) (cleanup b') start f s h hs =
      next L (end_place-Safe b s h) λ (e, s₁) m₁. next L (end_place-Safe b' s₁ m₁.inv) λ (c, s₂) m₂.
        stay L _ m₂.inv
          (m₂.grows.places start (m₁.grows.places start hs), m₂.grows.places e m₁.result, m₂.result)
  call_places-Safe (some b) terminate start f s h hs =
      next L (end_place-Safe b s h)
        λ (e, s₁) m₁. stay L _ m₁.inv (m₁.grows.places start hs, m₁.result, m₁.inv.program_panic)
  call_places-Safe none terminate start f s h hs = stay L _ h (hs, h.program_panic)
  call_places-Safe none (cleanup b) start f s h hs =
      next L (end_place-Safe b s h)
        λ (e, s₁) m₁. stay L _ m₁.inv (m₁.grows.places start hs, m₁.result)
  call_places-Safe none continue start f s h hs =
      next L (read_top-Safe L here n s h (Nothing L) _ λ f hf. Safe.returns tt) λ (caller, s₁) m₁.
        let start_in = m₁.grows.places start hs in
        elim (Bool-cases (is_panic_function f)) [
          | inl panics ↦ rw panics (
              next L
                (on_translator_net-Safe L (enter here n) s₁ m₁.inv (λ _ v. Unit) _
                  (call_panic_function-GrowsTo L start _ _ s₁.net start_in
                    (m₁.grows.places _ h.program_panic)))
                λ (_, s₂) m₂. stay L _ m₂.inv tt)
          | inr diverges ↦ rw diverges (
              next L
                (on_translator_net-Safe L (enter here n) s₁ m₁.inv (λ _ v. Unit) _
                  (call_diverging_function-GrowsTo L start f s₁.net start_in))
                λ (_, s₂) m₂. stay L _ m₂.inv tt)
        ]
  call_places-Safe (some b) unreachable start f s h hs =
      next L (end_place-Safe b s h)
        λ (e, s₁) m₁. stay L _ m₁.inv (m₁.grows.places start hs, m₁.result, m₁.inv.program_end)
  call_places-Safe none unreachable start f s h hs = stay L _ h (hs, h.program_end)

  call_unwind-Safe :
      (f : String) (i : ℕ) (places : Places) (s : Translator Net)
      → Inv L (enter here n) s
      → PlacesIn (view s.net) places
      → Safe
          (Moves L (enter here n) s λ (a, b) v o. PlaceIn v a × PlaceIn v b)
          (call_unwind f i places s)
  unfolding call_unwind
  call_unwind-Safe f i (basic a b) s h hp = stay L _ h hp
  call_unwind-Safe f i (with_cleanup a b c) s h hp =
      next L
        (on_translator_net-Safe L (enter here n) s h (λ _ v. Unit) _
          (mono (connect_places-GrowsTo L a c _ s.net hp.0 hp.2) λ r q. (q.0, tt)))
        λ (_, s₁) m₁. stay L _ m₁.inv (m₁.grows.places a hp.0, m₁.grows.places b hp.1)

  call_sync_function-Safe :
      (f : String) (args : List Operand) (d : Place) (places : Places) (s : Translator Net)
      → is_supported_function f ≡ true
      → str_eq f "std::thread::spawn" ≡ false
      → Inv L (enter here n) s
      → PlacesIn (view s.net) places
      → Safe (Moves L (enter here n) s (Nothing L)) (call_sync_function f args d places s)
  unfolding call_sync_function
  call_sync_function-Safe f args d places s supported not_spawn h hp =
      next L (get_count-Safe L (enter here n) s h f) λ (i, s₁) m₁.
        with_context_task-Safe L here n s₁ m₁.inv _ λ c hc g p.
          call_function-Safe L f i args d places c supported not_spawn hc
            (PlacesIn-Grows places g (PlacesIn-Grows places m₁.grows hp))

  module _ {b : Bool} (may_call : DefId → Type 0) (recurse : Run (Translator Net) (Unit {0}))
      (recurse-Fueled : (d : DefId) (s : Translator Net)
        → may_call d
        → Inv L (enter d (enter here n)) s
        → Fueled b (Moves L (enter here n) s (Nothing L)) (recurse s)) where
    -- from a well-formed state to a well-formed one, in the body of `here`
    abbrev Ends : Run (Translator Net) (Unit {0}) → Translator Net → Type 0
    Ends m s = Fueled b (Moves L (enter here n) s (Nothing L)) (m s)

    call_mir_function-Ends :
        (d : DefId) (f : String) (places : Places) (s : Translator Net)
        → may_call d
        → Inv L (enter here n) s
        → PlacesIn (view s.net) places
        → Ends (call_mir_function recurse d f places) s
    unfolding call_mir_function
    call_mir_function-Ends d f places s allowed h hp =
        first L (get_count-Safe L (enter here n) s h f) λ (i, s₁) m₁.
          first L (call_unwind-Safe f i places s₁ m₁.inv (PlacesIn-Grows places m₁.grows hp))
            λ ((a, b), s₂) m₂.
              first L
                (push_function-Safe L (enter here n) s₂ m₂.inv d _
                  (new-FunctionIn (view s₂.net) s₂.objects d _ a b m₂.result.0 m₂.result.1))
                λ (_, s₃) m₃. recurse-Fueled d s₃ allowed m₃.inv

    module _ (d : DefId) (f : String) (args : List Operand) (dest : Place)
        (spawns : str_eq f "std::thread::spawn" ≡ true → MaySpawn n.program here n.may_spawn args)
        (calls : is_foreign_function d f n.program ≡ false → may_call d) where
      call_default-Ends :
          (places : Places) (s : Translator Net)
          → Inv L (enter here n) s
          → PlacesIn (view s.net) places
          → Ends (call_default recurse d f args dest places) s
      unfolding call_default
      call_default-Ends places s h hp = elim (Bool-cases (str_eq f "std::thread::spawn")) [
        | inl spawn ↦
            rw spawn
              (of_Safe (call_thread_spawn-Safe L here n f args dest places s h hp (spawns spawn)))
        | inr not_spawn ↦ rw not_spawn (elim (Bool-cases (is_supported_function f)) [
          | inl supported ↦
              rw supported
                (of_Safe (call_sync_function-Safe f args dest places s supported not_spawn h hp))
          | inr other ↦ rw other (elim (Bool-cases (is_foreign_function d f s.tcx)) [
            | inl foreign_ ↦ rw foreign_ (
                first L (call_foreign_function-Safe L here n f args dest places s h hp)
                  λ (ts, s₁) m₁. of_Safe (stay L _ m₁.inv tt))
            | inr mir ↦ rw mir (
                call_mir_function-Ends d f places s
                  (calls (subst (λ t. is_foreign_function d f t ≡ false) h.program mir)) h hp)
          ])
        ])
      ]

      call_unwrap_or_default-Ends :
          (places : Places) (s : Translator Net)
          → Inv L (enter here n) s
          → PlacesIn (view s.net) places
          → Ends (call_unwrap_or_default recurse d f args dest places) s
      unfolding call_unwrap_or_default
      call_unwrap_or_default-Ends places s h hp =
          elim (Bool-cases (str_eq f "std::result::Result::<T, E>::unwrap")) [
            | inl unwrap ↦ rw unwrap (
                first L (is_self_ref_mutex-Safe L here n args s h) λ (on_mutex, s₁) m₁.
                  let hp₁ = PlacesIn-Grows places m₁.grows hp in
                  elim (Bool-cases on_mutex) [
                    | inl e ↦
                        rw e (
                          of_Safe
                            (call_unwrap_mutex-Safe L here n f args dest places s₁ m₁.inv hp₁))
                    | inr e ↦ rw e (call_default-Ends places s₁ m₁.inv hp₁)
                  ])
            | inr other ↦ rw other (call_default-Ends places s h hp)
          ]

      start_function_call-Ends :
          (places : Places) (s : Translator Net)
          → Inv L (enter here n) s
          → PlacesIn (view s.net) places
          → Ends (start_function_call recurse d f args dest places) s
      unfolding start_function_call
      start_function_call-Ends places s h hp = elim (Bool-cases (str_eq f "std::mem::drop")) [
        | inl drop ↦ rw drop (of_Safe (call_mem_drop-Safe L here n f args dest places s h hp))
        | inr kept ↦ rw kept (elim (Bool-cases (is_deref f)) [
          | inl deref ↦ rw deref (
              first L (is_self_ref_mutex-Safe L here n args s h) λ (on_mutex, s₁) m₁.
                let hp₁ = PlacesIn-Grows places m₁.grows hp in
                elim (Bool-cases on_mutex) [
                  | inl e ↦
                      rw e
                        (of_Safe (call_deref_mutex-Safe L here n f args dest places s₁ m₁.inv hp₁))
                  | inr e ↦ rw e (call_unwrap_or_default-Ends places s₁ m₁.inv hp₁)
                ])
          | inr other ↦ rw other (call_unwrap_or_default-Ends places s h hp)
        ])
      ]

      finish_call-Ends :
          (places : Option Places) (s : Translator Net)
          → Inv L (enter here n) s
          → OptionPlacesIn (view s.net) places
          → Ends (finish_call recurse d f args dest places) s
      unfolding finish_call
      finish_call-Ends none s h hp = of_Safe (stay L _ h tt)
      finish_call-Ends (some places) s h hp =
          proceed L (start_function_call-Ends places s h hp)
            λ (_, s₁) m₁. of_Safe (increment-Safe L (enter here n) s₁ m₁.inv f)

    -- A call keeps the state well formed, if the translation of the called function does.
    pub call_function_lem :
        (func : Operand) (args : List Operand) (dest : Place) (target : Option BasicBlock)
        (u : UnwindAction) (s : Translator Net)
        → Allowed n.program here may_call n.may_spawn func args
        → Inv L (enter here n) s
        → Fueled b
            (Moves L (enter here n) s (Nothing L))
            (call_function recurse func args dest target u s)
    unfolding call_function
    call_function_lem func args dest target u s allowed h =
        first L
          (read_top-Safe L here n s h (λ f v o. FunctionIn v o here f) _ λ f hf. Safe.returns hf)
          λ (caller, s₁) m₁.
            via _ _ (with_result (called_function-Safe func caller.def_id s.tcx))
              λ d (is_called, _).
                via _ _ (get_start_place_for_function_call-Safe caller m₁.result) λ start hs.
                  first L (call_places-Safe target u start _ s₁ m₁.inv hs) λ (places, s₂) m₂.
                    let called = called_in func d m₁.result.def_id h.program is_called in
                    finish_call-Ends d _ args dest
                      (λ e. allowed.spawns d called (
                        subst (λ t. str_eq (t.def_path_str d) "std::thread::spawn" ≡ true) h.program
                          e))
                      (λ e. allowed.calls d called (
                        subst (λ t. is_foreign_function d (t.def_path_str d) n.program ≡ false)
                          h.program e))
                      places s₂ m₂.inv m₂.result
