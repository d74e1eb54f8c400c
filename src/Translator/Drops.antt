-- ===== src/Translator/Drops.antt =====
-- The `Drop` terminator of src/translator/mir_visitor.rs on a place that holds a mutex guard.
use granite.Common.{
  ℕ, String, subst, arith, ◌≡◌, refl, ap, ◌∙◌, false, some, List, ◌∷◌, get_elem?, ==_refl,
}
use granite.Common.Outcome.{ok}
use granite.Context.{Context}
use granite.Sync.Mutex.{handle_mutex_guard_drop}
use granite.Common.Outcome.Returns.{Returns, returns, result}
use granite.PetriNet.{PlaceRef, TransitionRef, PetriNet, connect_places}
use granite.PetriNet.View.{View, Laws, with_output}
use granite.PetriNet.Grows.{PlaceIn, TransitionIn}
use granite.Memory.{Store}
use granite.PetriNet.Operations.{connected, connect_places_lem}
use granite.Naming.BasicBlock.{
  drop_transition_label, drop_cleanup_transition_label, unreachable_transition_label,
}
use granite.Stack
use granite.Mir.{Place, UnwindAction, cleanup}
use granite.Objects.{MutexRef, Mutex, mutex_guard}
use granite.Memory.Map.{get}
use granite.MirFunction.{MirFunction, get_active_block, get_pair_active_block_target_block}
use granite.MirFunction.BasicBlock
use granite.MirFunction.BasicBlock.{BasicBlock}
use granite.MirFunction.Blocks
use granite.MirFunction.Switch.{present_pair}
use granite.MirFunction.Terminator
use granite.Sync.Mutex.Lock.{handle_mutex_guard_drop-unlocks}
use granite.Translator.{
  Translator, context_of, frame_result, with_frame, context_result, with_context,
}
use granite.Translator.Visitor.{unreachable_to_end, drop_transitions, drop_at_cleanup, visit_drop}

module _ {Net : Type 0} ⦃api : PetriNet Net⦄ (L : Laws Net) where
  open L use {view}

  -- The function `f` is on the top of the call stack, the drop is in its block `a` and leads to its
  -- block `b`, and the place `p` that is dropped holds a guard of the mutex `m`.
  pub record Dropping (s : Translator Net) (f : MirFunction) (rest : List MirFunction)
      (a b : BasicBlock) (target : ℕ) (p : Place) (r : MutexRef) (m : Mutex) : Type 0 where
    pub top : s.call_stack.items ≡ f ∷ rest
    pub active : get_active_block f ≡ ok a
    pub target_block : Blocks.get target f.basic_blocks ≡ some b
    pub linked : get p f.memory.map ≡ some (mutex_guard (record { mutex = r }))
    pub object : get_elem? s.objects.mutexes r ≡ some m
    pub active_place : PlaceIn (view s.net) a.place
    pub target_place : PlaceIn (view s.net) b.place
    pub mutex_place : PlaceIn (view s.net) m.mutex

  -- a new transition from `s` to `e` that gives a token back to the mutex
  abbrev pub Unlocks : (s e : PlaceRef) → Mutex → (v w : View) → Type 0
  Unlocks s e m v w =
      (t : TransitionRef) × (v.is_transition t ≡ false)
      × (w ≡ with_output t m.mutex (connected s e t v))

  module _ (s : Translator Net) (f : MirFunction) (rest : List MirFunction) (a b : BasicBlock)
      (target : ℕ) (p : Place) (r : MutexRef) (m : Mutex)
      (d : Dropping s f rest a b target p r m) where
    -- a new transition between two places of a greater net
    join :
        (from to : PlaceRef) (label : String) (n : Net)
        → PlaceIn (view n) from
        → PlaceIn (view n) to
        → (r : TransitionRef × Net) × (connect_places from to label n ≡ ok r)
          × (((view n).is_transition r.0 ≡ false) × (view r.1 ≡ connected from to r.0 (view n)))
    join from to label n hf ht = result (connect_places_lem L from to label n hf ht)

    -- the handler of the drop, on the net `n` and a store with the links of this one
    unlock :
        (t : TransitionRef) (n : Net) (store : Store)
        → store ≡ record { objects = s.objects; memory = f.memory }
        → TransitionIn (view n) t
        → PlaceIn (view n) m.mutex
        → (r' : Unit {0} × Context Net) × (handle_mutex_guard_drop p t
              (record { net = n; store = store })
            ≡ ok r')
          × ((view r'.1.net ≡ with_output t m.mutex (view n)) × (r'.1.store ≡ store))
    unlock t n store same ht hm = result (
        handle_mutex_guard_drop-unlocks L p t (record { net = n; store = store }) r m
          (ap (λ x. get p x.memory.map) same ∙ d.linked)
          (ap (λ x. get_elem? x.objects.mutexes r) same ∙ d.object) ht hm)

    pair_on :
        (k : ℕ) (c : BasicBlock) (n : Net)
        → Blocks.get k f.basic_blocks ≡ some c
        → get_pair_active_block_target_block k (record { function = f; net = n })
          ≡ ok ((a, c), record { function = f; net = n })
    pair_on k c n e = present_pair L k (record { function = f; net = n }) a c d.active e

    drop_label : String
    drop_label = drop_transition_label a.function_name a.index

    continue-Unlocks :
        Returns
          (λ (_, s'). Unlocks a.place b.place m (view s.net) (view s'.net))
          (visit_drop p target UnwindAction.continue s)
    unfolding visit_drop drop_transitions drop_at_cleanup with_frame frame_result with_context
        context_of context_result Terminator.drop Terminator.drop_to_cleanup BasicBlock.drop
        Stack.peek Stack.peek_items Stack.peek_mut Stack.peek_mut_items drop_label
    continue-Unlocks =
        let ((t, n₁), e₁, (fresh, v₁)) =
          join a.place b.place drop_label s.net d.active_place d.target_place in
        let (_, e₂, (v₂, _)) = unlock t n₁ _ refl (rw (v₁, ==_refl) refl) (rw v₁ d.mutex_place) in
        rw (d.top, pair_on target b s.net d.target_block, e₁, e₂)
          (returns (t, fresh, v₂ ∙ ap (with_output t m.mutex) v₁))

    unreachable-Unlocks :
        PlaceIn (view s.net) s.program_end
        → Returns
            (λ (_, s').
              (x : TransitionRef) × ((view s.net).is_transition x ≡ false)
              × Unlocks a.place b.place m
                  (connected a.place s.program_end x (view s.net))
                  (view s'.net))
            (visit_drop p target UnwindAction.unreachable s)
    unfolding visit_drop drop_transitions drop_at_cleanup unreachable_to_end with_frame frame_result
        with_context context_of context_result Terminator.unreachable Terminator.drop
        Terminator.drop_to_cleanup BasicBlock.unreachable BasicBlock.drop Stack.peek
        Stack.peek_items Stack.peek_mut Stack.peek_mut_items drop_label
    unreachable-Unlocks he =
        let ((x, n₀), e₀, (fresh₀, v₀)) =
          join a.place s.program_end (unreachable_transition_label a.function_name a.index) s.net
            d.active_place he in
        let ((t, n₁), e₁, (fresh, v₁)) =
          join a.place b.place drop_label n₀ (rw v₀ d.active_place) (rw v₀ d.target_place) in
        let u₁ = v₁ ∙ ap (connected a.place b.place t) v₀ in
        let (_, e₂, (v₂, _)) = unlock t n₁ _ refl (rw (u₁, ==_refl) refl) (rw u₁ d.mutex_place) in
        rw (d.top, d.active, e₀, pair_on target b n₀ d.target_block, e₁, e₂)
          (returns (
            x,
            fresh₀,
            (
              t,
              subst (λ v. v.is_transition t ≡ false) v₀ fresh,
              v₂ ∙ ap (with_output t m.mutex) u₁,
            ),
          ))

    cleanup-Unlocks :
        (k : ℕ) (c : BasicBlock)
        → Blocks.get k f.basic_blocks ≡ some c
        → PlaceIn (view s.net) c.place
        → Returns
            (λ (_, s').
              (t : TransitionRef) × (u : TransitionRef) × ((view s.net).is_transition t ≡ false)
              × ((connected a.place b.place t (view s.net)).is_transition u ≡ false)
              × (view s'.net
                  ≡ with_output u m.mutex (
                      with_output t m.mutex
                        (connected a.place c.place u (connected a.place b.place t (view s.net))))))
            (visit_drop p target (cleanup k) s)
    unfolding visit_drop drop_transitions drop_at_cleanup with_frame frame_result with_context
        context_of context_result Terminator.drop Terminator.drop_to_cleanup BasicBlock.drop
        BasicBlock.drop_cleanup Stack.peek Stack.peek_items Stack.peek_mut Stack.peek_mut_items
        drop_label
    cleanup-Unlocks k c e hc =
        let ((t, n₁), e₁, (fresh, v₁)) =
          join a.place b.place drop_label s.net d.active_place d.target_place in
        let ((u, n₂), e₂, (fresh', v₂)) =
          join a.place c.place (drop_cleanup_transition_label a.function_name a.index) n₁
            (rw v₁ d.active_place) (rw v₁ hc) in
        let u₂ = v₂ ∙ ap (connected a.place c.place u) v₁ in
        let ((_, c₃), e₃, (v₃, same)) =
          unlock t n₂ _ refl (rw (u₂, ==_refl) (ground arith)) (rw u₂ d.mutex_place) in
        let u₃ = v₃ ∙ ap (with_output t m.mutex) u₂ in
        let (_, e₄, (v₄, _)) =
          unlock u c₃.net c₃.store same (rw (u₃, ==_refl) refl) (rw u₃ d.mutex_place) in
        rw (d.top, pair_on target b s.net d.target_block, e₁, pair_on k c n₁ e, e₂, e₃, e₄)
          (returns (
            t,
            u,
            fresh,
            subst (λ v. v.is_transition u ≡ false) v₁ fresh',
            v₄ ∙ ap (with_output u m.mutex) u₃,
          ))

    -- what the unwind action needs: its cleanup block `c`, or the end of the program
    abbrev pub UnwindIn : UnwindAction → BasicBlock → Type 0
    UnwindIn (cleanup k) c = (Blocks.get k f.basic_blocks ≡ some c) × PlaceIn (view s.net) c.place
    UnwindIn UnwindAction.unreachable c = PlaceIn (view s.net) s.program_end
    UnwindIn _ c = Unit

    -- the net of a drop, by its unwind action
    abbrev pub DropNet : UnwindAction → BasicBlock → View → View → Type 0
    DropNet (cleanup k) c v w =
        (t : TransitionRef) × (u : TransitionRef) × (v.is_transition t ≡ false)
        × ((connected a.place b.place t v).is_transition u ≡ false)
        × (w
            ≡ with_output u m.mutex (
                with_output t m.mutex
                  (connected a.place c.place u (connected a.place b.place t v))))
    DropNet UnwindAction.unreachable c v w =
        (x : TransitionRef) × (v.is_transition x ≡ false)
        × Unlocks a.place b.place m (connected a.place s.program_end x v) w
    DropNet _ c v w = Unlocks a.place b.place m v w

    -- The drop of a place that holds a mutex guard does not panic, if its blocks are there and the
    -- places are in the net. It adds a new transition from the active block to the target, and, with
    -- a cleanup block, one to this block; each of them gives the token back to the mutex of the
    -- guard. When unwinding is unreachable, a transition to the end of the program comes first, and
    -- gives nothing back. Nothing else is added.
    pub visit_drop-DropNet :
        (unwind : UnwindAction) (c : BasicBlock)
        → UnwindIn unwind c
        → Returns
            (λ (_, s'). DropNet unwind c (view s.net) (view s'.net))
            (visit_drop p target unwind s)
    unfolding visit_drop drop_transitions
    visit_drop-DropNet (cleanup k) c h = cleanup-Unlocks k c h.0 h.1
    visit_drop-DropNet UnwindAction.unreachable c h = unreachable-Unlocks h
    visit_drop-DropNet UnwindAction.continue c h = continue-Unlocks
    visit_drop-DropNet UnwindAction.terminate c h = continue-Unlocks
