-- ===== src/Sync/Thread/Handle.antt =====
-- A thread and its join handle: src/translator/sync/thread.rs.
use granite.Common.{
  ℕ, String, ◌≡◌, ◌≢◌, refl, ap, ◌∙◌, subst, false, Option, none, some, inl, inr, Option-cases,
  List, get_elem?, ==_refl, arith, get_elem?-set_self, get_elem?-set_other,
}
use granite.Common.Outcome.{Outcome, ok, panic, joined_twice}
use granite.Common.Outcome.Returns.{Returns, returns, bind, result}
use granite.PetriNet.{PlaceRef, TransitionRef, PetriNet}
use granite.PetriNet.View.{View, Laws, with_place, with_input, with_output}
use granite.PetriNet.Grows.{PlaceIn, TransitionIn}
use granite.PetriNet.Operations.{
  connected, add_place_lem, connect_places_lem, add_input_lem, add_output_lem,
}
use granite.Mir.{DefId, Operand, Place}
use granite.Utils.{extract_nth_argument_as_place}
use granite.Objects.{ThreadRef, Thread, join_handle, thread_at, set_thread}
use granite.Memory.{get_join_handle, get_linked_value}
use granite.Memory.Map.{get}
use granite.Naming.Function.{foreign_call_transition_labels}
use granite.Function.{Places, ignore_cleanup_place, get_start_end_place, get_default}
use granite.SpecialFunction.{call_foreign_function}
use granite.Context.{Context}
use granite.Sync.Thread.{
  set_once, set_join_transition, join_arc, prepare_for_translation, call_join,
}

abbrev pub OptionIn : View → Option TransitionRef → Type 0
OptionIn v none = Unit
OptionIn v (some t) = TransitionIn v t

-- the end of a thread that is joined
abbrev pub with_join : Option TransitionRef → PlaceRef → View → View
with_join none end_place v = v
with_join (some t) end_place v = with_input t end_place v

-- `self` of a method call is the place `p`, which is linked to the thread `r`, which is `th`
pub record SelfIsThread {Net : Type 0} (args : List Operand) (c : Context Net) (p : Place)
    (r : ThreadRef) (th : Thread) : Type 0 where
  pub argument : extract_nth_argument_as_place args 0 ≡ some p
  pub linked : get p c.store.memory.map ≡ some (join_handle r)
  pub object : get_elem? c.store.objects.threads r ≡ some th

module _ {Net : Type 0} ⦃api : PetriNet Net⦄ (L : Laws Net) where
  open L use {view}

  join_arc_lem :
      (o : Option TransitionRef) (e : PlaceRef) (n : Net)
      → OptionIn (view n) o
      → PlaceIn (view n) e
      → Returns (λ (_, n'). view n' ≡ with_join o e (view n)) (join_arc o e n)
  unfolding join_arc
  join_arc_lem none e n ht he = returns refl
  join_arc_lem (some t) e n ht he = add_input_lem L e t n he ht

  abbrev pub Prepared : Thread → Net → DefId × PlaceRef × PlaceRef → Net → Type 0
  Prepared th n (d, s, e) n' =
      (d ≡ th.def_id)
      × ((view n).is_place s ≡ false)
      × ((view n).is_place e ≡ false)
      × (s ≢ e)
      × (view n'
          ≡ with_join th.join_transition e
              (with_output th.spawn_transition s (with_place e (with_place s (view n)))))

  OptionIn-view :
      (v w : View) (o : Option TransitionRef)
      → ((t : TransitionRef) → TransitionIn v t → TransitionIn w t)
      → OptionIn v o
      → OptionIn w o
  OptionIn-view v w none f h = tt
  OptionIn-view v w (some t) f h = f t h

  -- Preparing a thread does not panic, if the transitions of its spawn and of its join are in the
  -- net. It gives the function of the thread and two new places, its start and its end; the spawn
  -- gives a token to the start, the join, if there is one, takes a token from the end, and nothing
  -- else is added.
  pub prepare_for_translation-Prepared :
      (th : Thread) (n : Net)
      → TransitionIn (view n) th.spawn_transition
      → OptionIn (view n) th.join_transition
      → Returns (λ (a, n'). Prepared th n a n') (prepare_for_translation th n)
  unfolding prepare_for_translation
  prepare_for_translation-Prepared th n hs hj = bind (add_place_lem L _ n) λ (s, n₁) (fresh₁, v₁).
      bind (add_place_lem L _ n₁) λ (e, n₂) (fresh₂, v₂).
        let u₂ = v₂ ∙ ap (with_place e) v₁ in
        let old : (with_place s (view n)).is_place e ≡ false =
          subst (λ v. v.is_place e ≡ false) v₁ fresh₂ in
        bind (add_output_lem L th.spawn_transition s n₂ (rw u₂ hs) (rw u₂ (ground arith)))
          λ (_, n₃) v₃.
            let u₃ = v₃ ∙ ap (with_output th.spawn_transition s) u₂ in
            let joins = OptionIn-view (view n) (view n₃) th.join_transition (λ t k. rw u₃ k) hj in
            bind (join_arc_lem th.join_transition e n₃ joins (rw (u₃, ==_refl) refl)) λ (_, n₄) v₄.
              returns (
                refl,
                fresh₁,
                ground (arith, old),
                (λ same. ground (arith, old)),
                v₄ ∙ ap (with_join th.join_transition e) u₃,
              )

  -- the thread `r` has the join transition `t`, and the other threads stay
  abbrev pub Joined :
      Context Net → (s e : PlaceRef) → ThreadRef → Thread → Unit {0} × Context Net → Type 0
  Joined c s e r th (_, c') =
      (t : TransitionRef) × ((view c.net).is_transition t ≡ false)
      × (view c'.net ≡ connected s e t (view c.net))
      × (c'.store.memory ≡ c.store.memory)
      × (thread_at r c'.store.objects ≡ ok (record th { join_transition = some t }))
      × ((other : ThreadRef)
          → r ≢ other
          → thread_at other c'.store.objects ≡ thread_at other c.store.objects)

  basic-Joined :
      (f : String) (i : ℕ) (args : List Operand) (s e : PlaceRef) (c : Context Net) (p : Place)
      (r : ThreadRef) (th : Thread)
      → SelfIsThread args c p r th
      → th.join_transition ≡ none
      → PlaceIn (view c.net) s
      → PlaceIn (view c.net) e
      → Returns (Joined c s e r th) (call_join f i args (Places.basic s e) c)
  unfolding call_join call_foreign_function get_default get_join_handle ignore_cleanup_place
      get_linked_value thread_at set_join_transition set_once set_thread
  basic-Joined f i args s e c p r th self first hs he =
      let ((t, n₁), e₁, (fresh, v₁)) =
        result (connect_places_lem L s e (foreign_call_transition_labels f i).0 c.net hs he) in
      rw (e₁, self.argument, self.linked, self.object, first)
        (returns (
          t,
          fresh,
          v₁,
          refl,
          rw (get_elem?-set_self c.store.objects.threads r _ th self.object) refl,
          λ other apart. rw (get_elem?-set_other c.store.objects.threads r other _ apart) refl,
        ))

  again_lem :
      (f : String) (i : ℕ) (args : List Operand) (s e : PlaceRef) (c : Context Net) (p : Place)
      (r : ThreadRef) (th : Thread) (t : TransitionRef)
      → SelfIsThread args c p r th
      → th.join_transition ≡ some t
      → PlaceIn (view c.net) s
      → PlaceIn (view c.net) e
      → call_join f i args (Places.basic s e) c ≡ panic joined_twice
  unfolding call_join call_foreign_function get_default get_join_handle ignore_cleanup_place
      get_linked_value thread_at set_join_transition set_once
  again_lem f i args s e c p r th t self before hs he =
      let ((u, n₁), e₁, _) =
        result (connect_places_lem L s e (foreign_call_transition_labels f i).0 c.net hs he) in
      rw (e₁, self.argument, self.linked, self.object, before) refl

  -- what a call of `join` does, by whether the thread was joined before
  abbrev pub IsJoin :
      Option TransitionRef
      → Context Net
      → (s e : PlaceRef) → ThreadRef
      → Thread
      → Outcome (Unit {0} × Context Net)
      → Type 0
  IsJoin none c s e r th o = Returns (Joined c s e r th) o
  IsJoin (some t) c s e r th o = o ≡ panic joined_twice

  -- A call of `join` on a place that is linked to a thread, if the start and the end of the call
  -- are places of the net. The first one does not panic: it adds one new transition, from the start
  -- to the end of the call, whether or not there is a cleanup place, and notes it as the join of
  -- this thread, and neither the memory nor another thread changes. Every later one panics.
  pub call_join-IsJoin :
      (f : String) (i : ℕ) (args : List Operand) (places : Places) (c : Context Net) (p : Place)
      (r : ThreadRef) (th : Thread)
      → SelfIsThread args c p r th
      → PlaceIn (view c.net) (get_start_end_place places).0
      → PlaceIn (view c.net) (get_start_end_place places).1
      → IsJoin th.join_transition c
          (get_start_end_place places).0
          (get_start_end_place places).1
          r
          th
          (call_join f i args places c)
  unfolding call_join get_start_end_place ignore_cleanup_place
  call_join-IsJoin f i args (Places.basic s e) c p r th self hs he =
      elim (Option-cases th.join_transition) [
        | inl none_ ↦ rw none_ (basic-Joined f i args s e c p r th self none_ hs he)
        | inr (t, some_) ↦ rw some_ (again_lem f i args s e c p r th t self some_ hs he)
      ]
  call_join-IsJoin f i args (Places.with_cleanup s e u) c p r th self hs he =
      elim (Option-cases th.join_transition) [
        | inl none_ ↦ rw none_ (basic-Joined f i args s e c p r th self none_ hs he)
        | inr (t, some_) ↦ rw some_ (again_lem f i args s e c p r th t self some_ hs he)
      ]
