-- ===== src/Safety/Net.antt =====
-- The operations that work on the net alone: on references of the net they do not panic, and they
-- take nothing out of the net.
use granite.Common.{false, ◌≡◌, ℕ, String, refl, Option, none, some, List, [], ◌∷◌, arith, ==_refl}
use granite.Common.Outcome.Returns.{Returns, returns, bind, mono}
use granite.PetriNet.{
  PlaceRef, TransitionRef, PetriNet, add_place, add_transition, add_arc_place_transition,
  add_arc_transition_place, connect_places,
}
use granite.PetriNet.View.{View, Laws}
use granite.PetriNet.Grows.{
  PlaceIn, TransitionIn, Grows, Grows-refl, Grows-trans, Grows-with_place, Grows-with_marked_place,
  Grows-with_transition, Grows-with_input, Grows-with_output, two_places-IsSafe,
}
use granite.PetriNet.Operations.{
  add_place_lem, add_transition_lem, add_input_lem, add_output_lem, connect_places_lem,
}
use granite.Function.{Places}
use granite.SpecialFunction.{call_foreign_function, call_diverging_function, call_panic_function}
use granite.Objects.{Mutex, Thread, Objects}
use granite.Sync.Mutex
use granite.Sync.Mutex.Model.{new-unlocked}
use granite.Sync.Mutex.Condition.{Linked, never_set, condition, link_to_condvar-Linked}
use granite.Sync.Condvar
use granite.Sync.Condvar.Model.{new-CondvarModel}
use granite.Sync.Thread.{join_arc, prepare_for_translation}
use granite.Safety.World.{
  PlacesIn, TransitionsIn, OptionIn, MutexIn, CondvarIn, ThreadIn, OptionIn-Grows,
}

module _ {Net : Type 0} ⦃api : PetriNet Net⦄ (L : Laws Net) where
  open L use {view}

  -- from the net `n`, with `Q` of the result and of the new view
  abbrev pub GrowsTo : {A : Type 0} → Net → (A → View → Type 0) → A × Net → Type 0
  GrowsTo n Q (a, n') = Grows (view n) (view n') × Q a (view n')

  pub add_place-GrowsTo :
      (label : String) (n : Net) → Returns (GrowsTo n λ p v. PlaceIn v p) (add_place label n)
  add_place-GrowsTo label n =
      mono (add_place_lem L label n)
        λ (p, n') (fresh, e). (rw e (Grows-with_place p (view n) fresh), rw (e, ==_refl) refl)

  pub add_transition-GrowsTo :
      (label : String) (n : Net)
      → Returns (GrowsTo n λ t v. TransitionIn v t) (add_transition label n)
  add_transition-GrowsTo label n =
      mono (add_transition_lem L label n)
        λ (t, n') (fresh, e). (rw e (Grows-with_transition t (view n)), rw (e, ==_refl) refl)

  pub add_input-GrowsTo :
      (p : PlaceRef) (t : TransitionRef) (n : Net)
      → PlaceIn (view n) p
      → TransitionIn (view n) t
      → Returns (GrowsTo n λ _ v. Unit {0}) (add_arc_place_transition p t n)
  add_input-GrowsTo p t n h k =
      mono (add_input_lem L p t n h k) λ (_, n') e. (rw e (Grows-with_input t p (view n)), tt)

  pub add_output-GrowsTo :
      (t : TransitionRef) (p : PlaceRef) (n : Net)
      → TransitionIn (view n) t
      → PlaceIn (view n) p
      → Returns (GrowsTo n λ _ v. Unit {0}) (add_arc_transition_place t p n)
  add_output-GrowsTo t p n h k =
      mono (add_output_lem L t p n h k) λ (_, n') e. (rw e (Grows-with_output t p (view n)), tt)

  pub connect_places-GrowsTo :
      (s e : PlaceRef) (label : String) (n : Net)
      → PlaceIn (view n) s
      → PlaceIn (view n) e
      → Returns (GrowsTo n λ t v. TransitionIn v t) (connect_places s e label n)
  connect_places-GrowsTo s e label n hs he =
      mono (connect_places_lem L s e label n hs he) λ (t, n') (fresh, eq). (
        rw eq (
            Grows-trans (Grows-with_transition t (view n))
              (Grows-trans (Grows-with_input t s _) (Grows-with_output t e _))),
        rw (eq, ==_refl) refl,
      )

  pub call_foreign_function-GrowsTo :
      (function_name : String) (index : ℕ) (places : Places) (n : Net)
      → PlacesIn (view n) places
      → Returns
          (GrowsTo n λ ts v. TransitionsIn v ts)
          (call_foreign_function function_name index places n)
  unfolding call_foreign_function
  call_foreign_function-GrowsTo f i (Places.basic s e) n h =
      bind (connect_places-GrowsTo s e _ n h.0 h.1) λ (t, n') q. returns q
  call_foreign_function-GrowsTo f i (Places.with_cleanup s e c) n h =
      bind (connect_places-GrowsTo s e _ n h.0 h.1) λ (t, n₁) (g₁, t₁).
        bind (connect_places-GrowsTo s c _ n₁ (g₁.places s h.0) (g₁.places c h.2))
          λ (u, n₂) (g₂, t₂). returns (Grows-trans g₁ g₂, (g₂.transitions t t₁, t₂))

  pub call_diverging_function-GrowsTo :
      (s : PlaceRef) (function_name : String) (n : Net)
      → PlaceIn (view n) s
      → Returns (GrowsTo n λ _ v. Unit {0}) (call_diverging_function s function_name n)
  unfolding call_diverging_function
  call_diverging_function-GrowsTo s f n h = bind (add_transition-GrowsTo _ n) λ (t, n₁) (g₁, t₁).
      mono (add_input-GrowsTo s t n₁ (g₁.places s h) t₁) λ (_, n₂) (g₂, _). (Grows-trans g₁ g₂, tt)

  pub call_panic_function-GrowsTo :
      (s u : PlaceRef) (function_name : String) (n : Net)
      → PlaceIn (view n) s
      → PlaceIn (view n) u
      → Returns (GrowsTo n λ _ v. Unit {0}) (call_panic_function s u function_name n)
  unfolding call_panic_function
  call_panic_function-GrowsTo s u f n h k =
      bind (connect_places-GrowsTo s u _ n h k) λ (t, n₁) (g₁, t₁). returns (g₁, tt)

  pub new_mutex-GrowsTo :
      (index : ℕ) (n : Net) → Returns (GrowsTo n λ m v. MutexIn v m) (Mutex.new index n)
  new_mutex-GrowsTo index n = mono (new-unlocked L index n) λ (m, n') (fresh, e, none_yet). (
    rw e (Grows-with_marked_place m.mutex (view n) fresh),
    record { place = rw (e, ==_refl) refl; deref_mut = rw none_yet tt },
  )

  pub new_condvar-GrowsTo :
      (index : ℕ) (n : Net)
      → Returns
          (GrowsTo n λ c v. CondvarIn v c × (c.already_linked_to_call ≡ false))
          (Condvar.new index n)
  new_condvar-GrowsTo index n = mono (new-CondvarModel L index n) λ (c, n') (we, ls, m). (
    record {
      places = λ p h. ground (arith, m.new_places p);
      transitions = λ t h. ground (arith, m.new_transitions t);
      tokens = m.old_tokens;
      safe =
          two_places-IsSafe (view n) (view n') we c.notify m.new_places m.wait_enabled_marked
            m.notify_empty m.old_tokens;
    },
    (
      record {
        wait_start = ground (arith, m.new_transitions c.wait_start);
        notify = ground (arith, m.new_places c.notify);
        notify_received = ground (arith, m.new_transitions c.notify_received);
      },
      m.unlinked,
    ),
  )

  Linked-Grows :
      {v w : View} {s e : PlaceRef} {ws : TransitionRef} (ts : List TransitionRef)
      → Linked v w s e ws ts
      → Grows v w
  Linked-Grows {v} {w} [] (never_set same) = rw same (Grows-refl _)
  Linked-Grows {v} {w} (t ∷ ts) (condition ns se sk m) = record {
    places = λ p h. ground (arith, m.new_places p);
    transitions = λ t h. ground (arith, m.new_transitions t);
    tokens = m.old_tokens;
    safe = two_places-IsSafe v w ns se m.new_places m.not_set_marked m.is_set_empty m.old_tokens;
  }

  pub link_to_condvar-GrowsTo :
      (m : Mutex) (index : ℕ) (s e : PlaceRef) (ws : TransitionRef) (n : Net)
      → PlaceIn (view n) s
      → PlaceIn (view n) e
      → TransitionIn (view n) ws
      → MutexIn (view n) m
      → Returns (GrowsTo n λ _ v. Unit {0}) (Mutex.link_to_condvar m index s e ws n)
  link_to_condvar-GrowsTo m index s e ws n hs he hw hm =
      mono (link_to_condvar-Linked L m index s e ws n hs he hw hm.deref_mut)
        λ (_, n') l. (Linked-Grows m.deref_mut l, tt)

  join_arc-GrowsTo :
      (join : Option TransitionRef) (p : PlaceRef) (n : Net)
      → OptionIn (view n) join
      → PlaceIn (view n) p
      → Returns (GrowsTo n λ _ v. Unit {0}) (join_arc join p n)
  unfolding join_arc
  join_arc-GrowsTo none p n h k = returns (Grows-refl _, tt)
  join_arc-GrowsTo (some t) p n h k = add_input-GrowsTo p t n k h

  pub prepare_for_translation-GrowsTo :
      {o : Objects} (t : Thread) (n : Net)
      → ThreadIn (view n) o t
      → Returns
          (GrowsTo n λ (d, s, e) v. PlaceIn v s × PlaceIn v e × (d ≡ t.def_id))
          (prepare_for_translation t n)
  unfolding prepare_for_translation
  prepare_for_translation-GrowsTo t n h = bind (add_place-GrowsTo _ n) λ (s, n₁) (g₁, s₁).
      bind (add_place-GrowsTo _ n₁) λ (e, n₂) (g₂, e₂).
        let g = Grows-trans g₁ g₂ in
        bind
          (add_output-GrowsTo t.spawn_transition s n₂ (g.transitions t.spawn_transition h.spawn)
            (g₂.places s s₁))
          λ (_, n₃) (g₃, _).
            let g' = Grows-trans g g₃ in
            bind
              (join_arc-GrowsTo t.join_transition e n₃ (OptionIn-Grows g' t.join_transition h.join)
                (g₃.places e e₂))
              λ (_, n₄) (g₄, _). returns (
                Grows-trans g' g₄,
                (g₄.places s (g₃.places s (g₂.places s s₁)), g₄.places e (g₃.places e e₂), refl),
              )
