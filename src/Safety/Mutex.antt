-- ===== src/Safety/Mutex.antt =====
-- The handlers of src/translator/sync/mutex.rs: from a well-formed context to a well-formed one.
use granite.Common.{some, refl, ℕ, String, inl, inr, Bool-cases, List}
use granite.Common.Outcome.Safe.{Safe, via, last, of_Returns}
use granite.PetriNet.{TransitionRef, PetriNet}
use granite.PetriNet.View.{Laws}
use granite.PetriNet.Grows.{Grows-refl, Grows-trans, TransitionIn}
use granite.Mir.{Place, Operand}
use granite.Function.{Places, get_default, new_mutex_task}
use granite.Memory.{is_mutex_guard, link_mutex, link_mutex_guard}
use granite.Context.{Context}
use granite.Sync.Mutex
use granite.Safety.World.{PlacesIn, ObjectsIn-Grows, MapIn-Spans, guard_in, mutex_in}
use granite.Safety.Net.{
  call_foreign_function-GrowsTo, add_input-GrowsTo, add_output-GrowsTo, new_mutex-GrowsTo,
}
use granite.Safety.Memory.{argument-Safe, insert-MapIn, get_mutex-Safe, get_mutex_guard-Safe}
use granite.Safety.Objects.{mutex_at-Safe, new_mutex_ref-Added}
use granite.Safety.Step.{
  ContextIn, TaskStep, Step, Step-net, ignore_cleanup_place-PlacesIn, get_default-TransitionIn,
}

module _ {Net : Type 0} ⦃api : PetriNet Net⦄ (L : Laws Net) where
  open L use {view}

  pub call_lock-Safe :
      (f : String) (i : ℕ) (args : List Operand) (d : Place) (places : Places) (c : Context Net)
      → ContextIn L c
      → PlacesIn (view c.net) places
      → Safe (λ (_, c'). Step L c c') (Mutex.call_lock f i args d places c)
  unfolding Mutex.call_lock Mutex.add_lock_arc link_mutex_guard
  call_lock-Safe f i args d places c h hp =
      let basic = ignore_cleanup_place-PlacesIn (view c.net) places hp in
      via _ _ (of_Returns (call_foreign_function-GrowsTo L f i _ c.net basic)) λ (ts, n₁) (g₁, t₁).
        let o = c.store.objects in
        via _ _ (argument-Safe args 0) λ p _.
          via _ _ (get_mutex-Safe o p c.store.memory h.memory) λ r lt.
            via _ _ (mutex_at-Safe o (ObjectsIn-Grows g₁ o h.objects) r lt) λ m hm.
              via _ _
                (of_Returns (
                  add_input-GrowsTo L m.mutex (get_default ts) n₁ hm.place
                    (get_default-TransitionIn (view n₁) ts t₁)))
                λ (_, n₂) (g₂, _).
                  let s = Step-net L c n₂ h (Grows-trans g₁ g₂) in
                  Safe.returns (record {
                    inside = record {
                      objects = s.inside.objects;
                      memory = insert-MapIn o d _ c.store.memory.map h.memory (guard_in lt);
                    };
                    grows = s.grows;
                    spans = s.spans;
                    keeps = s.keeps;
                  })

  pub call_new_mutex-Safe :
      (f : String) (i : ℕ) (d : Place) (places : Places) (c : Context Net)
      → ContextIn L c
      → PlacesIn (view c.net) places
      → Safe (λ (t, c'). TaskStep L c (some t) c') (Mutex.call_new f i d places c)
  unfolding Mutex.call_new link_mutex new_mutex_task
  call_new_mutex-Safe f i d places c h hp =
      via _ _ (of_Returns (call_foreign_function-GrowsTo L f i places c.net hp))
        λ (ts, n₁) (g₁, t₁). via _ _ (of_Returns (new_mutex-GrowsTo L i n₁)) λ (m, n₂) (g₂, hm).
          let s = Step-net L c n₂ h (Grows-trans g₁ g₂) in
          let (k, lt) = new_mutex_ref-Added c.store.objects s.inside.objects m hm in
          Safe.returns (record {
            inside = record {
              objects = k.inside;
              memory = insert-MapIn _ d _ _ (MapIn-Spans _ k.spans h.memory) (mutex_in lt);
            };
            grows = s.grows;
            spans = k.spans;
            task = lt;
            lists = (k.next, k.mutexes, refl, k.waits);
          })

  drop_guard-Safe :
      (p : Place) (t : TransitionRef) (c : Context Net)
      → ContextIn L c
      → TransitionIn (view c.net) t
      → Safe (λ (_, c'). Step L c c') (Mutex.drop_guard p t c)
  unfolding Mutex.drop_guard Mutex.add_unlock_arc
  drop_guard-Safe p t c h ht =
      let o = c.store.objects in
      via _ _ (get_mutex_guard-Safe o p c.store.memory h.memory) λ g lt.
        via _ _ (mutex_at-Safe o h.objects g.mutex lt) λ m hm.
          last _ (of_Returns (add_output-GrowsTo L t m.mutex c.net ht hm.place))
            λ (_, n₁) (g₁, _). Step-net L c n₁ h g₁

  pub handle_mutex_guard_drop-Safe :
      (p : Place) (t : TransitionRef) (c : Context Net)
      → ContextIn L c
      → TransitionIn (view c.net) t
      → Safe (λ (_, c'). Step L c c') (Mutex.handle_mutex_guard_drop p t c)
  unfolding Mutex.handle_mutex_guard_drop
  handle_mutex_guard_drop-Safe p t c h ht = elim (Bool-cases (is_mutex_guard p c.store.memory)) [
    | inl guard ↦ rw guard (drop_guard-Safe p t c h ht)
    | inr other ↦ rw other (Safe.returns (Step-net L c c.net h (Grows-refl (view c.net))))
  ]
