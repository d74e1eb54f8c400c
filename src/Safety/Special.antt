-- ===== src/Safety/Special.antt =====
-- The calls of `Translator.Special`: each from a well-formed state to a well-formed one.
use granite.Common.{◌≡◌, some, String, inl, inr, Bool-cases, List, str_eq, length, arith, ◌<◌}
use granite.Common.Outcome.Safe
use granite.Common.Outcome.Safe.{Safe, branch, panics, via, last, of_expect, with_result}
use granite.PetriNet.{TransitionRef, PetriNet}
use granite.PetriNet.View.{Laws}
use granite.PetriNet.Grows.{TransitionIn, Grows-refl, Grows-trans}
use granite.Mir.{DefId, Place, Operand}
use granite.Objects.{Thread}
use granite.Memory.{link_join_handle, insert_value}
use granite.Function.{Places, Transitions, get_default}
use granite.Context.{on_store}
use granite.Sync.Thread
use granite.Translator.{Translator, with_context}
use granite.Sync.Mutex.{handle_mutex_guard_drop}
use granite.Translator.Special.{
  is_self_ref_mutex, call_foreign_function, drop_guards, call_mem_drop, note_deref_mut,
  call_deref_mutex, call_unwrap_mutex, call_thread_spawn,
}
use granite.Safety.World.{
  PlacesIn, TransitionsIn, ThreadIn, ThreadIn-Grows, ValuesIn, MapIn-Spans, handle_in,
}
use granite.Safety.ThreadDefs.{def_at}
use granite.Safety.Allowed.{MaySpawn, called_in}
use granite.Safety.Net.{call_foreign_function-GrowsTo}
use granite.Safety.Memory.{argument-Safe, insert-MapIn, get_mutex_guard-Safe}
use granite.Safety.Objects.{new_thread_ref-Kept, add_deref_mut_transition-Safe}
use granite.Safety.Step.{
  ignore_cleanup_place-PlacesIn, get_default-TransitionIn, PlacesIn-Grows, TransitionsIn-Grows,
  on_net-Safe, on_memory-Safe, read_memory-Safe,
}
use granite.Safety.Mutex.{handle_mutex_guard_drop-Safe}
use granite.Safety.Tracking.{link_return_value_if_sync_variable-Safe}
use granite.Safety.State.{
  Outline, enter, Inv, Moves, Nothing, next, stay, read_top-Safe, with_context-Safe, get_count-Safe,
  push_thread-Safe, ThreadRefIn,
}
use granite.Safety.Arguments.{
  called_function-Safe, first_operand-Safe, extract_closure-Safe, closure_aggregate-Safe,
}

module _ {Net : Type 0} ⦃api : PetriNet Net⦄ (L : Laws Net) (here : DefId) (n : Outline) where
  open L use {view}

  pub is_self_ref_mutex-Safe :
      (args : List Operand) (s : Translator Net)
      → Inv L (enter here n) s
      → Safe (Moves L (enter here n) s (Nothing L)) (is_self_ref_mutex args s)
  unfolding is_self_ref_mutex
  is_self_ref_mutex-Safe args s h = via _ _ (argument-Safe args 0) λ p _.
      next L (read_top-Safe L here n s h (Nothing L) _ λ f hf. Safe.returns tt)
        λ (f, s₁) m₁. stay L _ m₁.inv tt

  pub call_foreign_function-Safe :
      (f : String) (args : List Operand) (d : Place) (places : Places) (s : Translator Net)
      → Inv L (enter here n) s
      → PlacesIn (view s.net) places
      → Safe
          (Moves L (enter here n) s λ ts v o. TransitionsIn v ts)
          (call_foreign_function f args d places s)
  unfolding call_foreign_function
  call_foreign_function-Safe f args d places s h hp =
      next L (get_count-Safe L (enter here n) s h f) λ (i, s₁) m₁.
        next L
          (with_context-Safe L here n s₁ m₁.inv (λ ts v o. TransitionsIn v ts) _
            λ c hc g p.
              on_net-Safe L (λ ts v. TransitionsIn v ts) c hc
                (call_foreign_function-GrowsTo L f i places c.net
                  (PlacesIn-Grows places g (PlacesIn-Grows places m₁.grows hp))))
          λ (ts, s₂) m₂.
            next L (read_top-Safe L here n s₂ m₂.inv (Nothing L) _ λ f hf. Safe.returns tt)
              λ (caller, s₃) m₃.
                next L
                  (with_context-Safe L here n s₃ m₃.inv (Nothing L) _ λ c hc g p.
                    on_memory-Safe L c hc (
                      link_return_value_if_sync_variable-Safe c.store.objects caller.def_id s.tcx
                        args d c.store.memory hc.memory))
                  λ (_, s₄) m₄.
                    stay L ts m₄.inv
                      (TransitionsIn-Grows ts m₄.grows (TransitionsIn-Grows ts m₃.grows m₂.result))

  pub drop_guard-Safe :
      (p : Place) (t : TransitionRef) (s : Translator Net)
      → Inv L (enter here n) s
      → TransitionIn (view s.net) t
      → Safe (Moves L (enter here n) s (Nothing L)) (with_context (handle_mutex_guard_drop p t) s)
  drop_guard-Safe p t s h ht = with_context-Safe L here n s h (Nothing L) _ λ c hc g q.
      Safe.mono (handle_mutex_guard_drop-Safe L p t c hc (g.transitions t ht)) λ r step. (step, tt)

  drop_guards-Safe :
      (p : Place) (ts : Transitions) (s : Translator Net)
      → Inv L (enter here n) s
      → TransitionsIn (view s.net) ts
      → Safe (Moves L (enter here n) s (Nothing L)) (drop_guards p ts s)
  unfolding drop_guards
  drop_guards-Safe p (Transitions.basic t) s h ht = drop_guard-Safe p t s h ht
  drop_guards-Safe p (Transitions.with_cleanup t u) s h ht =
      next L (drop_guard-Safe p t s h ht.0)
        λ (_, s₁) m₁. drop_guard-Safe p u s₁ m₁.inv (m₁.grows.transitions u ht.1)

  pub call_mem_drop-Safe :
      (f : String) (args : List Operand) (d : Place) (places : Places) (s : Translator Net)
      → Inv L (enter here n) s
      → PlacesIn (view s.net) places
      → Safe (Moves L (enter here n) s (Nothing L)) (call_mem_drop f args d places s)
  unfolding call_mem_drop
  call_mem_drop-Safe f args d places s h hp =
      next L (call_foreign_function-Safe f args d places s h hp) λ (ts, s₁) m₁.
        via _ _ (argument-Safe args 0) λ p _. drop_guards-Safe p ts s₁ m₁.inv m₁.result

  note_deref_mut-Safe :
      (args : List Operand) (t : TransitionRef) (s : Translator Net)
      → Inv L (enter here n) s
      → TransitionIn (view s.net) t
      → Safe (Moves L (enter here n) s (Nothing L)) (note_deref_mut args t s)
  unfolding note_deref_mut
  note_deref_mut-Safe args t s h ht = via _ _ (argument-Safe args 0) λ p _.
      next L
        (with_context-Safe L here n s h (λ g v o. g.mutex < length o.mutexes) _
          λ c hc _ _.
            read_memory-Safe L (λ g o. g.mutex < length o.mutexes) c hc
              (get_mutex_guard-Safe c.store.objects p c.store.memory hc.memory))
        λ (guard, s₁) m₁. with_context-Safe L here n s₁ m₁.inv (Nothing L) _ λ c hc g q.
          last _
            (add_deref_mut_transition-Safe c.store.objects hc.objects guard.mutex t
              (omega (arith, q.mutexes, m₁.result)) (g.transitions t (m₁.grows.transitions t ht)))
            λ (_, o') k. (
              record {
                inside = record { objects = k.inside; memory = MapIn-Spans _ k.spans hc.memory };
                grows = Grows-refl (view c.net);
                spans = k.spans;
                keeps = k.keeps;
              },
              tt,
            )

  pub call_deref_mutex-Safe :
      (f : String) (args : List Operand) (d : Place) (places : Places) (s : Translator Net)
      → Inv L (enter here n) s
      → PlacesIn (view s.net) places
      → Safe (Moves L (enter here n) s (Nothing L)) (call_deref_mutex f args d places s)
  unfolding call_deref_mutex
  call_deref_mutex-Safe f args d places s h hp =
      next L
        (call_foreign_function-Safe f args d _ s h
          (ignore_cleanup_place-PlacesIn (view s.net) places hp))
        λ (ts, s₁) m₁. elim (Bool-cases (str_eq f "std::ops::DerefMut::deref_mut")) [
          | inl set ↦ rw set (
              note_deref_mut-Safe args (get_default ts) s₁ m₁.inv
                (get_default-TransitionIn (view s₁.net) ts m₁.result))
          | inr get ↦ rw get (stay L tt m₁.inv tt)
        ]

  pub call_unwrap_mutex-Safe :
      (f : String) (args : List Operand) (d : Place) (places : Places) (s : Translator Net)
      → Inv L (enter here n) s
      → PlacesIn (view s.net) places
      → Safe (Moves L (enter here n) s (Nothing L)) (call_unwrap_mutex f args d places s)
  unfolding call_unwrap_mutex
  call_unwrap_mutex-Safe f args d places s h hp =
      next L
        (call_foreign_function-Safe f args d _ s h
          (ignore_cleanup_place-PlacesIn (view s.net) places hp))
        λ (ts, s₁) m₁. stay L tt m₁.inv tt

  link_thread-Safe :
      (d : Place) (t : Thread) (s : Translator Net)
      → Inv L (enter here n) s
      → ThreadIn (view s.net) s.objects t
      → Safe
          (Moves L (enter here n) s λ r v o. ThreadRefIn o r × (def_at o.threads r ≡ some t.def_id))
          (with_context (on_store (link_join_handle d t)) s)
  unfolding link_join_handle insert_value
  link_thread-Safe d t s h ht =
      with_context-Safe L here n s h
        (λ r v o. ThreadRefIn o r × (def_at o.threads r ≡ some t.def_id)) _
        λ c hc g p.
          let (k, lt, runs) =
            new_thread_ref-Kept c.store.objects hc.objects t (ThreadIn-Grows g p t ht) in
          Safe.returns (
            record {
              inside = record {
                objects = k.inside;
                memory = insert-MapIn _ d _ _ (MapIn-Spans _ k.spans hc.memory) (handle_in lt);
              };
              grows = Grows-refl (view c.net);
              spans = k.spans;
              keeps = k.keeps;
            },
            (lt, runs),
          )

  pub call_thread_spawn-Safe :
      (f : String) (args : List Operand) (d : Place) (places : Places) (s : Translator Net)
      → Inv L (enter here n) s
      → PlacesIn (view s.net) places
      → MaySpawn n.program here n.may_spawn args
      → Safe (Moves L (enter here n) s (Nothing L)) (call_thread_spawn f args d places s)
  unfolding call_thread_spawn Thread.new
  call_thread_spawn-Safe f args d places s h hp allowed =
      next L (call_foreign_function-Safe f args d places s h hp) λ (ts, s₁) m₁.
        next L
          (read_top-Safe L here n s₁ m₁.inv (λ f v o. f.def_id ≡ here) _
            λ f hf. Safe.returns hf.def_id)
          λ (caller, s₂) m₂. via _ _ (with_result (first_operand-Safe args)) λ a (is_first, _).
            via _ _ (with_result (called_function-Safe a caller.def_id s.tcx)) λ id (is_called, _).
              via _ _ (extract_closure-Safe args) λ closure _.
                next L
                  (with_context-Safe L here n s₂ m₂.inv (λ vs v o. ValuesIn o vs) _
                    λ c hc g p.
                      read_memory-Safe L (λ vs o. ValuesIn o vs) c hc
                        (closure_aggregate-Safe c.store.objects closure c.store.memory hc.memory))
                  λ (vs, s₃) m₃.
                    let g = Grows-trans m₂.grows m₃.grows in
                    next L
                      (link_thread-Safe d _ s₃ m₃.inv (record {
                        spawn =
                            g.transitions (get_default ts)
                              (get_default-TransitionIn (view s₁.net) ts m₁.result);
                        join = tt;
                        aggregate = m₃.result;
                      }))
                      λ (r, s₄) m₄. push_thread-Safe L (enter here n) s₄ m₄.inv r m₄.result.0 (
                        id,
                        m₄.result.1,
                        allowed a id is_first (called_in a id m₂.result h.program is_called),
                      )
