-- ===== src/Safety/Condvar.antt =====
-- The handlers of src/translator/sync/condvar.rs.
use granite.Common.{
  some, refl, ℕ, String, ◌<◌, ◌≡◌, sym, ap, ◌∙◌, true, get_elem?, get_elem?-set_self, inl, inr,
  Bool-cases, List, length, arith,
}
use granite.Common.Outcome.{ok, dangling}
use granite.Common.Outcome.Returns.{ok-injective, expect_ok}
use granite.Common.Outcome.Safe
use granite.Common.Outcome.Safe.{Safe, panics, via, last, of_Returns}
use granite.PetriNet.{PlaceRef, TransitionRef, PetriNet}
use granite.PetriNet.View.{Laws}
use granite.PetriNet.Grows.{Grows, Grows-trans, PlaceIn}
use granite.Mir.{Place, Operand}
use granite.Function.{
  PostprocessingTask, Places, get_default, get_start_end_place, ignore_cleanup_place,
  link_mutex_to_condvar_task,
}
use granite.Objects.{Condvar, Guard, Objects, condvar_at, set_condvar}
use granite.Safety.Listed.{has_wait, AllRegistered}
use granite.Memory.{link_condvar}
use granite.Context.{Context}
use granite.Sync.Mutex
use granite.Sync.Condvar
use granite.Safety.World.{
  Spans, Spans-trans, PlacesIn, ObjectsIn-Grows, MapIn-Spans, CondvarIn, CondvarIn-Grows,
  condvar_in,
}
use granite.Safety.Net.{
  call_foreign_function-GrowsTo, add_input-GrowsTo, add_output-GrowsTo, new_condvar-GrowsTo,
}
use granite.Safety.Memory.{
  argument-Safe, insert-MapIn, get_condvar-Safe, get_mutex_guard-Safe,
  link_place_to_same_value-Safe,
}
use granite.Safety.Objects.{
  mutex_at-Safe, condvar_at-Safe, set_condvar-Marked, new_condvar_ref-Kept,
}
use granite.Safety.Step.{
  ContextIn, TaskStep, Step, Step-net, ignore_cleanup_place-PlacesIn, get_default-TransitionIn,
}

module _ {Net : Type 0} ⦃api : PetriNet Net⦄ (L : Laws Net) where
  open L use {view}

  pub call_new_condvar-Safe :
      (f : String) (i : ℕ) (d : Place) (places : Places) (c : Context Net)
      → ContextIn L c
      → PlacesIn (view c.net) places
      → Safe (λ (_, c'). Step L c c') (Condvar.call_new f i d places c)
  unfolding Condvar.call_new link_condvar
  call_new_condvar-Safe f i d places c h hp =
      via _ _ (of_Returns (call_foreign_function-GrowsTo L f i places c.net hp))
        λ (ts, n₁) (g₁, t₁).
          via _ _ (of_Returns (new_condvar-GrowsTo L i n₁)) λ (cv, n₂) (g₂, (hcv, fresh)).
            let s = Step-net L c n₂ h (Grows-trans g₁ g₂) in
            let (k, lt) = new_condvar_ref-Kept c.store.objects s.inside.objects cv hcv fresh in
            Safe.returns (record {
              inside = record {
                objects = k.inside;
                memory = insert-MapIn _ d _ _ (MapIn-Spans _ k.spans h.memory) (condvar_in lt);
              };
              grows = s.grows;
              spans = k.spans;
              keeps = k.keeps;
            })

  pub call_notify_one-Safe :
      (f : String) (i : ℕ) (args : List Operand) (places : Places) (c : Context Net)
      → ContextIn L c
      → PlacesIn (view c.net) places
      → Safe (λ (_, c'). Step L c c') (Condvar.call_notify_one f i args places c)
  unfolding Condvar.call_notify_one Condvar.link_to_notify_one_call
  call_notify_one-Safe f i args places c h hp =
      let basic = ignore_cleanup_place-PlacesIn (view c.net) places hp in
      via _ _ (of_Returns (call_foreign_function-GrowsTo L f i _ c.net basic)) λ (ts, n₁) (g₁, t₁).
        let o = c.store.objects in
        via _ _ (argument-Safe args 0) λ p _.
          via _ _ (get_condvar-Safe o p c.store.memory h.memory) λ r lt.
            via _ _ (condvar_at-Safe o (ObjectsIn-Grows g₁ o h.objects) r lt) λ cv hcv.
              last _
                (of_Returns (
                  add_output-GrowsTo L (get_default ts) cv.notify n₁
                    (get_default-TransitionIn (view n₁) ts t₁) hcv.notify))
                λ (_, n₂) (g₂, _). Step-net L c n₂ h (Grows-trans g₁ g₂)

  -- the arcs of a wait change only the net
  add_wait_arcs-Safe :
      (cv : Condvar) (s e : PlaceRef) (g : Guard) (c : Context Net)
      → ContextIn L c
      → CondvarIn (view c.net) cv
      → PlaceIn (view c.net) s
      → PlaceIn (view c.net) e
      → g.mutex < length c.store.objects.mutexes
      → Safe (λ (_, c'). Step L c c' × (c'.store ≡ c.store)) (Condvar.add_wait_arcs cv s e g c)
  unfolding Condvar.add_wait_arcs Mutex.add_unlock_arc Mutex.add_lock_arc
  add_wait_arcs-Safe cv s e g c h hcv hs he lt =
      via _ _ (of_Returns (add_input-GrowsTo L s cv.wait_start c.net hs hcv.wait_start))
        λ (_, n₁) (g₁, _).
          let cv₁ = CondvarIn-Grows g₁ cv hcv in
          via _ _
            (of_Returns
              (add_output-GrowsTo L cv.notify_received e n₁ cv₁.notify_received (g₁.places e he)))
            λ (_, n₂) (g₂, _).
              let o = c.store.objects in
              let cv₂ = CondvarIn-Grows g₂ cv cv₁ in
              let s₂ = Step-net L c n₂ h (Grows-trans g₁ g₂) in
              via _ _ (mutex_at-Safe o s₂.inside.objects g.mutex lt) λ m hm.
                via _ _
                  (of_Returns
                    (add_output-GrowsTo L cv.wait_start m.mutex n₂ cv₂.wait_start hm.place))
                  λ (_, n₃) (g₃, _).
                    let cv₃ = CondvarIn-Grows g₃ cv cv₂ in
                    last _
                      (of_Returns (
                        add_input-GrowsTo L m.mutex cv.notify_received n₃
                          (g₃.places m.mutex hm.place) cv₃.notify_received))
                      λ (_, n₄) (g₄, _). (
                        Step-net L c n₄ h (Grows-trans (Grows-trans g₁ g₂) (Grows-trans g₃ g₄)),
                        refl,
                      )

  -- from `c` to `c'`, where the condition variable `r` is linked to a call of `wait`
  record WaitStep (r : ℕ) (c c' : Context Net) : Type 0 where
    inside : ContextIn L c'
    grows : Grows (view c.net) (view c'.net)
    spans : Spans c.store.objects c'.store.objects
    mutexes : length c'.store.objects.mutexes ≡ length c.store.objects.mutexes
    marks :
        (w : TransitionRef) × ((cv : Condvar)
          → condvar_at r c'.store.objects ≡ ok cv
          → cv.wait_start ≡ w)
        × ((ts : List PostprocessingTask)
            → has_wait w ts ≡ true
            → AllRegistered c.store.objects ts
            → AllRegistered c'.store.objects ts)

  -- the condition variable that was changed is the one that is read again
  set_condvar_again :
      (o o₁ : Objects) (r : ℕ) (cv new : Condvar)
      → condvar_at r o ≡ ok cv
      → o₁.condvars ≡ o.condvars
      → condvar_at r (set_condvar r new o₁) ≡ ok new
  unfolding condvar_at set_condvar
  set_condvar_again o o₁ r cv new found same = rw same (
      rw
        (get_elem?-set_self o.condvars r new cv (expect_ok dangling (get_elem? o.condvars r) found))
        refl)

  link_to_wait_call-Safe :
      (r : ℕ) (s e : PlaceRef) (g : Guard) (c : Context Net)
      → ContextIn L c
      → r < length c.store.objects.condvars
      → PlaceIn (view c.net) s
      → PlaceIn (view c.net) e
      → g.mutex < length c.store.objects.mutexes
      → Safe (λ (_, c'). WaitStep r c c') (Condvar.link_to_wait_call r s e g c)
  unfolding Condvar.link_to_wait_call
  link_to_wait_call-Safe r s e g c h lt hs he gl =
      via _ _ (Safe.with_result (condvar_at-Safe c.store.objects h.objects r lt)) λ cv (found, hcv).
        elim (Bool-cases cv.already_linked_to_call) [
          | inl again ↦ rw again (panics refl)
          | inr first ↦ rw first (
              Safe.bind (add_wait_arcs-Safe cv s e g c h hcv hs he gl) λ (_, c₁) (s₁, same).
                let hcv₁ = CondvarIn-Grows s₁.grows cv hcv in
                let new = record cv { already_linked_to_call = true } in
                let k = set_condvar-Marked c₁.store.objects s₁.inside.objects r new (record {
                  wait_start = hcv₁.wait_start;
                  notify = hcv₁.notify;
                  notify_received = hcv₁.notify_received;
                }) in
                let read =
                  set_condvar_again c.store.objects c₁.store.objects r cv new found
                    (ap (λ x. x.objects.condvars) same) in
                Safe.returns (record {
                  inside = record {
                    objects = k.inside;
                    memory = MapIn-Spans _ k.spans s₁.inside.memory;
                  };
                  grows = s₁.grows;
                  spans = Spans-trans s₁.spans k.spans;
                  mutexes = k.mutexes ∙ s₁.keeps.mutexes;
                  marks = (
                    cv.wait_start,
                    (λ cv' e'. ap (λ x. x.wait_start) (ok-injective (sym e' ∙ read))),
                    λ ts there_ q. k.waits ts there_ (s₁.keeps.waits ts q),
                  );
                }))
        ]

  pub call_wait-Safe :
      (f : String) (i : ℕ) (args : List Operand) (d : Place) (places : Places) (c : Context Net)
      → ContextIn L c
      → PlacesIn (view c.net) places
      → Safe (λ (t, c'). TaskStep L c (some t) c') (Condvar.call_wait f i args d places c)
  unfolding Condvar.call_wait link_mutex_to_condvar_task get_start_end_place ignore_cleanup_place
  call_wait-Safe f i args d places c h hp =
      let o = c.store.objects in
      via _ _ (argument-Safe args 0) λ p _.
        via _ _ (get_condvar-Safe o p c.store.memory h.memory) λ r lt.
          via _ _ (argument-Safe args 1) λ q _.
            via _ _ (get_mutex_guard-Safe o q c.store.memory h.memory) λ g gl.
              let (hs, he) = ends-PlaceIn places hp in
              Safe.bind (link_to_wait_call-Safe r _ _ g c h lt hs he gl) λ (_, c₁) s₁.
                let o₁ = c₁.store.objects in
                via _ _
                  (Safe.with_result
                    (condvar_at-Safe o₁ s₁.inside.objects r (omega (arith, s₁.spans))))
                  λ cv (found, hcv).
                    via _ _ (link_place_to_same_value-Safe o₁ d q c₁.store.memory s₁.inside.memory)
                      λ (_, m₂) hm₂. Safe.returns (record {
                        inside = record { objects = s₁.inside.objects; memory = hm₂ };
                        grows = s₁.grows;
                        spans = s₁.spans;
                        task = (s₁.grows.places _ hs, s₁.grows.places _ he, hcv.wait_start);
                        lists = (
                          s₁.mutexes,
                          refl,
                          λ ts there_. s₁.marks.2 ts (rw (sym (s₁.marks.1 cv found)) there_),
                        );
                      })
    where
      ends-PlaceIn :
          (ps : Places)
          → PlacesIn (view c.net) ps
          → PlaceIn (view c.net) (get_start_end_place (ignore_cleanup_place ps)).0
            × PlaceIn (view c.net) (get_start_end_place (ignore_cleanup_place ps)).1
      ends-PlaceIn (Places.basic s e) k = k
      ends-PlaceIn (Places.with_cleanup s e u) k = (k.0, k.1)
