-- ===== src/Safety/Thread.antt =====
-- The handlers of src/translator/sync/thread.rs.
use granite.Common.{ℕ, String, refl, ◌==◌, inl, inr, Bool-cases, List, [], ◌∷◌}
use granite.Common.Outcome.Safe
use granite.Common.Outcome.Safe.{Safe, panics, via, last, of_Returns}
use granite.PetriNet.{PetriNet}
use granite.PetriNet.View.{View, Laws}
use granite.Mir.{
  Place, local_place, ProjectionElem, deref, field, other_elem, Operand, VarDebugInfoContents,
  place, constant, TyCtxt,
}
use granite.Utils.{field_number, get_field_number_in_projection}
use granite.Function.{Places, get_default}
use granite.Objects.{Objects, Thread}
use granite.Memory.{Memory}
use granite.Context.{Context}
use granite.Sync.Thread.{link_fields, move_sync_variables, call_join}
use granite.Safety.World.{PlacesIn, MapIn, MapIn-Spans, ThreadIn}
use granite.Safety.Net.{call_foreign_function-GrowsTo}
use granite.Safety.Memory.{
  MemoryIn, argument-Safe, get_join_handle-Safe, link_aggregate-Safe, link_field_in_aggregate-Safe,
}
use granite.Safety.Objects.{set_join_transition-Safe}
use granite.Safety.Step.{
  ContextIn, Step, Step-net, ignore_cleanup_place-PlacesIn, get_default-TransitionIn,
}

field_number-Safe : (es : List ProjectionElem) → Safe (λ n. Unit {0}) (field_number es)
unfolding field_number
field_number-Safe [] = panics refl
field_number-Safe (field n ∷ es) = Safe.returns tt
field_number-Safe (deref ∷ es) = field_number-Safe es
field_number-Safe (other_elem n ∷ es) = field_number-Safe es

pub get_field_number_in_projection-Safe :
    (p : Place) → Safe (λ n. Unit {0}) (get_field_number_in_projection p)
unfolding get_field_number_in_projection
get_field_number_in_projection-Safe p = field_number-Safe p.projection

module _ (o : Objects) where
  link_fields-Safe :
      (infos : List VarDebugInfoContents) (m : Memory)
      → MapIn o m.map
      → Safe (MemoryIn o) (link_fields infos m)
  unfolding link_fields
  link_fields-Safe [] m h = Safe.returns h
  link_fields-Safe (constant ∷ infos) m h = link_fields-Safe infos m h
  link_fields-Safe (place p ∷ infos) m h = elim (Bool-cases (p.local == 1)) [
    | inl captured ↦ rw captured (
        via _ _ (get_field_number_in_projection-Safe p) λ n _.
          Safe.bind (link_field_in_aggregate-Safe o p (local_place 1) n m h)
            λ (_, m₁) h₁. link_fields-Safe infos m₁ h₁)
    | inr other ↦ rw other (link_fields-Safe infos m h)
  ]

  pub move_sync_variables-Safe :
      {v : View} (t : Thread) (tcx : TyCtxt) (m : Memory)
      → ThreadIn v o t
      → MapIn o m.map
      → Safe (MemoryIn o) (move_sync_variables t tcx m)
  unfolding move_sync_variables
  move_sync_variables-Safe t tcx m ht h =
      Safe.bind (link_aggregate-Safe o (local_place 1) t.aggregate m h ht.aggregate)
        λ (_, m₁) h₁. link_fields-Safe (tcx.var_debug_info t.def_id) m₁ h₁

module _ {Net : Type 0} ⦃api : PetriNet Net⦄ (L : Laws Net) where
  open L use {view}

  pub call_join-Safe :
      (f : String) (i : ℕ) (args : List Operand) (places : Places) (c : Context Net)
      → ContextIn L c
      → PlacesIn (view c.net) places
      → Safe (λ (_, c'). Step L c c') (call_join f i args places c)
  unfolding call_join
  call_join-Safe f i args places c h hp =
      let basic = ignore_cleanup_place-PlacesIn (view c.net) places hp in
      via _ _ (of_Returns (call_foreign_function-GrowsTo L f i _ c.net basic)) λ (ts, n₁) (g₁, t₁).
        let o = c.store.objects in
        let s = Step-net L c n₁ h g₁ in
        via _ _ (argument-Safe args 0) λ p _.
          via _ _ (get_join_handle-Safe o p c.store.memory h.memory) λ r lt.
            last _
              (set_join_transition-Safe o s.inside.objects r (get_default ts) lt
                (get_default-TransitionIn (view n₁) ts t₁))
              λ (_, o₁) k. record {
                inside = record { objects = k.inside; memory = MapIn-Spans _ k.spans h.memory };
                grows = s.grows;
                spans = k.spans;
                keeps = k.keeps;
              }
