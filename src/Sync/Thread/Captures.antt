-- ===== src/Sync/Thread/Captures.antt =====
-- The sync variables that a thread captures: `move_sync_variables` of src/translator/sync/thread.rs.
use granite.Common.{
  ℕ, ◌≡◌, subst, refl, sym, ◌∙◌, true, false, some, inl, inr, Bool-cases, List, [], ◌∷◌, All, arith,
  ◌==◌,
}
use granite.Common.Outcome.{Outcome, ok, panic, and_then, expect, already_linked, no_field}
use granite.Common.Outcome.Returns.{and_then_ok, expect_ok, ok-injective}
use granite.Mir.{
  Place, local_place, place_eq, place_eq_refl, place_eq_iff, VarDebugInfoContents, place, constant,
  TyCtxt,
}
use granite.Utils.{get_field_number_in_projection}
use granite.Objects.{Value, ValueVec, aggregate, Thread}
use granite.Objects.Values.{get_value?}
use granite.Memory.{
  Memory, insert_new, link_aggregate, link_field_in_aggregate, copy_aggregate, get_linked_value,
}
use granite.Memory.Map.{PlaceMap, get, insert, contains_key, get-insert}
use granite.Sync.Thread.{link_fields, move_sync_variables}

-- what was linked stays linked
abbrev pub Extends : Memory → Memory → Type 0
Extends m m' = (q : Place) (v : Value) → get q m.map ≡ some v → get q m'.map ≡ some v

-- a place that is linked is not the new one
get-insert_new :
    (p q : Place) (v w : Value) (map : PlaceMap)
    → contains_key p map ≡ false
    → get q map ≡ some w
    → get q (insert p v map) ≡ some w
unfolding contains_key
get-insert_new p q v w map new linked = elim (Bool-cases (place_eq p q)) [
  | inl same ↦
      let there : get p map ≡ some w =
        subst (λ x. get x map ≡ some w) (sym ((place_eq_iff p q).0 same)) linked in
      let found : true ≡ false = rw there at new in cc
  | inr other ↦ get-insert p q v map ∙ rw other linked
]

insert_new_lem :
    (p : Place) (v : Value) (m : Memory) {r : Unit {0} × Memory}
    → insert_new p v m ≡ ok r
    → Extends m r.1 × (get p r.1.map ≡ some v)
unfolding insert_new
insert_new_lem p v m {r} e = elim (Bool-cases (contains_key p m.map)) [
  | inl old ↦
      let refused : ◌≡◌ {A = Outcome (Unit {0} × Memory)} (panic already_linked) (ok r) =
        rw old at e in
      cc
  | inr new ↦
      let linked : ◌≡◌ {A = Outcome (Unit {0} × Memory)}
          (ok (tt, record { map = insert p v m.map })) (ok r) =
        rw new at e in
      subst (λ (r' : Unit {0} × Memory). Extends m r'.1 × (get p r'.1.map ≡ some v))
        (ok-injective linked)
        (
          (λ q w h. get-insert_new p q v w m.map new h),
          get-insert p p v m.map ∙ rw (place_eq_refl p) refl,
        )
]

link_field_lem :
    (p q : Place) (i : ℕ) (m : Memory) (vs : ValueVec) {r : Unit {0} × Memory}
    → get q m.map ≡ some (aggregate vs)
    → link_field_in_aggregate p q i m ≡ ok r
    → Extends m r.1 × ((v : Value) × (get p r.1.map ≡ some v) × (get_value? vs i ≡ some v))
unfolding link_field_in_aggregate copy_aggregate get_linked_value
link_field_lem p q i m vs {r} linked e =
    let field : and_then (expect no_field (get_value? vs i)) (λ v. insert_new p v m) ≡ ok r =
      rw linked at e in
    let (v, e₁, e₂) = and_then_ok (expect no_field (get_value? vs i)) _ field in
    let (ext, here) = insert_new_lem p v m e₂ in
    (ext, (v, here, expect_ok no_field (get_value? vs i) e₁))

-- A variable that the thread captures is linked to the value of the aggregate at its number.
abbrev pub Captured : ValueVec → Memory → VarDebugInfoContents → Type 0
Captured vs m constant = Unit
Captured vs m (place p) =
    p.local ≡ 1
    → (k : ℕ) × (v : Value) × (get_field_number_in_projection p ≡ ok k)
      × (get_value? vs k ≡ some v)
      × (get p m.map ≡ some v)

-- a read that returns, in front of what comes after it
read_ok :
    {A B : Type 0} (o : Outcome A) (m : Memory) (f : A × Memory → Outcome B) {b : B}
    → and_then (and_then o λ a. ok (a, m)) f ≡ ok b
    → (a : A) × (o ≡ ok a) × (f (a, m) ≡ ok b)
read_ok (ok a) m f e = (a, refl, e)
read_ok (panic e') m f e = cc

link_fields_lem :
    (infos : List VarDebugInfoContents) (m : Memory) (vs : ValueVec) {r : Unit {0} × Memory}
    → get (local_place 1) m.map ≡ some (aggregate vs)
    → link_fields infos m ≡ ok r
    → Extends m r.1 × All (Captured vs r.1) infos
unfolding link_fields
link_fields_lem [] m vs {r} linked e =
    (subst (λ (r' : Unit {0} × Memory). Extends m r'.1) (ok-injective e) (λ q v h. h), tt)
link_fields_lem (constant ∷ infos) m vs linked e =
    let (ext, all) = link_fields_lem infos m vs linked e in (ext, (tt, all))
link_fields_lem (place p ∷ infos) m vs {r} linked e = elim (Bool-cases (p.local == 1)) [
  | inl captured ↦
      let steps = rw captured at e in
      let (k, number, f₁) = read_ok (get_field_number_in_projection p) m _ steps in
      let ((_, m₁), e₂, f₂) = and_then_ok (link_field_in_aggregate p (local_place 1) k m) _ f₁ in
      let (ext, (v, here, field)) = link_field_lem p (local_place 1) k m vs linked e₂ in
      let (ext', all) =
        link_fields_lem infos m₁ vs (ext (local_place 1) (aggregate vs) linked) f₂ in
      ((λ q w h. ext' q w (ext q w h)), ((λ h. (k, v, number, field, ext' p v here)), all))
  | inr other ↦
      let (ext, all) = link_fields_lem infos m vs linked (rw other at e) in
      (ext, ((λ h. ground arith), all))
]

-- When moving the sync variables into a thread returns, its first argument is linked to the aggregate
-- of the thread, which keeps the sync operands only, and each variable that the debug information of
-- its function places in the first argument is linked to the value of this aggregate at the number
-- that stands in its projection. A later variable does not change what an earlier one is linked to.
pub move_sync_variables-Captured :
    (thread : Thread) (tcx : TyCtxt) (before after : Memory)
    → move_sync_variables thread tcx before ≡ ok (tt, after)
    → (get (local_place 1) after.map ≡ some (aggregate thread.aggregate))
      × All (Captured thread.aggregate after) (tcx.var_debug_info thread.def_id)
unfolding move_sync_variables link_aggregate
move_sync_variables-Captured thread tcx before after e =
    let ((_, m), e₁, f₁) =
      and_then_ok (insert_new (local_place 1) (aggregate thread.aggregate) before) _ e in
    let (_, linked) = insert_new_lem (local_place 1) (aggregate thread.aggregate) before e₁ in
    let (ext, all) =
      link_fields_lem (tcx.var_debug_info thread.def_id) m thread.aggregate linked f₁ in
    (ext (local_place 1) (aggregate thread.aggregate) linked, all)
