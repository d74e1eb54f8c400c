-- ===== src/Safety/Tracking.antt =====
-- The tracking of sync variables in src/translator/sync.rs.
use granite.Common.{Option, none, some, inl, inr, Bool-cases, List, [], ◌∷◌}
use granite.Common.Outcome.Safe.{Safe, via}
use granite.Mir.{DefId, Place, local_place, is_indirect, Operand, TyCtxt}
use granite.Utils.{extract_nth_argument_as_place}
use granite.Objects.{Objects}
use granite.Memory.{Memory}
use granite.Sync.Tracking.{
  check_if_sync_variable, sync_places, aggregate_if_any, handle_aggregate_assignment,
  link_if_sync_variable, link_first, link_return_value_if_sync_variable,
}
use granite.Safety.World.{MapIn}
use granite.Safety.Memory.{
  MemoryIn, create_aggregate-Safe, link_place_to_same_value-Safe, link_field_in_aggregate-Safe,
}
use granite.Safety.Thread.{get_field_number_in_projection-Safe}

module _ (o : Objects) (d : DefId) (tcx : TyCtxt) where
  aggregate_if_any-Safe :
      (p : Place) (ps : List Place) (m : Memory)
      → MapIn o m.map
      → Safe (MemoryIn o) (aggregate_if_any d tcx p ps m)
  unfolding aggregate_if_any
  aggregate_if_any-Safe p [] m h = Safe.returns h
  aggregate_if_any-Safe p (q ∷ ps) m h = create_aggregate-Safe o p (q ∷ ps) m h

  pub handle_aggregate_assignment-Safe :
      (p : Place) (operands : List Operand) (m : Memory)
      → MapIn o m.map
      → Safe (MemoryIn o) (handle_aggregate_assignment d tcx p operands m)
  unfolding handle_aggregate_assignment
  handle_aggregate_assignment-Safe p operands m h =
      aggregate_if_any-Safe p (sync_places d tcx operands) m h

  pub link_if_sync_variable-Safe :
      (p q : Place) (m : Memory)
      → MapIn o m.map
      → Safe (MemoryIn o) (link_if_sync_variable d tcx p q m)
  unfolding link_if_sync_variable
  link_if_sync_variable-Safe p q m h = elim (Bool-cases (check_if_sync_variable d tcx p)) [
    | inl sync ↦ rw sync (elim (Bool-cases (is_indirect q)) [
      | inl indirect ↦ rw indirect (
          via _ _ (get_field_number_in_projection-Safe q)
            λ n _. link_field_in_aggregate-Safe o p (local_place q.local) n m h)
      | inr direct ↦ rw direct (link_place_to_same_value-Safe o p q m h)
    ])
    | inr other ↦ rw other (Safe.returns h)
  ]

  link_first-Safe :
      (first : Option Place) (p : Place) (m : Memory)
      → MapIn o m.map
      → Safe (MemoryIn o) (link_first d tcx first p m)
  unfolding link_first
  link_first-Safe none p m h = Safe.returns h
  link_first-Safe (some q) p m h = link_if_sync_variable-Safe p q m h

  pub link_return_value_if_sync_variable-Safe :
      (args : List Operand) (p : Place) (m : Memory)
      → MapIn o m.map
      → Safe (MemoryIn o) (link_return_value_if_sync_variable d tcx args p m)
  unfolding link_return_value_if_sync_variable
  link_return_value_if_sync_variable-Safe args p m h =
      link_first-Safe (extract_nth_argument_as_place args 0) p m h
