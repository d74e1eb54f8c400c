-- ===== src/Safety/Frame/Terminator.antt =====
-- src/translator/mir_function/terminator.rs: each terminator from a well-formed function to one.
use granite.Common.{ℕ, String, Option, none, some, List, [], ◌∷◌}
use granite.Common.Outcome.{Outcome, ok, and_then}
use granite.Common.Outcome.Returns
use granite.Common.Outcome.Returns.{Returns}
use granite.Common.Outcome.Safe
use granite.Common.Outcome.Safe.{Safe, via, last, of_Returns}
use granite.PetriNet.{PlaceRef, PetriNet, connect_places}
use granite.PetriNet.View.{Laws}
use granite.PetriNet.Grows.{PlaceIn, TransitionIn, Grows, Grows-refl, Grows-trans}
use granite.Mir.{DefId}
use granite.Objects.{Objects}
use granite.MirFunction.{Frame}
use granite.MirFunction.BasicBlock
use granite.MirFunction.BasicBlock.{BasicBlock}
use granite.MirFunction.Terminator
use granite.Safety.World.{OptionIn}
use granite.Safety.Net.{GrowsTo, connect_places-GrowsTo}
use granite.Safety.Frame.{
  FrameIn, FrameStep, FrameIn-net, get_active_block-Safe, get_pair_active_block_target_block-Safe,
  prepare_start_place_for_return_statement-Safe,
}

module _ {Net : Type 0} ⦃api : PetriNet Net⦄ (L : Laws Net) (o : Objects) (here : DefId) where
  open L use {view}

  -- the step after another
  FrameStep-after :
      (c d : Frame Net) {out : Outcome (Unit {0} × Frame Net)}
      → Grows (view c.net) (view d.net)
      → Safe (FrameStep L o here d λ _ _. Unit {0}) out
      → Safe (FrameStep L o here c λ _ _. Unit {0}) out
  FrameStep-after c d g s = Safe.mono s λ (a, e) (h', g', q). (h', Grows-trans g g', q)

  -- a connection whose transition is not used further
  connect-GrowsTo :
      (s e : BasicBlock) (n : Net) (label : String)
      → PlaceIn (view n) s.place
      → PlaceIn (view n) e.place
      → Returns
          (GrowsTo L n λ _ v. Unit {0})
          (and_then (connect_places s.place e.place label n) λ (_, n'). ok (tt, n'))
  connect-GrowsTo s e n label h k =
      Returns.bind (connect_places-GrowsTo L s.place e.place label n h k)
        λ (t, n') (g, _). Returns.returns (g, tt)

  pub goto-Safe :
      (target : ℕ) (c : Frame Net)
      → FrameIn L o here c
      → Safe (FrameStep L o here c λ _ c'. Unit {0}) (Terminator.goto target c)
  unfolding Terminator.goto BasicBlock.goto
  goto-Safe target c h =
      Safe.bind (get_pair_active_block_target_block-Safe L o here target c h)
        λ ((a, b), c₁) (h₁, g₁, (p, q)).
          last _ (of_Returns (connect-GrowsTo a b c₁.net _ p q))
            λ (_, n) (g, _). (FrameIn-net L o here c₁ n h₁ g, Grows-trans g₁ g, tt)

  pub switch_int-Safe :
      (targets : List ℕ) (c : Frame Net)
      → FrameIn L o here c
      → Safe (FrameStep L o here c λ _ c'. Unit {0}) (Terminator.switch_int targets c)
  unfolding Terminator.switch_int BasicBlock.switch_int
  switch_int-Safe [] c h = Safe.returns (h, Grows-refl (view c.net), tt)
  switch_int-Safe (t ∷ targets) c h =
      Safe.bind (get_pair_active_block_target_block-Safe L o here t c h)
        λ ((a, b), c₁) (h₁, g₁, (p, q)).
          via _ _ (of_Returns (connect-GrowsTo a b c₁.net _ p q)) λ (_, n) (g₂, _).
            let c₂ = record c₁ { net = n } in
            let h₂ = FrameIn-net L o here c₁ n h₁ g₂ in
            FrameStep-after c c₂ (Grows-trans g₁ g₂) (switch_int-Safe targets c₂ h₂)

  pub unwind-Safe :
      (u : PlaceRef) (c : Frame Net)
      → FrameIn L o here c
      → PlaceIn (view c.net) u
      → Safe (FrameStep L o here c λ _ c'. Unit {0}) (Terminator.unwind u c)
  unfolding Terminator.unwind BasicBlock.unwind
  unwind-Safe u c h k = via _ _ (get_active_block-Safe c.function h) λ b p.
      Safe.bind (of_Returns (connect_places-GrowsTo L b.place u _ c.net p k))
        λ (t, n) (g, _). Safe.returns (FrameIn-net L o here c n h g, g, tt)

  pub unreachable-Safe :
      (e : PlaceRef) (c : Frame Net)
      → FrameIn L o here c
      → PlaceIn (view c.net) e
      → Safe (FrameStep L o here c λ _ c'. Unit {0}) (Terminator.unreachable e c)
  unfolding Terminator.unreachable BasicBlock.unreachable
  unreachable-Safe e c h k = via _ _ (get_active_block-Safe c.function h) λ b p.
      via _ _ (of_Returns (connect_places-GrowsTo L b.place e _ c.net p k))
        λ (t, n) (g, _). Safe.returns (FrameIn-net L o here c n h g, g, tt)

  pub return_statement-Safe :
      (c : Frame Net)
      → FrameIn L o here c
      → Safe (FrameStep L o here c λ _ c'. Unit {0}) (Terminator.return_statement c)
  unfolding Terminator.return_statement
  return_statement-Safe c h =
      via _ _ (prepare_start_place_for_return_statement-Safe c.function h) λ s p.
        via _ _ (of_Returns (connect_places-GrowsTo L s c.function.end_place _ c.net p h.end_place))
          λ (t, n) (g, _). Safe.returns (FrameIn-net L o here c n h g, g, tt)

  drop_to_cleanup-Safe :
      (cleanup : Option ℕ) (c : Frame Net)
      → FrameIn L o here c
      → Safe
          (FrameStep L o here c λ t c'. OptionIn (view c'.net) t)
          (Terminator.drop_to_cleanup cleanup c)
  unfolding Terminator.drop_to_cleanup BasicBlock.drop_cleanup
  drop_to_cleanup-Safe none c h = Safe.returns (h, Grows-refl (view c.net), tt)
  drop_to_cleanup-Safe (some k) c h =
      Safe.bind (get_pair_active_block_target_block-Safe L o here k c h)
        λ ((a, b), c₁) (h₁, g₁, (p, q)).
          via _ _ (of_Returns (connect_places-GrowsTo L a.place b.place _ c₁.net p q))
            λ (t, n) (g, ht). Safe.returns (FrameIn-net L o here c₁ n h₁ g, Grows-trans g₁ g, ht)

  pub drop-Safe :
      (target : ℕ) (cleanup : Option ℕ) (c : Frame Net)
      → FrameIn L o here c
      → Safe
          (FrameStep L o here c
            λ (t, u) c'. TransitionIn (view c'.net) t × OptionIn (view c'.net) u)
          (Terminator.drop target cleanup c)
  unfolding Terminator.drop BasicBlock.drop
  drop-Safe target cleanup c h =
      Safe.bind (get_pair_active_block_target_block-Safe L o here target c h)
        λ ((a, b), c₁) (h₁, g₁, (p, q)).
          via _ _ (of_Returns (connect_places-GrowsTo L a.place b.place _ c₁.net p q))
            λ (t, n) (g₂, ht).
              let c₂ = record c₁ { net = n } in
              let h₂ = FrameIn-net L o here c₁ n h₁ g₂ in
              Safe.bind (drop_to_cleanup-Safe cleanup c₂ h₂) λ (u, c₃) (h₃, g₃, hu).
                Safe.returns (h₃, Grows-trans g₁ (Grows-trans g₂ g₃), (g₃.transitions t ht, hu))

  assert_to_cleanup-Safe :
      (cleanup : Option ℕ) (c : Frame Net)
      → FrameIn L o here c
      → Safe (FrameStep L o here c λ _ c'. Unit {0}) (Terminator.assert_to_cleanup cleanup c)
  unfolding Terminator.assert_to_cleanup BasicBlock.assert_cleanup
  assert_to_cleanup-Safe none c h = Safe.returns (h, Grows-refl (view c.net), tt)
  assert_to_cleanup-Safe (some k) c h =
      Safe.bind (get_pair_active_block_target_block-Safe L o here k c h)
        λ ((a, b), c₁) (h₁, g₁, (p, q)).
          last _ (of_Returns (connect-GrowsTo a b c₁.net _ p q))
            λ (_, n) (g, _). (FrameIn-net L o here c₁ n h₁ g, Grows-trans g₁ g, tt)

  pub assert-Safe :
      (target : ℕ) (cleanup : Option ℕ) (c : Frame Net)
      → FrameIn L o here c
      → Safe (FrameStep L o here c λ _ c'. Unit {0}) (Terminator.assert target cleanup c)
  unfolding Terminator.assert BasicBlock.assert
  assert-Safe target cleanup c h =
      Safe.bind (get_pair_active_block_target_block-Safe L o here target c h)
        λ ((a, b), c₁) (h₁, g₁, (p, q)).
          via _ _ (of_Returns (connect-GrowsTo a b c₁.net _ p q)) λ (_, n) (g₂, _).
            let c₂ = record c₁ { net = n } in
            let h₂ = FrameIn-net L o here c₁ n h₁ g₂ in
            FrameStep-after c c₂ (Grows-trans g₁ g₂) (assert_to_cleanup-Safe cleanup c₂ h₂)
