-- ===== src/MirFunction/Switch.antt =====
-- The net of a `SwitchInt`, src/translator/mir_function/terminator.rs.
use granite.Common.{ℕ, ◌≡◌, refl, false, some, List, [], ◌∷◌, All, All-map, subst}
use granite.Common.Outcome.{ok}
use granite.Common.Outcome.Returns.{Returns, returns, result, mono}
use granite.Naming.BasicBlock.{switch_int_transition_label}
use granite.PetriNet.{TransitionRef, PetriNet}
use granite.PetriNet.View.{View, Laws}
use granite.PetriNet.Grows.{PlaceIn}
use granite.PetriNet.Operations.{connected, connect_places_lem}
use granite.MirFunction.{Frame, get_active_block, get_pair_active_block_target_block}
use granite.MirFunction.BasicBlock
use granite.MirFunction.BasicBlock.{BasicBlock}
use granite.MirFunction.Blocks.{BlockMap, get}
use granite.MirFunction.Lookup.{ensure_block_present}
use granite.MirFunction.Terminator

-- the blocks of the targets
pub data Found (m : BlockMap) : List ℕ → List BasicBlock → Type 0 where
  all_found : Found m [] []
  found :
      {k : ℕ} {b : BasicBlock} {ks : List ℕ} {bs : List BasicBlock}
      → get k m ≡ some b
      → Found m ks bs
      → Found m (k ∷ ks) (b ∷ bs)

-- from `v` to `w`, a new transition from the place of `a` to each of the blocks
pub data Switched (a : BasicBlock) : View → List BasicBlock → View → Type 0 where
  switched_all : {v : View} → Switched a v [] v
  switched :
      {v w : View} {b : BasicBlock} {bs : List BasicBlock} (t : TransitionRef)
      → v.is_transition t ≡ false
      → Switched a (connected a.place b.place t v) bs w
      → Switched a v (b ∷ bs) w

module _ {Net : Type 0} ⦃api : PetriNet Net⦄ (L : Laws Net) where
  open L use {view}

  pub present_pair :
      (k : ℕ) (c : Frame Net) (a b : BasicBlock)
      → get_active_block c.function ≡ ok a
      → get k c.function.basic_blocks ≡ some b
      → get_pair_active_block_target_block k c ≡ ok ((a, b), c)
  unfolding get_pair_active_block_target_block
  present_pair k c a b active e =
      rw (ensure_block_present k c b e, e) (rw (get_active_block, active) refl)

  -- If the blocks are there, a `SwitchInt` adds one new transition from the active block to each
  -- target, in the order of the targets, and changes neither the function nor anything else.
  pub switch_int-Switched :
      (targets : List ℕ) (bs : List BasicBlock) (a : BasicBlock) (c : Frame Net)
      → get_active_block c.function ≡ ok a
      → Found c.function.basic_blocks targets bs
      → PlaceIn (view c.net) a.place
      → All (λ b. PlaceIn (view c.net) b.place) bs
      → Returns
          (λ (_, c'). (c'.function ≡ c.function) × Switched a (view c.net) bs (view c'.net))
          (Terminator.switch_int targets c)
  unfolding Terminator.switch_int BasicBlock.switch_int
  switch_int-Switched [] [] a c active all_found ha hs = returns (refl, switched_all)
  switch_int-Switched [] (b ∷ bs) a c active f ha hs = elim f [ ]
  switch_int-Switched (k ∷ ks) [] a c active f ha hs = elim f [ ]
  switch_int-Switched (k ∷ ks) (b ∷ bs) a c active (found e f) ha hs =
      let label = switch_int_transition_label a.function_name a.index k in
      let ((t, n), connects, (fresh, v)) =
        result (connect_places_lem L a.place b.place label c.net ha hs.0) in
      rw (present_pair k c a b active e, connects)
        (mono
          (switch_int-Switched ks bs a (record c { net = n }) active f (rw v ha)
            (All-map (λ b. PlaceIn (view c.net) b.place) bs (λ b h. rw v h) hs.1))
          λ (_, c') (same, s).
            (same, switched t fresh (subst (λ u. Switched a u bs (view c'.net)) v s)))
