-- ===== src/Safety/Frame.antt =====
-- The methods of src/translator/mir_function.rs that touch the net: the active block is one of the
-- blocks, no block is added twice and none is missing.
pub mod Terminator
use granite.Common.{
  ℕ, String, ◌≡◌, refl, true, false, Option, none, some, inl, inr, Bool-cases, List, [], ◌∷◌, arith,
  ◌==◌, ==_iff, ==_refl,
}
use granite.Common.Outcome.{and_then, expect, block_missing, invalid_active_block, no_active_block}
use granite.Common.Outcome.Returns
use granite.Common.Outcome.Returns.{Returns, mono}
use granite.Common.Outcome.Safe
use granite.Common.Outcome.Safe.{Safe, branch, panics, via, last, of_Returns}
use granite.PetriNet.{PlaceRef, PetriNet}
use granite.PetriNet.View.{View, Laws}
use granite.PetriNet.Grows.{PlaceIn, Grows, Grows-refl, Grows-trans}
use granite.Mir.{DefId}
use granite.Objects.{Objects}
use granite.MirFunction.{
  MirFunction, Frame, prepare_start_place_for_next_basic_block, get_active_block,
  prepare_start_place_for_return_statement, insert_block, add_basic_block, ensure_block,
  get_or_add_basic_block, get_pair_active_block_target_block, activate_block,
  get_start_place_for_function_call, get_end_place_for_function_call,
}
use granite.MirFunction.BasicBlock
use granite.MirFunction.BasicBlock.{BasicBlock, block_place}
use granite.MirFunction.Blocks.{BlockMap, get, insert, contains_key, is_empty}
use granite.Safety.World.{BlocksIn, ActiveIn, FunctionIn, FunctionIn-Grows, Spans-refl}
use granite.Safety.Net.{GrowsTo, add_place-GrowsTo}

contains_key-insert :
    (k j : ℕ) (b : BasicBlock) (m : BlockMap)
    → contains_key j m ≡ true
    → contains_key j (insert k b m) ≡ true
unfolding contains_key get insert
contains_key-insert k j b [] h = cc
contains_key-insert k j b ((i, c) ∷ m) h = ground (arith, contains_key-insert k j b m)

contains_key-insert_same :
    (k : ℕ) (b : BasicBlock) (m : BlockMap) → contains_key k (insert k b m) ≡ true
unfolding contains_key get insert
contains_key-insert_same k b [] = rw ==_refl refl
contains_key-insert_same k b ((i, c) ∷ m) = ground (arith, contains_key-insert_same k b m)

module _ (v : View) where
  insert-BlocksIn :
      (k : ℕ) (b : BasicBlock) (m : BlockMap)
      → BlocksIn v m
      → PlaceIn v b.place
      → BlocksIn v (insert k b m)
  unfolding insert
  insert-BlocksIn k b [] h p = (p, tt)
  insert-BlocksIn k b ((i, c) ∷ m) h p = elim (Bool-cases (i == k)) [
    | inl hit ↦ rw hit (p, h.1)
    | inr miss ↦ rw miss (h.0, insert-BlocksIn k b m h.1 p)
  ]

  -- looking a block up that is there
  get-BlocksIn :
      (k : ℕ) (m : BlockMap)
      → contains_key k m ≡ true
      → BlocksIn v m
      → (b : BasicBlock) × (get k m ≡ some b) × PlaceIn v b.place
  unfolding contains_key get
  get-BlocksIn k [] h p = cc
  get-BlocksIn k ((i, c) ∷ m) h p = elim (Bool-cases (i == k)) [
    | inl hit ↦ rw hit (c, refl, p.0)
    | inr miss ↦ rw miss (get-BlocksIn k m (ground arith) p.1)
  ]

module _ {v : View} {o : Objects} {here : DefId} (f : MirFunction) (h : FunctionIn v o here f) where
  active_block-Safe :
      (active : Option ℕ)
      → ActiveIn active f.basic_blocks
      → Safe
          (λ b. PlaceIn v b.place)
          (and_then
            (expect no_active_block active)
            λ i. expect invalid_active_block (get i f.basic_blocks))
  active_block-Safe none a = panics refl
  active_block-Safe (some i) a =
      let (b, e, p) = get-BlocksIn v i f.basic_blocks a h.blocks in rw e (Safe.returns p)

  pub get_active_block-Safe : Safe (λ b. PlaceIn v b.place) (get_active_block f)
  unfolding get_active_block
  get_active_block-Safe = active_block-Safe f.active_block h.active

  pub prepare_start_place_for_return_statement-Safe :
      Safe (PlaceIn v) (prepare_start_place_for_return_statement f)
  unfolding prepare_start_place_for_return_statement
  prepare_start_place_for_return_statement-Safe = elim (Bool-cases (is_empty f.basic_blocks)) [
    | inl first ↦ rw first (Safe.returns h.start_place)
    | inr later ↦ rw later (Safe.bind get_active_block-Safe λ b p. Safe.returns p)
  ]

  pub get_start_place_for_function_call-Safe :
      Safe (PlaceIn v) (get_start_place_for_function_call f)
  unfolding get_start_place_for_function_call
  get_start_place_for_function_call-Safe = Safe.bind get_active_block-Safe λ b p. Safe.returns p

  insert-ActiveIn :
      (k : ℕ) (b : BasicBlock) (active : Option ℕ)
      → ActiveIn active f.basic_blocks
      → ActiveIn active (insert k b f.basic_blocks)
  insert-ActiveIn k b none a = tt
  insert-ActiveIn k b (some i) a = contains_key-insert k i b f.basic_blocks a

  insert_block-Safe :
      (k : ℕ) (b : BasicBlock)
      → contains_key k f.basic_blocks ≡ false
      → PlaceIn v b.place
      → Safe
          (λ f'. FunctionIn v o here f' × (contains_key k f'.basic_blocks ≡ true))
          (insert_block k b f)
  unfolding insert_block
  insert_block-Safe k b new p = rw new (
      Safe.returns (
        record {
          def_id = h.def_id;
          start_place = h.start_place;
          end_place = h.end_place;
          blocks = insert-BlocksIn v k b f.basic_blocks h.blocks p;
          active = insert-ActiveIn k b f.active_block h.active;
          memory = h.memory;
        },
        contains_key-insert_same k b f.basic_blocks,
      ))

module _ {Net : Type 0} ⦃api : PetriNet Net⦄ (L : Laws Net) (o : Objects) (here : DefId) where
  open L use {view}

  abbrev pub FrameIn : Frame Net → Type 0
  FrameIn c = FunctionIn (view c.net) o here c.function

  -- from a frame to a well-formed one, with `Q` of the result
  abbrev pub FrameStep :
      {A : Type 0} → Frame Net → (A → Frame Net → Type 0) → A × Frame Net → Type 0
  FrameStep c Q (a, c') = FrameIn c' × Grows (view c.net) (view c'.net) × Q a c'

  -- only the net has changed
  pub FrameIn-net :
      (c : Frame Net) (n : Net)
      → FrameIn c
      → Grows (view c.net) (view n)
      → FrameIn (record c { net = n })
  FrameIn-net c n h g = FunctionIn-Grows g (Spans-refl o) c.function h

  block_place-GrowsTo :
      (name : String) (k : ℕ) (start : Option PlaceRef) (n : Net)
      → ((p : PlaceRef) → start ≡ some p → PlaceIn (view n) p)
      → Returns (GrowsTo L n λ p v. PlaceIn v p) (block_place name k start n)
  unfolding block_place
  block_place-GrowsTo name k none n h = add_place-GrowsTo L _ n
  block_place-GrowsTo name k (some p) n h = Returns.returns (Grows-refl (view n), h p refl)

  new_block-GrowsTo :
      (name : String) (k : ℕ) (start : Option PlaceRef) (n : Net)
      → ((p : PlaceRef) → start ≡ some p → PlaceIn (view n) p)
      → Returns (GrowsTo L n λ b v. PlaceIn v b.place) (BasicBlock.new name k start n)
  unfolding BasicBlock.new
  new_block-GrowsTo name k start n h =
      Returns.bind (block_place-GrowsTo name k start n h) λ (p, n') q. Returns.returns q

  start_place-PlaceIn :
      (v : View) (f : MirFunction) (p : PlaceRef)
      → FunctionIn v o here f
      → prepare_start_place_for_next_basic_block f ≡ some p
      → PlaceIn v p
  unfolding prepare_start_place_for_next_basic_block
  start_place-PlaceIn v f p h e = ground (arith, h.start_place)

  add_basic_block-Safe :
      (k : ℕ) (c : Frame Net)
      → FrameIn c
      → contains_key k c.function.basic_blocks ≡ false
      → Safe
          (FrameStep c λ _ c'. contains_key k c'.function.basic_blocks ≡ true)
          (add_basic_block k c)
  unfolding add_basic_block
  add_basic_block-Safe k c h new =
      Safe.bind
        (of_Returns (
          new_block-GrowsTo c.function.name k _ c.net
            λ p e. start_place-PlaceIn (view c.net) c.function p h e))
        λ (b, n') (g, p).
          Safe.bind (insert_block-Safe c.function (FrameIn-net c n' h g) k b new p)
            λ f (hf, has). Safe.returns (hf, g, has)

  ensure_block-Safe :
      (k : ℕ) (c : Frame Net)
      → FrameIn c
      → Safe (FrameStep c λ _ c'. contains_key k c'.function.basic_blocks ≡ true) (ensure_block k c)
  unfolding ensure_block
  ensure_block-Safe k c h =
      branch (contains_key k c.function.basic_blocks)
        (λ has. Safe.returns (h, Grows-refl (view c.net), has))
        (λ new. add_basic_block-Safe k c h new)

  read_block-Safe :
      (k : ℕ) (c : Frame Net)
      → FrameIn c
      → contains_key k c.function.basic_blocks ≡ true
      → Safe
          (λ b. PlaceIn (view c.net) b.place)
          (expect block_missing (get k c.function.basic_blocks))
  read_block-Safe k c h has =
      let (b, e, p) = get-BlocksIn (view c.net) k c.function.basic_blocks has h.blocks in
      rw e (Safe.returns p)

  pub get_or_add_basic_block-Safe :
      (k : ℕ) (c : Frame Net)
      → FrameIn c
      → Safe (FrameStep c λ b c'. PlaceIn (view c'.net) b.place) (get_or_add_basic_block k c)
  unfolding get_or_add_basic_block
  get_or_add_basic_block-Safe k c h =
      Safe.bind (ensure_block-Safe k c h)
        λ (_, c₁) (h₁, g₁, has). last _ (read_block-Safe k c₁ h₁ has) λ b p. (h₁, g₁, p)

  pub get_pair_active_block_target_block-Safe :
      (k : ℕ) (c : Frame Net)
      → FrameIn c
      → Safe
          (FrameStep c λ (a, b) c'. PlaceIn (view c'.net) a.place × PlaceIn (view c'.net) b.place)
          (get_pair_active_block_target_block k c)
  unfolding get_pair_active_block_target_block
  get_pair_active_block_target_block-Safe k c h =
      Safe.bind (ensure_block-Safe k c h) λ (_, c₁) (h₁, g₁, has).
        via _ _ (read_block-Safe k c₁ h₁ has)
          λ b p. via _ _ (get_active_block-Safe c₁.function h₁) λ a q. Safe.returns (h₁, g₁, (q, p))

  pub activate_block-Safe :
      (k : ℕ) (c : Frame Net) → FrameIn c → Safe (FrameStep c λ _ c'. Unit {0}) (activate_block k c)
  unfolding activate_block
  activate_block-Safe k c h = Safe.bind (ensure_block-Safe k c h) λ (_, c₁) (h₁, g₁, has).
      Safe.returns (
        record {
          def_id = h₁.def_id;
          start_place = h₁.start_place;
          end_place = h₁.end_place;
          blocks = h₁.blocks;
          active = has;
          memory = h₁.memory;
        },
        g₁,
        tt,
      )

  pub get_end_place_for_function_call-Safe :
      (k : ℕ) (c : Frame Net)
      → FrameIn c
      → Safe (FrameStep c λ p c'. PlaceIn (view c'.net) p) (get_end_place_for_function_call k c)
  unfolding get_end_place_for_function_call
  get_end_place_for_function_call-Safe k c h =
      Safe.bind (get_or_add_basic_block-Safe k c h) λ (b, c₁) q. Safe.returns q
