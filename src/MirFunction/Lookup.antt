-- ===== src/MirFunction/Lookup.antt =====
-- A basic block of src/translator/mir_function.rs is added once.
use granite.Common.{ℕ, ◌≡◌, refl, subst, Option, none, some}
use granite.Common.Outcome.{Outcome, ok, panic, and_then, expect, block_missing}
use granite.PetriNet.{PetriNet}
use granite.MirFunction.{Frame, ensure_block, get_or_add_basic_block}
use granite.MirFunction.BasicBlock.{BasicBlock}
use granite.MirFunction.Blocks.{get, contains_key}

module _ {Net : Type 0} (k : ℕ) where
  -- what is read back at the end
  abbrev read_back : Unit {0} × Frame Net → Outcome (BasicBlock × Frame Net)
  read_back (_, d) = and_then (expect block_missing (get k d.function.basic_blocks)) λ b. ok (b, d)

  read_back_lem :
      (o : Option BasicBlock) (d c : Frame Net) (b : BasicBlock)
      → and_then {B = BasicBlock × Frame Net} (expect block_missing o) (λ b. ok (b, d)) ≡ ok (b, c)
      → (o ≡ some b) × (d ≡ c)
  read_back_lem none d c b h = cc
  read_back_lem (some b') d c b h = (cc, cc)

  settled :
      (o : Outcome (Unit {0} × Frame Net)) (b : BasicBlock) (c : Frame Net)
      → and_then o read_back ≡ ok (b, c)
      → get k c.function.basic_blocks ≡ some b
  settled (panic e) b c h = cc
  settled (ok (_, d)) b c h =
      let (e, same) = read_back_lem (get k d.function.basic_blocks) d c b h in
      subst (λ f. get k f.function.basic_blocks ≡ some b) same e

module _ {Net : Type 0} ⦃api : PetriNet Net⦄ (k : ℕ) (c : Frame Net) where
  pub ensure_block_present :
      (b : BasicBlock) → get k c.function.basic_blocks ≡ some b → ensure_block k c ≡ ok (tt, c)
  unfolding ensure_block contains_key
  ensure_block_present b e = rw e refl

  present :
      (b : BasicBlock)
      → get k c.function.basic_blocks ≡ some b
      → get_or_add_basic_block k c ≡ ok (b, c)
  unfolding get_or_add_basic_block
  present b e = rw (ensure_block_present b e, e) refl

  -- Asking for a block a second time gives the same block, and adds neither a block nor anything
  -- to the net.
  pub get_or_add_basic_block_again :
      (b : BasicBlock) (before : Frame Net)
      → get_or_add_basic_block k before ≡ ok (b, c)
      → get_or_add_basic_block k c ≡ ok (b, c)
  unfolding get_or_add_basic_block
  get_or_add_basic_block_again b before h = present b (settled k (ensure_block k before) b c h)
