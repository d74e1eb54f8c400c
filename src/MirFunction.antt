-- ===== src/MirFunction.antt =====
-- src/translator/mir_function.rs: a function with its basic blocks, and the block that is active.
pub mod BasicBlock
pub mod Blocks
pub mod Terminator
pub mod Lookup
pub mod Switch
use granite.Common.{ℕ, String, Bool, true, false, Option, none, some, List, [], ◌∷◌, if◌then◌else◌}
use granite.Common.Outcome.{
  Outcome, ok, panic, and_then, expect, no_active_block, invalid_active_block, block_added_twice,
  block_missing, Run, pure, lift, ◌>>=◌, ◌>>◌,
}
use granite.PetriNet.{PlaceRef, PetriNet}
use granite.Mir.{DefId}
use granite.Memory.{Memory, no_links}
use granite.MirFunction.Blocks.{BlockMap, get, insert, contains_key, is_empty}

pub record MirFunction : Type 0 where
  pub def_id : DefId
  pub name : String
  pub start_place : PlaceRef
  pub end_place : PlaceRef
  pub active_block : Option ℕ
  pub basic_blocks : BlockMap
  pub memory : Memory

-- A method that takes `&mut self` and the net.
pub record Frame (Net : Type 0) : Type 0 where
  pub function : MirFunction
  pub net : Net

-- MirFunction::new
unfoldable pub new : DefId → String → (start_place end_place : PlaceRef) → MirFunction
new def_id function_name start_place end_place = record {
  def_id = def_id;
  name = function_name;
  start_place = start_place;
  end_place = end_place;
  active_block = none;
  basic_blocks = [];
  memory = no_links;
}

unfoldable pub prepare_start_place_for_next_basic_block : MirFunction → Option PlaceRef
prepare_start_place_for_next_basic_block f =
    if is_empty f.basic_blocks then some f.start_place else none

unfoldable pub get_active_block : MirFunction → Outcome BasicBlock.BasicBlock
get_active_block f =
    and_then (expect no_active_block f.active_block)
      λ index. expect invalid_active_block (get index f.basic_blocks)

unfoldable pub prepare_start_place_for_return_statement : MirFunction → Outcome PlaceRef
unfolding get_active_block
prepare_start_place_for_return_statement f =
    if is_empty f.basic_blocks
    then ok f.start_place
    else and_then (get_active_block f) λ active_block. ok active_block.place

unfoldable pub get_start_place_for_function_call : MirFunction → Outcome PlaceRef
unfolding get_active_block
get_start_place_for_function_call f =
    and_then (get_active_block f) λ active_block. ok active_block.place

module _ {Net A : Type 0} where
  abbrev pub frame_net : Run Net A → Run (Frame Net) A
  frame_net m c = and_then (m c.net) λ (a, net'). ok (a, record c { net = net' })

  abbrev pub read_function : (MirFunction → Outcome A) → Run (Frame Net) A
  read_function f c = and_then (f c.function) λ a. ok (a, c)

-- HashMap::insert of a key that must be new
unfoldable pub insert_block : ℕ → BasicBlock.BasicBlock → MirFunction → Outcome MirFunction
insert_block block_number basic_block f =
    if contains_key block_number f.basic_blocks
    then panic block_added_twice
    else ok (record f { basic_blocks = insert block_number basic_block f.basic_blocks })

module _ {Net : Type 0} ⦃api : PetriNet Net⦄ where
  unfoldable pub add_basic_block : ℕ → Run (Frame Net) (Unit {0})
  unfolding insert_block prepare_start_place_for_next_basic_block
  add_basic_block block_number c = do
    let start_place = prepare_start_place_for_next_basic_block c.function
    and_then (BasicBlock.new c.function.name block_number start_place c.net) λ (basic_block, net').
        and_then (insert_block block_number basic_block c.function)
          λ f. ok (tt, record { function = f; net = net' })

  -- the test that three methods begin with
  unfoldable pub ensure_block : ℕ → Run (Frame Net) (Unit {0})
  unfolding add_basic_block
  ensure_block block_number c =
      if contains_key block_number c.function.basic_blocks
      then ok (tt, c)
      else add_basic_block block_number c

  unfoldable pub get_or_add_basic_block : ℕ → Run (Frame Net) BasicBlock.BasicBlock
  unfolding ensure_block
  get_or_add_basic_block block_number = do
    ensure_block block_number
    read_function (λ f. expect block_missing (get block_number f.basic_blocks))

  unfoldable pub get_pair_active_block_target_block :
      ℕ → Run (Frame Net) (BasicBlock.BasicBlock × BasicBlock.BasicBlock)
  unfolding ensure_block get_active_block
  get_pair_active_block_target_block block_number = do
    ensure_block block_number
    target_block ← read_function (λ f. expect block_missing (get block_number f.basic_blocks))
    active_block ← read_function get_active_block
    pure (active_block, target_block)

  unfoldable pub activate_block : ℕ → Run (Frame Net) (Unit {0})
  unfolding ensure_block
  activate_block block = do
    ensure_block block
    λ c. ok (tt, record c { function = record (c.function) { active_block = some block } })

  unfoldable pub get_end_place_for_function_call : ℕ → Run (Frame Net) PlaceRef
  unfolding get_or_add_basic_block
  get_end_place_for_function_call block_number = do
    return_block ← get_or_add_basic_block block_number
    pure return_block.place
