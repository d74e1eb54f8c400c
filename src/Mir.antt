-- ===== src/Mir.antt =====
-- The types of the compiler that the translation reads, with the constructors on which it matches.
-- What it never looks into is left out, or is a number that tells two values apart.
mod Places
unfoldable pub use Places.*
use granite.Common.{ℕ, String, Bool, Option, List}

-- rustc_middle::mir::ConstValue, as far as `==` with `ZeroSized` tells
pub data ConstValue : Type 0 where
  zero_sized : ConstValue
  other_value : ConstValue

-- rustc_middle::mir::Const
pub data Const : Type 0 where
  ty : Const
  unevaluated : Const
  val : ConstValue → Const

-- rustc_middle::ty::TyKind; `not_callable` stands for the variants that the program lumps together
pub data TyKind : Type 0 where
  fn_ptr : TyKind
  fn_def : DefId → TyKind
  closure : DefId → TyKind
  not_callable : TyKind

-- rustc_middle::mir::ConstOperand, with the kind of its type
pub record ConstOperand : Type 0 where
  pub has_user_ty : Bool
  pub const_ : Const
  pub ty_kind : TyKind

-- rustc_middle::mir::Operand
pub data Operand : Type 0 where
  copy : Place → Operand
  move : Place → Operand
  constant : ConstOperand → Operand

-- rustc_middle::mir::Rvalue; `other_rvalue` stands for the variants without a handler
pub data Rvalue : Type 0 where
  use_of : Operand → Rvalue
  ref : Place → Rvalue
  aggregate : List Operand → Rvalue
  other_rvalue : Rvalue

-- rustc_middle::mir::UnwindAction
pub data UnwindAction : Type 0 where
  continue unreachable terminate : UnwindAction
  cleanup : BasicBlock → UnwindAction

-- rustc_middle::mir::TerminatorKind
pub data TerminatorKind : Type 0 where
  goto : (target : BasicBlock) → TerminatorKind
  switch_int : (targets : List BasicBlock) → TerminatorKind
  unwind_resume unwind_terminate return_ unreachable : TerminatorKind
  drop : (place : Place) (target : BasicBlock) (unwind : UnwindAction) → TerminatorKind
  call :
      (func : Operand) (args : List Operand) (destination : Place) (target : Option BasicBlock)
      (unwind : UnwindAction)
      → TerminatorKind
  assert : (target : BasicBlock) (unwind : UnwindAction) → TerminatorKind
  yield_ coroutine_drop false_edge false_unwind inline_asm tail_call : TerminatorKind

-- The calls of the `Visitor` methods that the translation overrides, as the compiler's traversal of
-- a body makes them.
pub data Visit : Type 0 where
  basic_block_data : BasicBlock → Visit
  assign : Place → Rvalue → Visit
  terminator : TerminatorKind → Visit

-- rustc_middle::mir::VarDebugInfoContents
pub data VarDebugInfoContents : Type 0 where
  place : Place → VarDebugInfoContents
  constant : VarDebugInfoContents

-- rustc_middle::ty::TyCtxt: the queries that the translation makes. `visit_body` is the traversal
-- of `optimized_mir`, and the two types of a place are those of its declaration in that body.
pub record TyCtxt : Type 0 where
  pub entry_fn : Option DefId
  pub def_path_str : DefId → String
  pub is_foreign_item : DefId → Bool
  pub is_mir_available : DefId → Bool
  pub visit_body : DefId → List Visit
  pub var_debug_info : DefId → List VarDebugInfoContents
  pub place_ty_kind : DefId → Place → TyKind
  pub place_ty_string : DefId → Place → String
