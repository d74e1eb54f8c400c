-- ===== src/Safety/Allowed.antt =====
-- What a call of src/translator.rs may enter: the functions whose bodies are translated for it, and
-- those that a thread will run.
use granite.Common.{ℕ, ◌<◌, All, ◌≡◌, true, false, List, str_eq}
use granite.Common.Outcome.{ok}
use granite.Mir.{DefId, Operand, TerminatorKind, Visit, terminator, TyCtxt}
use granite.Utils.{extract_def_id_of_called_function_from_operand, first_operand}
use granite.SpecialFunction.{is_foreign_function}

module _ (program : TyCtxt) (here : DefId) (may_spawn : DefId → Type 0) where
  -- the function that a spawned thread runs
  abbrev pub MaySpawn : List Operand → Type 0
  MaySpawn args =
      (a : Operand) (d : DefId)
      → first_operand args ≡ ok a
      → extract_def_id_of_called_function_from_operand a here program ≡ ok d
      → may_spawn d

module _ (program : TyCtxt) (here : DefId) (may_call may_spawn : DefId → Type 0) where
  -- a call in the body of `here`
  pub record Allowed (func : Operand) (args : List Operand) : Type 0 where
    pub spawns :
        (d : DefId)
        → extract_def_id_of_called_function_from_operand func here program ≡ ok d
        → str_eq (program.def_path_str d) "std::thread::spawn" ≡ true
        → MaySpawn program here may_spawn args
    pub calls :
        (d : DefId)
        → extract_def_id_of_called_function_from_operand func here program ≡ ok d
        → is_foreign_function d (program.def_path_str d) program ≡ false
        → may_call d

  abbrev pub VisitAllowed : Visit → Type 0
  VisitAllowed (terminator (TerminatorKind.call func args destination target unwind)) =
      Allowed func args
  VisitAllowed _ = Unit

-- the called function, by what is known of the caller and the program
pub called_in :
    {caller here : DefId} {program program' : TyCtxt} (a : Operand) (d : DefId)
    → caller ≡ here
    → program ≡ program'
    → extract_def_id_of_called_function_from_operand a caller program ≡ ok d
    → extract_def_id_of_called_function_from_operand a here program' ≡ ok d
called_in a d same same' e = cc

-- The call graph has no cycle: a body calls and spawns only functions of a lower rank.
pub record Ranked (program : TyCtxt) (rank : DefId → ℕ) : Type 0 where
  pub body :
      (d : DefId)
      → All
          (VisitAllowed program d (λ e. rank e < rank d) λ e. rank e < rank d)
          (program.visit_body d)
