-- ===== src/Examples/Ranks.antt =====
-- A program with a call and a thread, and the ranks of its functions.
use granite.Common.{
  ℕ, ◌<◌, ◌≡◌, String, true, false, some, inl, inr, Bool-cases, List, [], ◌∷◌, ◌==◌, str_eq,
  if◌then◌else◌, arith, subst,
}
use granite.Common.Outcome.{ok}
use granite.Mir.{DefId, Operand, TerminatorKind, Visit, basic_block_data, terminator, TyCtxt}
use granite.Utils.{extract_def_id_of_called_function_from_operand, first_operand}
use granite.SpecialFunction.{is_foreign_function}
use granite.Safety.Allowed.{MaySpawn, Allowed, Ranked}
use granite.Examples.Programs.{callee, calling, lock_program}

module _ (program : TyCtxt) (here : DefId) where
  called :
      (c d : DefId)
      → extract_def_id_of_called_function_from_operand (callee c) here program ≡ ok d
      → c ≡ d
  unfolding extract_def_id_of_called_function_from_operand
  called c d e = cc

  spawn_item : (P : DefId → Type 0) (c : DefId) → P c → MaySpawn program here P (callee c ∷ [])
  unfolding first_operand
  spawn_item P c p a d e e' =
      let same : a ≡ callee c = cc in
      subst P
        (called c d (
          subst (λ x. extract_def_id_of_called_function_from_operand x here program ≡ ok d) same
            e'))
        p

  -- a call of the function item `c`
  call_item :
      (may_call may_spawn : DefId → Type 0) (c : DefId) (args : List Operand)
      → (str_eq (program.def_path_str c) "std::thread::spawn" ≡ true
          → MaySpawn program here may_spawn args)
      → (is_foreign_function c (program.def_path_str c) program ≡ false → may_call c)
      → Allowed program here may_call may_spawn (callee c) args
  call_item may_call may_spawn c args spawns calls = record {
    spawns = λ d e.
        subst
          (λ x.
            str_eq (program.def_path_str x) "std::thread::spawn" ≡ true
            → MaySpawn program here may_spawn args)
          (called c d e) spawns;
    calls = λ d e.
        subst (λ x. is_foreign_function x (program.def_path_str x) program ≡ false → may_call x)
          (called c d e) calls;
  }

-- `helper(); thread::spawn(worker);`
abbrev main_body : List Visit
main_body =
    basic_block_data 0
    ∷ calling 1 [] 1 1
    ∷ basic_block_data 1
    ∷ calling 2 (callee 3 ∷ []) 2 2
    ∷ basic_block_data 2
    ∷ terminator TerminatorKind.return_
    ∷ []

abbrev leaf_body : List Visit
leaf_body = basic_block_data 0 ∷ terminator TerminatorKind.return_ ∷ []

abbrev names : DefId → String
names d =
    if d == 0
    then "main"
    else if d == 1
    then "helper"
    else if d == 2
    then "std::thread::spawn"
    else "worker"

abbrev pub spawning_program : TyCtxt
spawning_program = record lock_program {
  def_path_str = names;
  visit_body = λ d. if d == 0 then main_body else leaf_body;
}

abbrev pub spawning_rank : DefId → ℕ
spawning_rank d = if d == 0 then 1 else 0

pub spawning-Ranked : Ranked spawning_program spawning_rank
unfolding is_foreign_function
spawning-Ranked = record {
  body = λ d. elim (Bool-cases (d == 0)) [
    | inl e ↦ rw e (
      tt,
      (
        call_item spawning_program d _ _ 1 [] (λ e'. cc) (λ _. omega arith),
        (
          tt,
          (
            call_item spawning_program d _ _ 2 (callee 3 ∷ [])
                (λ _. spawn_item spawning_program d (λ x. spawning_rank x < 1) 3 (omega arith))
                (λ e'. cc),
            (tt, (tt, tt)),
          ),
        ),
      ),
    )
    | inr e ↦ rw e (tt, (tt, tt))
  ];
}

pub main_rank : (d : DefId) → spawning_program.entry_fn ≡ some d → spawning_rank d < 2
main_rank d e = let same : 0 ≡ d = cc in subst (λ x. spawning_rank x < 2) same (omega arith)
