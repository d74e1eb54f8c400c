-- ===== src/Examples/Programs.antt =====
-- Traversals of small programs, as the compiler makes them.
use granite.Common.{ℕ, String, true, false, some, List, [], ◌∷◌, ◌==◌, if◌then◌else◌}
use granite.Mir.{
  DefId, local_place, Operand, move, constant, fn_def, not_callable, val, zero_sized, continue,
  TerminatorKind, Visit, basic_block_data, terminator, TyCtxt,
}

-- a function item as the callee
abbrev pub callee : DefId → Operand
callee d = constant (record { has_user_ty = false; const_ = val zero_sized; ty_kind = fn_def d })

abbrev pub calling : DefId → List Operand → ℕ → ℕ → Visit
calling d args destination target =
    terminator
      (TerminatorKind.call (callee d) args (local_place destination) (some target) continue)

abbrev lock_body : List Visit
lock_body =
    basic_block_data 0
    ∷ calling 1 [] 1 1
    ∷ basic_block_data 1
    ∷ calling 2 (move (local_place 1) ∷ []) 2 2
    ∷ basic_block_data 2
    ∷ terminator TerminatorKind.return_
    ∷ []

abbrev names : DefId → String
names d =
    if d == 0
    then "main"
    else if d == 1
    then "std::sync::Mutex::<T>::new"
    else if d == 2
    then "std::sync::Mutex::<T>::lock"
    else if d == 3
    then "std::sync::Condvar::new"
    else if d == 4
    then "std::sync::Condvar::wait"
    else "std::ops::DerefMut::deref_mut"

-- `let m = Mutex::new(0); let g = m.lock();`
abbrev pub lock_program : TyCtxt
lock_program = record {
  entry_fn = some 0;
  def_path_str = names;
  is_foreign_item = λ d. false;
  is_mir_available = λ d. true;
  visit_body = λ d. if d == 0 then lock_body else [];
  var_debug_info = λ d. [];
  place_ty_kind = λ d p. not_callable;
  place_ty_string = λ d p. if p.local == 1 then "std::sync::Mutex<i32>" else "i32";
}

abbrev wait_body : List Visit
wait_body =
    basic_block_data 0
    ∷ calling 1 [] 1 1
    ∷ basic_block_data 1
    ∷ calling 2 (move (local_place 1) ∷ []) 2 2
    ∷ basic_block_data 2
    ∷ calling 5 (move (local_place 2) ∷ []) 5 3
    ∷ basic_block_data 3
    ∷ calling 3 [] 3 4
    ∷ basic_block_data 4
    ∷ calling 4 (move (local_place 3) ∷ move (local_place 2) ∷ []) 4 5
    ∷ basic_block_data 5
    ∷ terminator TerminatorKind.return_
    ∷ []

-- the same, then `*g = true; let c = Condvar::new(); let g = c.wait(g);`
abbrev pub wait_program : TyCtxt
wait_program = record lock_program {
  visit_body = λ d. if d == 0 then wait_body else [];
  place_ty_string = λ d p.
      if p.local == 1
      then "std::sync::Mutex<bool>"
      else if p.local == 2
      then "std::sync::MutexGuard<bool>"
      else "i32";
}

abbrev unlinked_body : List Visit
unlinked_body = basic_block_data 0 ∷ calling 2 (move (local_place 1) ∷ []) 2 1 ∷ []

-- The lock of a mutex that nobody created.
abbrev pub unlinked_program : TyCtxt
unlinked_program = record lock_program { visit_body = λ d. unlinked_body }

-- the place of the mutex in `lock_program`, and the arguments of its method
abbrev pub self_args : List Operand
self_args = move (local_place 1) ∷ []
