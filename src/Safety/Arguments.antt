-- ===== src/Safety/Arguments.antt =====
-- What src/utils.rs reads out of the arguments of a call: it fails only for a reason in the program.
use granite.Common.{refl, Option, none, some, List, get_elem?}
use granite.Common.Outcome.{Outcome, no_function_argument}
use granite.Common.Outcome.Safe
use granite.Common.Outcome.Safe.{Safe, branch, panics, via, last, of_expect}
use granite.Mir.{
  DefId, Place, Operand, copy, move, constant, Const, ty, unevaluated, val, zero_sized, other_value,
  TyKind, fn_ptr, fn_def, closure, not_callable, TyCtxt,
}
use granite.Utils.{
  def_id_of_kind, function_type, extract_def_id_of_called_function_from_operand, closure_of_const,
  closure_of_operand, first_operand, extract_closure,
}
use granite.Objects.{Objects}
use granite.Memory.{Memory}
use granite.Translator.Special.{closure_aggregate}
use granite.Safety.World.{ValuesIn, nil_in, MapIn}
use granite.Safety.Memory.{copy_aggregate-Safe}

-- reading arguments fails only for a reason in the program
abbrev pub Harmless : {A : Type 0} → Outcome A → Type 0
Harmless o = Safe (λ a. Unit {0}) o

pub def_id_of_kind-Safe : (k : TyKind) → Harmless (def_id_of_kind k)
unfolding def_id_of_kind
def_id_of_kind-Safe fn_ptr = panics refl
def_id_of_kind-Safe (fn_def d) = Safe.returns tt
def_id_of_kind-Safe (closure d) = Safe.returns tt
def_id_of_kind-Safe not_callable = panics refl

pub called_function-Safe :
    (o : Operand) (d : DefId) (tcx : TyCtxt)
    → Harmless (extract_def_id_of_called_function_from_operand o d tcx)
unfolding extract_def_id_of_called_function_from_operand
called_function-Safe o d tcx = def_id_of_kind-Safe (function_type o d tcx)

pub first_operand-Safe : (args : List Operand) → Harmless (first_operand args)
unfolding first_operand
first_operand-Safe args = of_expect no_function_argument (get_elem? args 0) refl λ a e. tt

pub closure_of_const-Safe : (c : Const) → Harmless (closure_of_const c)
unfolding closure_of_const
closure_of_const-Safe ty = panics refl
closure_of_const-Safe unevaluated = panics refl
closure_of_const-Safe (val zero_sized) = Safe.returns tt
closure_of_const-Safe (val other_value) = panics refl

pub closure_of_operand-Safe : (o : Operand) → Harmless (closure_of_operand o)
unfolding closure_of_operand
closure_of_operand-Safe (move p) = Safe.returns tt
closure_of_operand-Safe (copy p) = Safe.returns tt
closure_of_operand-Safe (constant c) =
    branch c.has_user_ty (λ e. panics refl) (λ e. closure_of_const-Safe c.const_)

pub extract_closure-Safe : (args : List Operand) → Harmless (extract_closure args)
unfolding extract_closure
extract_closure-Safe args = Safe.bind (first_operand-Safe args) λ a _. closure_of_operand-Safe a

pub closure_aggregate-Safe :
    (o : Objects) (p : Option Place) (m : Memory)
    → MapIn o m.map
    → Safe (ValuesIn o) (closure_aggregate p m)
unfolding closure_aggregate
closure_aggregate-Safe o none m h = Safe.returns nil_in
closure_aggregate-Safe o (some p) m h = copy_aggregate-Safe o p m h
