-- ===== src/Utils.antt =====
-- src/utils.rs: what the translation reads out of operands, arguments, types and places.
use granite.Common.{ℕ, String, Bool, Option, none, some, List, [], ◌∷◌, get_elem?, if◌then◌else◌}
use granite.Common.Outcome.{
  Outcome, ok, panic, expect, and_then, function_pointer, not_a_function, no_function_argument,
  closure_constant, no_field_projection,
}
use granite.Text.{contains}
use granite.Mir.{
  DefId, ProjectionElem, deref, field, other_elem, Place, zero_sized, other_value, Const, ty,
  unevaluated, val, TyKind, fn_ptr, fn_def, closure, not_callable, Operand, copy, move, constant,
  TyCtxt,
}

unfoldable pub def_id_of_kind : TyKind → Outcome DefId
def_id_of_kind fn_ptr = panic function_pointer
def_id_of_kind (fn_def def_id) = ok def_id
def_id_of_kind (closure def_id) = ok def_id
def_id_of_kind not_callable = panic not_a_function

unfoldable pub function_type : Operand → DefId → TyCtxt → TyKind
function_type (copy place) caller tcx = tcx.place_ty_kind caller place
function_type (move place) caller tcx = tcx.place_ty_kind caller place
function_type (constant c) caller tcx = c.ty_kind

unfoldable pub extract_def_id_of_called_function_from_operand :
    Operand → (caller_function_def_id : DefId) → TyCtxt → Outcome DefId
unfolding def_id_of_kind function_type
extract_def_id_of_called_function_from_operand operand caller tcx =
    def_id_of_kind (function_type operand caller tcx)

unfoldable pub operand_place : Operand → Option Place
operand_place (move place) = some place
operand_place (copy place) = some place
operand_place (constant c) = none

unfoldable pub nth_place : Option Operand → Option Place
unfolding operand_place
nth_place none = none
nth_place (some operand) = operand_place operand

unfoldable pub extract_nth_argument_as_place : List Operand → ℕ → Option Place
unfolding nth_place
extract_nth_argument_as_place args index = nth_place (get_elem? args index)

unfoldable pub closure_of_const : Const → Outcome (Option Place)
closure_of_const ty = panic closure_constant
closure_of_const unevaluated = panic closure_constant
closure_of_const (val zero_sized) = ok none
closure_of_const (val other_value) = panic closure_constant

unfoldable pub closure_of_operand : Operand → Outcome (Option Place)
unfolding closure_of_const
closure_of_operand (move place) = ok (some place)
closure_of_operand (copy place) = ok (some place)
closure_of_operand (constant c) =
    if c.has_user_ty then panic closure_constant else closure_of_const c.const_

unfoldable pub first_operand : List Operand → Outcome Operand
first_operand args = expect no_function_argument (get_elem? args 0)

unfoldable pub extract_closure : List Operand → Outcome (Option Place)
unfolding closure_of_operand first_operand
extract_closure args = and_then (first_operand args) closure_of_operand

unfoldable pub check_substring_in_place_type :
    Place → (expected_substring : String) → (caller_function_def_id : DefId) → TyCtxt → Bool
check_substring_in_place_type place expected_substring caller tcx =
    contains (tcx.place_ty_string caller place) expected_substring

unfoldable pub field_number : List ProjectionElem → Outcome ℕ
field_number [] = panic no_field_projection
field_number (field number ∷ es) = ok number
field_number (deref ∷ es) = field_number es
field_number (other_elem n ∷ es) = field_number es

unfoldable pub get_field_number_in_projection : Place → Outcome ℕ
unfolding field_number
get_field_number_in_projection place = field_number place.projection
