-- ===== src/Objects/Values.antt =====
-- `unpack_…` of `Value` in src/translator/mir_function/memory.rs, and the vectors of values.
use granite.Common.{ℕ, zero, suc, Bool, true, false, Option, none, some}
use granite.Common.Outcome.{
  Outcome, ok, panic, not_a_mutex, not_a_mutex_guard, not_a_join_handle, not_a_condvar,
  not_an_aggregate,
}
use granite.Objects.{
  MutexRef, CondvarRef, ThreadRef, Guard, Value, mutex, mutex_guard, join_handle, condvar,
  aggregate, ValueVec, nil, cons,
}

abbrev pub unpack_mutex : Value → Outcome MutexRef
unpack_mutex (mutex mutex_ref) = ok mutex_ref
unpack_mutex _ = panic not_a_mutex

abbrev pub unpack_mutex_guard : Value → Outcome Guard
unpack_mutex_guard (mutex_guard mutex_guard_ref) = ok mutex_guard_ref
unpack_mutex_guard _ = panic not_a_mutex_guard

abbrev pub unpack_join_handle : Value → Outcome ThreadRef
unpack_join_handle (join_handle thread_ref) = ok thread_ref
unpack_join_handle _ = panic not_a_join_handle

abbrev pub unpack_condvar : Value → Outcome CondvarRef
unpack_condvar (condvar condvar_ref) = ok condvar_ref
unpack_condvar _ = panic not_a_condvar

abbrev pub unpack_aggregate : Value → Outcome ValueVec
unpack_aggregate (aggregate values) = ok values
unpack_aggregate _ = panic not_an_aggregate

abbrev pub is_guard_value : Value → Bool
is_guard_value (mutex_guard g) = true
is_guard_value _ = false

-- Vec::get
unfoldable pub get_value? : ValueVec → ℕ → Option Value
get_value? nil i = none
get_value? (cons v vs) zero = some v
get_value? (cons v vs) (suc i) = get_value? vs i

unfoldable pub count_values : ValueVec → ℕ
count_values nil = 0
count_values (cons v vs) = suc (count_values vs)
