-- ===== src/Naming/Mutex.antt =====
-- src/naming/mutex.rs
use Prim.Native.String.{◌++◌}
use granite.Common.{ℕ, String}
use granite.Text.Decimal.{decimal}

pub place_label : ℕ → String
place_label index = "MUTEX_" ++ decimal index

pub condition_place_labels : ℕ → String × String
condition_place_labels index = (
  "MUTEX_" ++ (decimal index ++ "_CONDITION_NOT_SET"),
  "MUTEX_" ++ (decimal index ++ "_CONDITION_SET"),
)
