-- ===== src/Naming/Condvar.antt =====
-- src/naming/condvar.rs
use Prim.Native.String.{◌++◌}
use granite.Common.{ℕ, String}
use granite.Text.Decimal.{decimal}

abbrev condvar : ℕ → String → String
condvar index suffix = "CONDVAR_" ++ (decimal index ++ suffix)

pub place_labels : ℕ → String × String
place_labels index = (condvar index "_WAIT_ENABLED", condvar index "_NOTIFY")

pub transition_labels : ℕ → String × String × String
transition_labels index =
    (condvar index "_WAIT_START", condvar index "_LOST_SIGNAL", condvar index "_NOTIFY_RECEIVED")

pub wait_skip_label : ℕ → String
wait_skip_label index = condvar index "_WAIT_SKIP"
