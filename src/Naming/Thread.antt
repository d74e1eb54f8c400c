-- ===== src/Naming/Thread.antt =====
-- src/naming/thread.rs
use Prim.Native.String.{◌++◌}
use granite.Common.{ℕ, String}
use granite.Text.Decimal.{decimal}

pub start_place_label : ℕ → String
start_place_label index = "THREAD_" ++ (decimal index ++ "_START")

pub end_place_label : ℕ → String
end_place_label index = "THREAD_" ++ (decimal index ++ "_END")
