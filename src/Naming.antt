-- ===== src/Naming.antt =====
-- src/naming.rs: labels of the program's places, and `sanitize`.
pub mod BasicBlock
pub mod Condvar
pub mod Function
pub mod Mutex
pub mod Thread
pub mod Sanitize
pub mod Labels
pub use Sanitize.{sanitize}
use granite.Common.{String}

abbrev pub program_start : String
program_start = "PROGRAM_START"

abbrev pub program_end : String
program_end = "PROGRAM_END"

abbrev pub program_panic : String
program_panic = "PROGRAM_PANIC"
