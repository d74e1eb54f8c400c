-- ===== src/Safety/State.antt =====
-- The state of the translation: its invariant, and how the handlers change it.
mod Outlines
mod Invariant
mod Frames
mod Changes
mod Tasks
pub use Outlines.*
pub use Invariant.*
pub use Frames.*
pub use Changes.*
pub use Tasks.*
