-- ===== src/Safety.antt =====
-- The state of the translation is well formed, and the translator does not fail on its own account.
pub mod Listed
pub mod ThreadDefs
pub mod World
pub mod Net
pub mod Memory
pub mod Objects
pub mod Step
pub mod Mutex
pub mod Condvar
pub mod Thread
pub mod Tracking
pub mod Sync
pub mod Frame
pub mod State
pub mod Arguments
pub mod Allowed
pub mod Special
pub mod Calls
pub mod Visitor
pub mod Postprocessing
pub mod Bodies
pub mod Threads
pub mod Main
pub mod Program
pub mod Linked
pub mod Finished
pub mod Termination
