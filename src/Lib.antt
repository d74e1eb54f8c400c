-- ===== src/Lib.antt =====
-- cargo check-deadlock: the translation of the MIR of a Rust program into a Petri net, in which a
-- model checker then looks for deadlocks.
--
-- The program's parts. The translator (src/translator.rs, src/translator/mir_visitor.rs) walks over
-- the body of each function that is called. It holds a stack of functions
-- (src/translator/mir_function.rs with its basic blocks and terminators), each with the memory of
-- its sync variables (src/translator/mir_function/memory.rs), a counter of calls, a queue of
-- threads and a heap of postprocessing tasks (src/translator/function.rs). Calls of the standard
-- library's mutexes, condition variables and threads go to the handlers of src/translator/sync.rs
-- and src/translator/sync/; other calls without a body are translated by
-- src/translator/special_function.rs. All of them add places, transitions and arcs to one net,
-- through src/data_structures/petri_net_interface.rs, with the labels of src/naming.rs.
--
-- The files:
-- - Common, Text: shared names, lists over native numbers, the `Outcome` of code that may panic
--   (one `Panic` for each message) with the state monad `Run`, and Rust's text operations;
-- - Stack, HashMapCounter, PetriNet, Utils, Naming: the files of the same names under
--   src/data_structures/, src/utils.rs and src/naming/;
-- - Mir: what the translation reads of the compiler's types. `TyCtxt` is a record of the queries
--   that are made, so that a program is any value of it;
-- - Objects, Memory: the sync variables and the places linked to them. An `Rc` pointer is an index
--   into the store `Objects`, where interior mutability changes the object that every alias sees;
-- - Function, SpecialFunction, Context, Sync: the calls and their handlers, on the net and the
--   memory of the caller;
-- - MirFunction, Translator: functions, blocks, terminators, the visitor and the loops. A recursion
--   through `translate_top_call_stack` is the parameter `recurse` of the handlers;
-- - Library: the entry point of src/lib.rs with src/sysroot.rs and src/compiler_config.rs, over what
--   the compiler answers;
-- - Cli: the command of src/bin/check-deadlock/ with src/model_checker/lola.rs, over a record of what
--   it asks of the system;
-- - PetriNet.Firing: runs of the token game on a net, in which the nets of the sync variables are
--   played;
-- - Safety: the invariant of the translation, kept by each operation, up to whole programs, and the
--   programs whose call graph has a rank;
-- - Examples: programs and nets on which the definitions run, and the theorems at concrete inputs.
--
-- The crate netcrab is not part of the repository: the net is a type with the interface `PetriNet`,
-- and `PetriNet.View.Laws` states what is documented of it: a new place or transition is new, an
-- arc between a place and a transition of the net is accepted, and nothing else changes.
-- `PetriNet.Counted` is a net that meets the laws.
--
-- Fuel: the translation of a recursive program does not end, nor that of one whose threads spawn
-- threads for ever. `translate` takes a bound on the depth of the call stack and one on the number
-- of threads, and `out_of_fuel` stands for a translation that goes further. The loop that empties
-- the heap takes one task off in each round, so that it gets as many rounds as there are tasks.
--
-- Not modelled: the session of the compiler, of which only its outcome is a parameter, the argument
-- parser that a crate derives from src/bin/check-deadlock/cli.rs, the export of a net, which is the
-- crate netcrab's, logging, and the panics inside rustc.
pub mod Common
pub mod Text
pub mod Naming
pub mod Stack
pub mod HashMapCounter
pub mod PetriNet
pub mod Library
pub mod Mir
pub mod Utils
pub mod Objects
pub mod Memory
pub mod Function
pub mod SpecialFunction
pub mod Context
pub mod Sync
pub mod MirFunction
pub mod Translator
pub mod Cli
pub mod Safety
mod Examples
