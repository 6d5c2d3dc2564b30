-- ===== src/Lib.antt =====
-- The runtime of sml.rs and the front end of its `sml!` macro.
--
-- A program declares a transition table in the `sml!` macro (macros/src); the generated machine
-- runs on the library's runtime (src). Paths below are from the repository's root.
--
-- - Utility: src/utility.rs. `EventQueue` is the ring of N slots behind `defer` and `process`;
--   `EventQueues` dispatches an event, drains what the actions requested and retries what they
--   deferred; `Hierarchical`, `DispatchTable` and `SmPool` route events to a parent and a child, by
--   a runtime id, and to pools and orthogonal regions. Each has a module of that name, its
--   operations under the source's names, its laws in the modules below it.
-- - Parser: macros/src/parser. `Guard` is the guard grammar of transition.rs: its parser, its
--   printer and its visitor; `Stream` states what they use of the crates syn and quote, as a
--   parameter. `Names` is the check of parser/mod.rs that no two names of the source become one
--   identifier. `Build` and `Generics` are `ParsedStateMachine::new`: its checks, and the table of
--   each state and event; `Build/Expected` says what the table is meant to hold. `Lifetimes` is the
--   collection of the types in data.rs, with the lifetimes of lifetimes.rs. `Cpp` is cpp.rs, the
--   table in the spelling of sml.cpp: a body is split into rows, a row is brought into the form
--   that the parser of rows reads, and the rows for typed exceptions fix the error type
--   (`Cpp/ErrorType`).
-- - Codegen: macros/src/codegen.rs, the code that is generated for a flat machine, as the machine
--   that runs. `Sequence` is the action sequence of a row, from the parser's items (transition.rs)
--   to the steps that `generate_actions` emits; `Runtime` is what the user's context provides and
--   how its callbacks are called; `Arms` is the choice of the arms of the generated `match`es from
--   the table; `Rows` is one row: guard, actions, exit, entry, the new state; `Dispatch` is an
--   event and the completions and exceptions behind it, and `Machine` the public calls with their
--   queues. Beside them stand the proofs: `Invariant` carries a property of the machine through
--   every call, for `Lifecycle` and `Moves`, over the runs of `Reached`; `Ends` is about
--   calls that return.
-- - Scheduler: src/scheduler.rs. `Inline` runs each event in its caller; `Fifo` is `FifoScheduler`,
--   whose callers are threads: each piece of `offer` and `drain` between two lock operations is a
--   function on the shared state, `Fifo/Step` interleaves them in any order, a panicking step
--   included, and the modules beside it keep an invariant. `Ticket` is the answer that a queued
--   event's caller polls, and `Fifo/Completion` the future that waits for it, or for room in the
--   queue.
-- - Validation: macros/src/validation.rs, the checks of a parsed table (`Parser/Table`): which
--   signatures actions and guards are called at, and whether every transition can be reached. A
--   HashMap is the list of its entries in the order of iteration, which is arbitrary.
-- - Orthogonal: `discover_regions` of macros/src/orthogonal_codegen.rs, the search that finds the
--   orthogonal regions of a table. Its while loop takes as fuel the number of neighbours, and two
--   more.
-- - Base: what the others share. Tests: runs on concrete inputs.
--
-- A method that takes `&mut self` returns the new value beside its result. A `usize` is a number at
-- most 2^64 - 1 (a 64-bit target) and the saturating operations are written out. A closure is a
-- function that returns the new state of what it captures by `&mut`; trait methods of a machine,
-- such as `is_terminated`, are arguments. The const parameters N, DEFERRED and PROCESSED are
-- arguments.
--
-- Fuel: `clear` and the loop of `Unwinding::drop` take one round for each event and one more. The
-- drains of `EventQueues::dispatch` run as long as the callback requests events, so `dispatch`
-- takes fuel and returns none when it runs out. The guard parser's fuel is enough above the number
-- of tokens. `visit_guards` takes one round for each node and one more. A generated machine calls
-- itself for completions and for the events of its queues, as often as its table and its callbacks
-- make it, so `process_event_unlocked` takes fuel, which bounds the nesting and the rounds of each
-- loop.
--
-- Threads of the FIFO scheduler: `Unwinding` is dropped on every exit of `drain` and asks whether
-- its thread panics, also where the thread was unwinding before it called `offer`; `Fifo/Step` has
-- a parameter for that, and what is said of runs in which no thread does so names the condition.
-- The waiters that a piece takes out of the queue under its lock are woken in the same piece.
--
-- A generated machine that is asynchronous is modelled as one that awaits without being dropped,
-- and its temporary context is part of its context. A callback that takes `&self` leaves the
-- context as it is.
--
-- Not modelled: the policies (src/policy.rs), the parsers of states, events and options, the
-- generators of orthogonal and of composite machines, and of the flat one the declarations of types
-- and traits. The accessors that only return a reference have no definition. The walks through the
-- syntax trees of syn (which lifetimes and which generic parameters a type mentions) are
-- parameters, as are the tokens of proc_macro2. Tokens that a parenthesised guard leaves over are
-- reported by syn itself.
pub mod Base
pub mod Utility
pub mod Parser
pub mod Scheduler
pub mod Validation
pub mod Orthogonal
pub mod Codegen
mod Tests
