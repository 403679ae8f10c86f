-- ===== src/Lib.antt =====
-- The debug adapter of CodeLLDB: it stands between an editor, which speaks the debug adapter protocol,
-- and liblldb. A dispatcher (src/codelldb/src/dap_session.rs) numbers the messages and hands requests to
-- the debug session (src/codelldb/src/debug_session.rs and the files of its directory), whose parts
-- keep the breakpoints and answer requests about memory; ranges of disassembled code are kept in a
-- registry (src/codelldb/src/disassembly.rs) that the session shares among them, so that the editor can
-- show them as sources and set breakpoints on their lines.
--
-- Which file models which part:
--   DapSession     src/codelldb/src/dap_session.rs: the loop of `DAPSession::new` is `step`, one arm of
--                  `select!` at a time, on the record `Dispatcher` of its local variables; `run` is
--                  a sequence of rounds, in whatever order the arms become ready.
--   Breakpoints    src/codelldb/src/debug_session/breakpoints.rs: the callback of a hit (Breakpoints.Hit,
--                  with its proofs in Breakpoints.Counting),
--                  `replace_logpoint_expressions` (Breakpoints.Logpoint), the events of liblldb and
--                  the excluded callers (Breakpoints.Exclusions), the requests that set function and
--                  instruction breakpoints (Breakpoints.Setting), breakpoints in source files
--                  (Breakpoints.Source, Breakpoints.Requests) and in listings
--                  (Breakpoints.Listings), exception breakpoints (Breakpoints.Filters), the
--                  responses (Breakpoints.Responses) and `handle_exclude_caller`
--                  (Breakpoints.Callers), on the table of tracked breakpoints. What liblldb
--                  documents of its breakpoints is `TargetLaws` in Breakpoints.Reuse.
--   Disassembly    src/codelldb/src/disassembly.rs: `Ranges` is `DisassembledRanges`, with the lookups
--                  by handle and by address, and a `DisassembledRange` with its lines.
--   Disassemble    src/codelldb/src/debug_session/disassemble.rs: the request `disassemble`, from its
--                  arguments to the response: `read_memory` with its search for readable memory
--                  (`partition_point`), `disassemble_bytes`, `window`, `render`, `handle_disassemble`.
--   Cancellation   src/codelldb/src/cancellation.rs: the state that senders and receivers share.
--   StepIn         src/codelldb/src/debug_session/step_in.rs: the request `stepInTargets` (StepIn), and
--                  `step_into_target` (StepIn.Stepping), with its rounds as `decide` and `act`.
--   Session        src/codelldb/src/debug_session.rs: `cancellation_filter` is `receive` on the record
--                  `FilterState` of its tables (Session.Filter), the requests on memory are in
--                  Session.Memory, local source files in Session.Sources; Session.Running
--                  and Session.Resuming have the events of the process and the requests that
--                  pause, resume and step, on the record `Running` of what they change; data
--                  breakpoints are in Session.Watch.
--   Dispatch       src/codelldb/src/debug_session.rs: `handle_request`, `handle_request_args` and
--                  `send_response`, on the record `Dispatch.Dispatcher` of the session, its responses
--                  and its tasks. Which handler a command has is `route`.
--   Variables      src/codelldb/src/debug_session/variables.rs: `handle_scopes`, `handle_variables` and
--                  `convert_scope_values` (Variables.Scope), a variable (Variables.Variable), the
--                  summaries (Variables.Summary), the names to evaluate (Variables.Names),
--                  `handle_evaluate` (Variables.Evaluate) and `handle_set_variable`
--                  (Variables.SetVariable).
--   Launch         src/codelldb/src/debug_session/launch.rs, and `exec_commands` of
--                  src/codelldb/src/debug_session.rs: the environment (Launch.Environment), the
--                  descriptors (Launch.Stdio) and the end of a debuggee (Launch.Ending), on the
--                  record `LaunchState`, which has the calls of liblldb and of the event listener in order.
--   Listener       src/codelldb/src/debug_event_listener.rs: the rounds of the polling thread, `cork`
--                  and `uncork` as steps on the record `Polling`.
--   Expressions    src/codelldb/src/expressions/mod.rs: `prepare` and `prepare_with_format`.
--   Errors         src/codelldb/src/error.rs.
--   Strings        src/lldb/src/strings.rs: `with_cstr` and `get_cstring`, whose buffer loop is
--                  `fill_loop`.
--   Common         lists, texts, maps, integers and outcomes that these share.
--
-- Numbers are natural, and what the code computes in `u64`, `u32` or `i64` has its wrap-around
-- written out; a text is the list of its codes, a map the list of its entries, and a call that can
-- fail gives an `Outcome`, in which a panic is a value of its own. Where theorems bound the
-- arguments of a request, by 2 ^ 61 or 2 ^ 62, the sums of the code stay in `i64`; the numbers of
-- messages are `u32`, so that the theorems on the dispatcher are about its first 2 ^ 32 messages.
--
-- Fuel: `bisect` has 64 rounds, which halve a range of at most 2 ^ 64 addresses; `decode_loop` has
-- one round for each byte of the buffer, and each round takes a byte at least. The fuel of
-- `stepping_loop` is a bound on the moves before the request is cancelled, which the theorem has
-- as its hypothesis, since the code itself has no other bound. `fill_loop` has 64 rounds, each
-- with at least twice the capacity of the one before. The fuel of `walk_up` is two more than the
-- number of the handle, since a handle's parent is an older one.
--
-- Parameters: liblldb is `DisasmApi` (memory, symbols, instructions of a range) and
-- `DisassembleApi` (the same for the request, and `parse_int`), and `TargetApi` (breakpoints,
-- Python, and the parsers of expressions); `StepApi` is a stopped process and `ThreadApi` a thread
-- that runs, `MemoryApi` the memory of a process, `ProcessApi` a process with its threads,
-- `FileApi` the file system, `SourceApi` what the breakpoints of a file are resolved to,
-- `LocationApi` and `CallerApi` the locations of breakpoints and the frames of a stopped thread,
-- `WatchApi` values and watchpoints, `FillApi` a function of liblldb that fills a buffer;
-- `Payloads` are the types that the protocol's messages carry, and the channels of tokio are lists
-- in the order in which they deliver. The values of expressions and of Python conditions, and
-- what formatting a log message comes to, are arguments of the callback of a hit. `VariableApi` has values, frames and the tree of handles,
-- `EvaluateApi` the interpreters of commands and of Python, `Grammars` the parsers of expressions,
-- `LaunchApi` the answers of liblldb as functions of the calls before, `EnvironmentApi` an
-- environment, `Handlers` the handlers of the requests. What the code sees of the time and of a
-- cancellation is the record `Clock`. The arguments of `handle_restart` and of `set_entries` stand
-- for the launch that is completed again and for what the library `dotenvy` reads.
--
-- Not modelled: the grammar of expressions; the requests launch, attach and terminate and the
-- initialisation; stack traces, modules and completions; the Python
-- interface, the bindings and the loader of liblldb, terminals, sockets and threads; the extension
-- of the editor.
pub mod Common
pub mod Breakpoints
pub mod Cancellation
pub mod DapSession
pub mod Disassemble
pub mod Disassembly
pub mod Dispatch
pub mod Errors
pub mod Expressions
pub mod Launch
pub mod Listener
pub mod Session
pub mod StepIn
pub mod Strings
pub mod Variables
