-- ===== src/Launch.antt =====
-- src/codelldb/src/debug_session/launch.rs: the start and the end of a debuggee. What the session asks of
-- liblldb, and of the listener of its events, is the list of its calls, in their order; the answers of liblldb are functions of the calls
-- before, in the parameter `LaunchApi`.
pub mod Environment
pub mod Folding
pub mod Stdio
pub mod Ending
pub mod Order
mod Tests
use vscode_lldb.Common.{
  Bool, true, false, Option, none, some, List, [], ◌∷◌, ◌++◌, ℕ, if◌then◌else◌,
}
use vscode_lldb.Common.Text.{Text, codes}

pub data Call : Type 0 where
  command : Text → Call
  set_async_mode kill_process detach_process : Call
  cork_events uncork_events : Call

pub record CommandReturn : Type 0 where
  pub succeeded : Bool
  pub output : Text
  pub error : Text

pub record LaunchApi : Type 0 where
  pub handle_command : List Call → Text → CommandReturn
  -- the process of the target: whether there is one, and whether it is alive
  pub is_valid : List Call → Bool
  pub is_alive : List Call → Bool
  -- the errors of `kill` and `detach`
  pub kill_error : List Call → Option Text
  pub detach_error : List Call → Option Text

pub record LaunchState : Type 0 where
  pub calls : List Call
  pub console : List Text
  pub debuggee_terminal : Bool
  -- the listener of the debugger's events drops them
  pub corked : Bool
  pub terminate_on_disconnect : Bool
  pub pre_terminate_commands : Option (List Text)
  pub exit_commands : Option (List Text)

abbrev pub call : Call → LaunchState → LaunchState
call c s = record {
  calls = s.calls ++ c ∷ [];
  console = s.console;
  debuggee_terminal = s.debuggee_terminal;
  corked = s.corked;
  terminate_on_disconnect = s.terminate_on_disconnect;
  pre_terminate_commands = s.pre_terminate_commands;
  exit_commands = s.exit_commands;
}

abbrev pub say : Text → LaunchState → LaunchState
say m s = record {
  calls = s.calls;
  console = s.console ++ m ∷ [];
  debuggee_terminal = s.debuggee_terminal;
  corked = s.corked;
  terminate_on_disconnect = s.terminate_on_disconnect;
  pre_terminate_commands = s.pre_terminate_commands;
  exit_commands = s.exit_commands;
}

abbrev pub say_some : Text → LaunchState → LaunchState
say_some [] s = s
say_some (c ∷ m) s = say (c ∷ m) s

module _ (api : LaunchApi) where
  abbrev pub exec_each : List Text → LaunchState → Option Text × LaunchState
  exec_each [] s = (none, s)
  exec_each (c ∷ cs) s =
      let r = api.handle_command s.calls c in
      let s' = say_some r.output (call (command c) s) in
      let rest = exec_each cs s' in if r.succeeded then rest else (some r.error, say r.error s')

  -- The commands of a script, up to the first that fails; its error is the result.
  unfoldable pub exec_commands : Text → List Text → LaunchState → Option Text × LaunchState
  exec_commands script_name commands s =
      let result = exec_each commands (say (codes "Executing script: " ++ script_name) s) in
      (result.0, call set_async_mode result.1)
