-- ===== src/Launch/Ending.antt =====
-- `common_post_run`, `terminate_debuggee`, `handle_disconnect` and `handle_restart`.
use vscode_lldb.Common.{
  Bool, true, false, ◌&&◌, Option, none, some, List, [], ◌∷◌, ◌++◌, if◌then◌else◌,
}
use vscode_lldb.Common.Text.{Text, codes}
use vscode_lldb.Launch.{
  kill_process, detach_process, cork_events, uncork_events, LaunchApi, LaunchState, call,
  exec_commands,
}

-- `none` is success.
abbrev pub Done : Type 0
Done = Option Text × LaunchState

-- `cork` or `uncork` of the event listener
abbrev pub set_corked : Bool → LaunchState → LaunchState
set_corked b s = record {
  calls = s.calls ++ (if b then cork_events else uncork_events) ∷ [];
  console = s.console;
  debuggee_terminal = s.debuggee_terminal;
  corked = b;
  terminate_on_disconnect = s.terminate_on_disconnect;
  pre_terminate_commands = s.pre_terminate_commands;
  exit_commands = s.exit_commands;
}

abbrev pub drop_terminal : LaunchState → LaunchState
drop_terminal s = record {
  calls = s.calls;
  console = s.console;
  debuggee_terminal = false;
  corked = s.corked;
  terminate_on_disconnect = s.terminate_on_disconnect;
  pre_terminate_commands = s.pre_terminate_commands;
  exit_commands = s.exit_commands;
}

module _ (api : LaunchApi) where
  -- a script whose error is only logged
  abbrev pub log_script : Text → Option (List Text) → LaunchState → LaunchState
  log_script name none s = s
  log_script name (some commands) s = (exec_commands api name commands s).1

  abbrev pub unwrap_or : Bool → Option Bool → Bool
  unwrap_or d none = d
  unwrap_or d (some b) = b

  unfoldable pub terminate_debuggee : Option Bool → LaunchState → Done
  terminate_debuggee force_terminate s =
      if api.is_valid s.calls && api.is_alive s.calls
      then if unwrap_or s.terminate_on_disconnect force_terminate
        then (api.kill_error s.calls, call kill_process s)
        else (api.detach_error s.calls, call detach_process s)
      else (none, s)

  abbrev pub on_success : (LaunchState → Done) → Done → Done
  on_success f (none, s) = f s
  on_success f (some e, s) = (some e, s)

  unfoldable pub handle_disconnect : Option Bool → LaunchState → Done
  unfolding terminate_debuggee exec_commands
  handle_disconnect force_terminate s =
      let s' =
        drop_terminal (log_script (codes "preTerminateCommands") s.pre_terminate_commands s) in
      on_success (λ t. (none, log_script (codes "exitCommands") t.exit_commands t))
        (terminate_debuggee force_terminate s')

  -- `complete` launches or attaches again, as the arguments of the request say.
  unfoldable pub handle_restart : (LaunchState → Done) → LaunchState → Done
  unfolding terminate_debuggee exec_commands
  handle_restart complete s =
      let s' =
        set_corked true (log_script (codes "preTerminateCommands") s.pre_terminate_commands s) in
      on_success (λ t. complete (set_corked false t)) (terminate_debuggee none s')

  -- The end of `complete_launch` (which is to terminate the debuggee when the client disconnects)
  -- and of `complete_attach` (which is not), with `common_post_run`.
  unfoldable pub common_post_run :
      Bool → Option (List Text) → Option (List Text) → Option (List Text) → LaunchState → Done
  unfolding exec_commands
  common_post_run terminate post_run pre_terminate exit s =
      let t : LaunchState = record {
        calls = s.calls;
        console = s.console;
        debuggee_terminal = s.debuggee_terminal;
        corked = s.corked;
        terminate_on_disconnect = terminate;
        pre_terminate_commands = s.pre_terminate_commands;
        exit_commands = s.exit_commands;
      } in
      let u = log_script (codes "postRunCommands") post_run t in
      (
        none,
        record {
          calls = u.calls;
          console = u.console;
          debuggee_terminal = u.debuggee_terminal;
          corked = u.corked;
          terminate_on_disconnect = u.terminate_on_disconnect;
          pre_terminate_commands = pre_terminate;
          exit_commands = exit;
        },
      )
