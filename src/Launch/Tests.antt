-- ===== src/Launch/Tests.antt =====
-- A debugger whose second call fails, an environment that is a table, and instances.
use vscode_lldb.Common.{
  ◌≡◌, refl, true, false, none, some, List, [], ◌∷◌, ◌++◌, length, map, get_elem?, ◌==◌,
  if◌then◌else◌,
}
use vscode_lldb.Common.Map.{Map, get, insert, get-insert, Text_eq}
use vscode_lldb.Common.Text.{Text, codes, text_eq, str_contains}
use vscode_lldb.Launch.{
  Call, command, set_async_mode, kill_process, cork_events, LaunchApi, LaunchState,
}
use vscode_lldb.Launch.Ending.{Done, handle_disconnect, handle_restart}
use vscode_lldb.Launch.Environment.{EnvironmentApi, entries, launch_env}
use vscode_lldb.Launch.Folding.{expected, launch_env_lem}
use vscode_lldb.Launch.Order.{
  script, ending, ending_error, exit_script, Restarted, handle_disconnect_lem, handle_restart_lem,
}
use vscode_lldb.Launch.Stdio.{
  Terminal, StdioArg, files, stdio_list, configure_stdio, actions_on, requested, opened,
  configure_stdio_lem,
}

abbrev table : EnvironmentApi
table = record {
  SBEnvironment = Map Text Text;
  new = [];
  set_env = λ k v overwrite m. insert k v m;
  get_env = λ k m. get k m;
}

abbrev upper : Text → Text
upper t = map (λ c. if c == b'a' then b'A' else c) t

table-get_set :
    (j k v : Text) (m : Map Text Text)
    → table.get_env j (table.set_env k v true m)
      ≡ (if text_eq j k then some v else table.get_env j m)
table-get_set j k v m = get-insert j k v m

-- A key that is inherited in another spelling stays beside the one that is set.
launch_env_runs :
    (launch_env upper table
      (codes "x-windows")
      true
      ((codes "a", codes "1") ∷ [])
      none
      (some ((codes "A", codes "2") ∷ (codes "a", codes "3") ∷ []))).1.1
    ≡ (codes "a", codes "1") ∷ (codes "A", codes "3") ∷ []
unfolding launch_env text_eq
launch_env_runs = refl

launch_env_lem_example :
    ((launch_env upper table
        (codes "windows")
        true
        ((codes "a", codes "1") ∷ [])
        (some (codes "f", entries ((none, codes "A", codes "2") ∷ [])))
        (some ((codes "a", codes "3") ∷ []))).0
      ≡ none)
    × (get
          (codes "A")
          (launch_env upper table
            (codes "windows")
            true
            ((codes "a", codes "1") ∷ [])
            (some (codes "f", entries ((none, codes "A", codes "2") ∷ [])))
            (some ((codes "a", codes "3") ∷ []))).1.1
        ≡ expected upper
            (str_contains (codes "windows") (codes "windows"))
            (codes "A")
            none
            (get (codes "A") ((codes "a", codes "1") ∷ []))
            ((codes "A", codes "2") ∷ (codes "a", codes "3") ∷ []))
launch_env_lem_example =
    launch_env_lem upper table table-get_set (codes "windows") (codes "f") (codes "A") true
      ((codes "a", codes "1") ∷ []) ((codes "A", codes "2") ∷ []) ((codes "a", codes "3") ∷ [])

abbrev tty : Terminal
tty = record { windows = false; tty = some (codes "/dev/pts/1") }

abbrev two_files : StdioArg
two_files = files (none ∷ some (codes "out") ∷ [])

configure_stdio_lem_example :
    actions_on 2 (configure_stdio (some tty) (some two_files))
    ≡ opened tty 2 (requested 2 (get_elem? (stdio_list (some two_files)) 2))
configure_stdio_lem_example = configure_stdio_lem tty (some two_files) 2

abbrev failing : LaunchApi
failing = record {
  handle_command = λ h c. record {
    succeeded = if length h == 1 then false else true;
    output = [];
    error = codes "no";
  };
  is_valid = λ h. true;
  is_alive = λ h. true;
  kill_error = λ h. none;
  detach_error = λ h. some (codes "lost");
}

abbrev running : LaunchState
running = record {
  calls = [];
  console = [];
  debuggee_terminal = true;
  corked = false;
  terminate_on_disconnect = true;
  pre_terminate_commands = some (codes "a" ∷ codes "b" ∷ codes "c" ∷ []);
  exit_commands = some (codes "bye" ∷ []);
}

abbrev attached : LaunchState
attached = record {
  calls = [];
  console = [];
  debuggee_terminal = false;
  corked = false;
  terminate_on_disconnect = false;
  pre_terminate_commands = none;
  exit_commands = none;
}

abbrev pre_terminate : List Call
pre_terminate = script failing [] (some (codes "a" ∷ codes "b" ∷ codes "c" ∷ []))

disconnect_runs :
    (handle_disconnect failing none running).1.calls
    ≡ command (codes "a")
      ∷ command (codes "b")
      ∷ set_async_mode
      ∷ kill_process
      ∷ command (codes "bye")
      ∷ set_async_mode
      ∷ []
unfolding handle_disconnect
disconnect_runs = refl

handle_disconnect_lem_example :
    ((handle_disconnect failing none running).0 ≡ ending_error failing pre_terminate true)
    × ((handle_disconnect failing none running).1.calls
        ≡ (pre_terminate ++ ending failing pre_terminate true)
          ++ exit_script failing
              (ending_error failing pre_terminate true)
              (pre_terminate ++ ending failing pre_terminate true)
              (some (codes "bye" ∷ [])))
handle_disconnect_lem_example = handle_disconnect_lem failing none running

abbrev completes : LaunchState → Done
completes s = (none, s)

handle_restart_lem_example :
    Restarted failing completes attached
      (cork_events ∷ [])
      (handle_restart failing completes attached)
      (some (codes "lost"))
handle_restart_lem_example = handle_restart_lem failing completes attached
