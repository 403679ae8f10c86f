-- ===== src/Dispatch.antt =====
-- `handle_request`, `handle_request_args` and `send_response` of src/codelldb/src/debug_session.rs: how
-- a request gets its response, at once or from a task that is spawned for it. The handlers of the
-- requests are the parameter `Handlers`; what a spawned future comes to is a step's own input.
pub mod Answers
mod Tests
use vscode_lldb.Common.{
  ℕ, zero, suc, Bool, true, false, Option, none, some, List, [], ◌∷◌, ◌++◌, if◌then◌else◌,
}
use vscode_lldb.Common.Text.{Text, codes}
use vscode_lldb.Errors.{
  Blame, internal, user, nobody, Error, str_error, blamed_error, async_response, BlamedError,
  Result, ok, err, blame_user, from_error,
}

-- The flag tells whether the arguments could be read.
pub data Command : Type 0 where
  launch attach restart : Bool → Command
  adapter_settings initialize configuration_done terminate disconnect : Command
  set_breakpoints set_instruction_breakpoints set_function_breakpoints set_exception_breakpoints :
      Command
  exception_info threads stack_trace scopes variables evaluate set_variable : Command
  pause continue_ next step_in_targets step_in step_out step_back reverse_continue : Command
  source modules completions goto_targets goto restart_frame : Command
  data_breakpoint_info set_data_breakpoints disassemble read_memory write_memory : Command
  symbols exclude_caller set_excluded_callers python_message : Command
  cancel run_in_terminal start_debugging unknown : Command

-- by the command's own handler, or by one of three errors
pub data Route : Type 0 where
  handled launch_cfg_error not_supported not_implemented : Route

-- the commands of the inner `match`
abbrev debug_route : Command → Route
debug_route cancel = not_implemented
debug_route run_in_terminal = not_implemented
debug_route start_debugging = not_implemented
debug_route unknown = not_implemented
debug_route _ = handled

abbrev read_route : Bool → Route
read_route true = handled
read_route false = launch_cfg_error

unfoldable pub route : Bool → Command → Route
route no_debug (launch readable) = read_route readable
route no_debug (attach readable) = read_route readable
route no_debug (restart readable) = read_route readable
route no_debug adapter_settings = handled
route no_debug initialize = handled
route no_debug configuration_done = handled
route no_debug terminate = handled
route no_debug disconnect = handled
route no_debug command = if no_debug then not_supported else debug_route command

pub record Handlers : Type 1 where
  pub Session : Type 0
  pub Future : Type 0
  pub ResponseBody : Type 0
  pub no_debug : Session → Bool
  pub handle : Command → Session → Result Future ResponseBody × Session
  -- the error of the arguments that could not be read
  pub json_error : Command → Text

pub data ResponseResult (ResponseBody : Type 0) : Type 0 where
  success : ResponseBody → ResponseResult ResponseBody
  error : Text → Bool → ResponseResult ResponseBody

module _ (api : Handlers) where
  pub record Response : Type 0 where
    pub request_seq : ℕ
    pub result : ResponseResult api.ResponseBody

  -- `{}` of an error
  abbrev pub message : Error api.Future → Text
  message (str_error m) = m
  message (blamed_error b e) = message e
  message (async_response f) = codes "AsyncResponse"

  abbrev error_result : Blame → Text → ResponseResult api.ResponseBody
  error_result internal m = error (codes "Internal debugger error: " ++ m) true
  error_result user m = error m true
  error_result nobody m = error m false

  abbrev result_of : Result api.Future api.ResponseBody → ResponseResult api.ResponseBody
  result_of (ok body) = success body
  result_of (err e) = let blamed = from_error e in error_result blamed.blame (message blamed.inner)

  unfoldable pub send_response : ℕ → Result api.Future api.ResponseBody → Response
  send_response seq result = record { request_seq = seq; result = result_of result }

  abbrev by_route : Command → api.Session → Route → Result api.Future api.ResponseBody × api.Session
  by_route command s handled = api.handle command s
  by_route command s launch_cfg_error = (
    err (
        blame_user
          (str_error (codes "Could not parse launch configuration: " ++ api.json_error command))),
    s,
  )
  by_route command s not_supported = (err (str_error (codes "Not supported in noDebug mode.")), s)
  by_route command s not_implemented = (err (str_error (codes "Not implemented.")), s)

  unfoldable pub handle_request_args :
      Command → api.Session → Result api.Future api.ResponseBody × api.Session
  unfolding route
  handle_request_args command s = by_route command s (route (api.no_debug s) command)

  -- the session, the responses it has sent, and the tasks it has spawned with their requests
  pub record Dispatcher : Type 0 where
    pub session : api.Session
    pub responses : List Response
    pub tasks : List (ℕ × api.Future)

  abbrev pub respond : ℕ → Result api.Future api.ResponseBody → Dispatcher → Dispatcher
  respond seq result d = record {
    session = d.session;
    responses = d.responses ++ send_response seq result ∷ [];
    tasks = d.tasks;
  }

  abbrev finished : ℕ → Dispatcher → Result api.Future api.ResponseBody × api.Session → Dispatcher
  finished seq d (err (async_response fut), s) = record {
    session = s;
    responses = d.responses;
    tasks = d.tasks ++ (seq, fut) ∷ [];
  }
  finished seq d (result, s) =
      respond seq result (record { session = s; responses = d.responses; tasks = d.tasks })

  abbrev is_unknown : Command → Bool
  is_unknown unknown = true
  is_unknown _ = false

  -- The flag tells whether the request is cancelled when it is its turn.
  unfoldable pub handle_request : ℕ → Command → Bool → Dispatcher → Dispatcher
  unfolding send_response handle_request_args
  handle_request seq command is_cancelled d =
      if is_cancelled
      then respond seq (err (str_error (codes "canceled"))) d
      else if is_unknown command
      then respond seq (err (str_error (codes "Not implemented."))) d
      else finished seq d (handle_request_args command d.session)

  abbrev pub push_task :
      ℕ × api.Future → Option (ℕ × List (ℕ × api.Future)) → Option (ℕ × List (ℕ × api.Future))
  push_task t none = none
  push_task t (some (seq, rest)) = some (seq, t ∷ rest)

  -- the task number i, and the others
  abbrev pub take_task : ℕ → List (ℕ × api.Future) → Option (ℕ × List (ℕ × api.Future))
  take_task i [] = none
  take_task zero (t ∷ tasks) = some (t.0, tasks)
  take_task (suc i) (t ∷ tasks) = push_task t (take_task i tasks)

  abbrev with_task :
      Option (ℕ × List (ℕ × api.Future))
      → Result api.Future api.ResponseBody
      → Dispatcher
      → Dispatcher
  with_task none result d = d
  with_task (some (seq, rest)) result d =
      respond seq result (record { session = d.session; responses = d.responses; tasks = rest })

  -- a task that has its result sends the response
  unfoldable pub complete_task : ℕ → Result api.Future api.ResponseBody → Dispatcher → Dispatcher
  unfolding send_response
  complete_task i result d = with_task (take_task i d.tasks) result d

  pub data Step : Type 0 where
    on_request : ℕ → Command → Bool → Step
    on_completion : ℕ → Result api.Future api.ResponseBody → Step

  abbrev pub step : Step → Dispatcher → Dispatcher
  step (on_request seq command is_cancelled) d = handle_request seq command is_cancelled d
  step (on_completion i result) d = complete_task i result d

  abbrev pub run : List Step → Dispatcher → Dispatcher
  run [] d = d
  run (x ∷ xs) d = run xs (step x d)
