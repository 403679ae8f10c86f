-- ===== src/Session/Resuming.antt =====
-- `handle_process_event`, and the requests that stop and resume the process.
use vscode_lldb.Common.{
  ℕ, ◌+◌, Bool, true, false, ◌||◌, Option, none, some, List, [], ◌∷◌, if◌then◌else◌, get_elem?,
}
use vscode_lldb.Common.Int.{ℤ, as_u64}
use vscode_lldb.Common.Outcome.{Outcome, ok, err, panic, out_of_fuel}
use vscode_lldb.Common.Text.{Text, codes}
use vscode_lldb.Session.Sources.{FileApi, in_disassembly}
use vscode_lldb.Session.Running.{
  ProcessState, invalid, unloaded, connected, attaching, launching, stopped_state, running_state,
  stepping, crashed, detached, exited_state, suspended, is_running, ProcessApi, output, Running,
  send_event, notify_process_running, notify_process_stopped, notify_process_terminated,
  console_messages,
}

pub record ProcessEvent : Type 0 where
  -- `process_state()`, where the bit of a changed state is set
  pub state_changed : Option ProcessState
  pub restarted : Bool
  pub restarted_reasons : List Text
  pub has_stdout : Bool
  pub has_stderr : Bool
  -- what the reads of the stream give, one after another
  pub reads : List (List ℕ)

pub data SteppingGranularity : Type 0 where
  by_statement by_line by_instruction : SteppingGranularity

module _ (api : ProcessApi) where
  abbrev pub notify_stopped_event : ProcessEvent → Running api → Running api
  notify_stopped_event e s =
      if e.restarted
      then console_messages api e.restarted_reasons s
      else notify_process_stopped api s

  unfoldable pub on_state : ProcessEvent → ProcessState → Running api → Running api
  unfolding console_messages
  on_state e running_state s = notify_process_running api s
  on_state e stepping s = notify_process_running api s
  on_state e attaching s = notify_process_running api s
  on_state e launching s = notify_process_running api s
  on_state e stopped_state s = notify_stopped_event e s
  on_state e crashed s = notify_process_stopped api s
  on_state e suspended s = notify_process_stopped api s
  on_state e exited_state s = notify_process_terminated api s
  on_state e detached s = notify_process_terminated api s
  on_state e invalid s = s
  on_state e unloaded s = s
  on_state e connected s = s

  abbrev pub on_optional_state : ProcessEvent → Option ProcessState → Running api → Running api
  on_optional_state e none s = s
  on_optional_state e (some state) s = on_state e state s

  -- up to the first read that gives nothing
  unfoldable pub send_output : Text → List (List ℕ) → Running api → Running api
  send_output category [] s = s
  send_output category ([] ∷ reads) s = s
  send_output category ((b ∷ bytes) ∷ reads) s =
      send_output category reads
        (send_event api (output category (api.from_utf8_lossy (b ∷ bytes))) s)

  unfoldable pub handle_process_event : ProcessEvent → Running api → Running api
  unfolding on_state send_output
  handle_process_event e s =
      let s' = on_optional_state e e.state_changed s in
      if e.has_stdout || e.has_stderr
      then send_output (if e.has_stdout then codes "stdout" else codes "stderr") e.reads s'
      else s'

  abbrev pub before_resume : Running api → Running api
  before_resume s = record s {
    var_refs_resets = s.var_refs_resets + 1;
    selected_frame_changed = false;
    last_goto_request = none;
    step_in_targets = [];
  }

  abbrev pub run_process :
      (api.SBProcess → Option Text × api.SBProcess) → Running api → Option Text × Running api
  run_process op s = let (e, p) = op s.process in (e, record s { process = p })

  abbrev pub paused : Option Text × Running api → Outcome (Unit {0}) × Running api
  paused (none, s) = (ok tt, s)
  paused (some e, s) =
      if is_running (api.state s.process) then (err e, s) else (ok tt, notify_process_stopped api s)

  unfoldable pub handle_pause : Running api → Outcome (Unit {0}) × Running api
  unfolding is_running
  handle_pause s = paused (run_process api.stop s)

  abbrev pub continued_or : Option Text × Running api → Outcome (Unit {0}) × Running api
  continued_or (none, s) = (ok tt, s)
  continued_or (some e, s) =
      if is_running (api.state s.process) then (ok tt, notify_process_running api s) else (err e, s)

  unfoldable pub handle_continue : Running api → Outcome (Unit {0}) × Running api
  unfolding is_running
  handle_continue s = continued_or (run_process api.resume (before_resume s))

  abbrev pub or_thread_error : Running api → Option api.SBThread → Outcome api.SBThread
  or_thread_error s (some t) = ok t
  or_thread_error s none =
      if is_running (api.state s.process)
      then err (codes "Not available while the process is running.")
      else err (codes "Invalid thread_id.")

  unfoldable pub thread_by_id : ℤ → Running api → Outcome api.SBThread
  unfolding is_running
  thread_by_id id s = or_thread_error s (api.thread_by_id (as_u64 id) s.process)

  -- the error of a step is that of the request
  abbrev pub or_step_error : Option Text × Running api → Outcome (Unit {0}) × Running api
  or_step_error (none, s) = (ok tt, s)
  or_step_error (some e, s) = (err e, s)

  abbrev pub on_thread :
      Outcome api.SBThread
      → (api.SBThread → Outcome (Unit {0}) × Running api)
      → Running api
      → Outcome (Unit {0}) × Running api
  on_thread (ok t) f s = f t
  on_thread (err e) f s = (err e, s)
  on_thread panic f s = (panic, s)
  on_thread out_of_fuel f s = (out_of_fuel, s)

  -- whether to step by instructions
  abbrev pub steps_instruction :
      FileApi → Option SteppingGranularity → api.SBThread → Running api → Bool × Running api
  steps_instruction files (some by_instruction) t s = (true, s)
  steps_instruction files (some by_line) t s = (false, s)
  steps_instruction files (some by_statement) t s = (false, s)
  steps_instruction files none t s =
      let (result, sources) =
        in_disassembly files s.show_disassembly (api.line_entry_file t) s.sources in
      (result, record s { sources = sources })

  abbrev pub step_over_by : api.SBThread → Bool × Running api → Outcome (Unit {0}) × Running api
  step_over_by t (by_instr, s) =
      or_step_error
        (run_process (if by_instr then api.step_instruction true t else api.step_over t) s)

  unfoldable pub handle_next :
      FileApi → ℤ → Option SteppingGranularity → Running api → Outcome (Unit {0}) × Running api
  unfolding thread_by_id in_disassembly
  handle_next files id granularity s =
      on_thread (thread_by_id id s)
        (λ t. step_over_by t (steps_instruction files granularity t (before_resume s))) s

  unfoldable pub handle_step_out : ℤ → Running api → Outcome (Unit {0}) × Running api
  unfolding thread_by_id
  handle_step_out id s =
      let s' = before_resume s in
      on_thread (thread_by_id id s') (λ t. or_step_error (run_process (api.step_out t) s')) s'

  abbrev pub target_of : Option ℤ → List api.StepInTarget → Option api.StepInTarget
  target_of none targets = none
  target_of (some id) targets = get_elem? targets (as_u64 id)

  abbrev pub step_into_by :
      api.SBThread → Option api.StepInTarget → Bool × Running api → Outcome (Unit {0}) × Running api
  step_into_by t target (true, s) = or_step_error (run_process (api.step_instruction false t) s)
  step_into_by t none (false, s) = or_step_error (run_process (api.step_into t) s)
  step_into_by t (some target) (false, s) = (
    ok tt,
    notify_process_stopped api (record s { process = api.step_into_target target t s.process }),
  )

  abbrev pub valid_thread : Option api.SBThread → Outcome api.SBThread
  valid_thread none = err (codes "Invalid thread id.")
  valid_thread (some t) = ok t

  unfoldable pub handle_step_in :
      FileApi
      → ℤ
      → Option ℤ
      → Option SteppingGranularity
      → Running api
      → Outcome (Unit {0}) × Running api
  unfolding in_disassembly
  handle_step_in files id target_id granularity s =
      on_thread (valid_thread (api.thread_by_id (as_u64 id) s.process))
        (λ t.
          step_into_by t (target_of target_id s.step_in_targets)
            (steps_instruction files granularity t (before_resume s)))
        s
