-- ===== src/Session/RunTests.antt =====
-- A process with two threads, and instances.
use vscode_lldb.Common.{ℕ, ◌≡◌, refl, true, false, none, some, [], ◌∷◌, ◌⊎◌, ◌==◌, if◌then◌else◌}
use vscode_lldb.Common.Int.{pos}
use vscode_lldb.Common.Outcome.{err}
use vscode_lldb.Common.Text.{Text, codes}
use vscode_lldb.Session.Sources.{FileApi, auto}
use vscode_lldb.Session.Running.{
  breakpoint, no_reason, stopped_state, running_state, is_running, ProcessApi, Running,
  notify_process_stopped,
}
use vscode_lldb.Session.Resuming.{ProcessEvent}
use vscode_lldb.Session.View.{
  stopped_view, process_event, pause_request, handle_inputs, view_of, client_follows,
}
use vscode_lldb.Session.Stopping.{ReportsSelected, notify_process_stopped_lem}
use vscode_lldb.Session.Cleared.{step_in_request, handle_resume, IsCleared, handle_resume-IsCleared}

-- A process is the number of its selected thread; the second thread is at a breakpoint. Process 9 runs.
abbrev two_threads : ProcessApi
two_threads = record {
  SBProcess = ℕ;
  SBThread = ℕ;
  StepInTarget = ℕ;
  selected_thread = λ p. p;
  set_selected_thread = λ t p. t;
  threads = λ p. 1 ∷ 2 ∷ [];
  thread_at_index_0 = λ p. 1;
  thread_by_id = λ id p. if id == 2 then some 2 else none;
  thread_id = λ t. t;
  stop_reason = λ t. if t == 2 then breakpoint else no_reason;
  stop_reason_data_at_index_0 = λ t. 7;
  stop_description = λ t. [];
  line_entry_file = λ t. none;
  state = λ p. if p == 9 then running_state else stopped_state;
  from_utf8_lossy = λ bytes. bytes;
  exit_status = λ p. pos 0;
  stop = λ p. (some (codes "not running"), p);
  resume = λ p. (none, 9);
  step_instruction = λ over t p. (none, p);
  step_over = λ t p. (none, p);
  step_into = λ t p. (none, p);
  step_out = λ t p. (none, p);
  step_into_target = λ target t p. p;
}

abbrev no_files : FileApi
no_files = record {
  is_relative = λ p. false;
  join = λ b p. p;
  normalize_path = λ p. p;
  get_fs_path_case = λ p. none;
  is_file = λ p. false;
}

abbrev session : Running two_threads
session = record {
  process = 1;
  events = [];
  var_refs_resets = 0;
  selected_frame_changed = false;
  last_goto_request = some (pos 3);
  step_in_targets = 5 ∷ [];
  show_disassembly = auto;
  sources = record {
    source_map_cache = [];
    relative_path_base = [];
    suppress_missing_files = false;
  };
}

abbrev has_resumed : ProcessEvent
has_resumed = record {
  state_changed = some running_state;
  restarted = false;
  restarted_reasons = [];
  has_stdout = true;
  has_stderr = false;
  reads = (72 ∷ []) ∷ [] ∷ [];
}

-- The process has resumed; by the time of the request it has stopped, without an event.
client_follows_example :
    view_of two_threads
      (handle_inputs two_threads (process_event 9 has_resumed ∷ pause_request 1 ∷ []) session)
    ≡ stopped_view
unfolding is_running
client_follows_example =
    client_follows two_threads (process_event 9 has_resumed ∷ pause_request 1 ∷ []) session

notify_process_stopped_lem_example :
    ReportsSelected two_threads session (notify_process_stopped two_threads session)
notify_process_stopped_lem_example = notify_process_stopped_lem two_threads session (λ t p. refl)

handle_resume-IsCleared_example :
    IsCleared two_threads no_files session
      (handle_resume two_threads no_files (step_in_request (pos 2) (some (pos 0)) none) session).1
    ⊎ (((e : Text) × ((handle_resume two_threads no_files
              (step_in_request (pos 2) (some (pos 0)) none)
              session).0
            ≡ err e))
        × ((handle_resume two_threads no_files
              (step_in_request (pos 2) (some (pos 0)) none)
              session).1
            ≡ session))
handle_resume-IsCleared_example =
    handle_resume-IsCleared two_threads no_files (step_in_request (pos 2) (some (pos 0)) none)
      session
