-- ===== src/Session/Running.antt =====
-- How the client follows the process: `handle_process_event`, the three `notify_process_…`, and the
-- requests `pause`, `continue`, `next`, `stepIn` and `stepOut`. The process is the parameter
-- `ProcessApi`, whose operations give the error of liblldb, if any, and the next state.
use vscode_lldb.Common.{
  ℕ, suc, ◌+◌, Bool, true, false, Option, none, some, List, [], ◌∷◌, ◌++◌, if◌then◌else◌,
}
use vscode_lldb.Common.Int.{ℤ, pos, negsuc}
use vscode_lldb.Common.Text.{Text, codes, text_eq, decimal}
use vscode_lldb.Session.Sources.{FileSpec, Sources, ShowDisassembly}

pub data StopReason : Type 0 where
  invalid_reason no_reason breakpoint watchpoint trace plan_complete signal exception other_reason :
      StopReason

pub data ProcessState : Type 0 where
  invalid unloaded connected attaching launching stopped_state running_state stepping crashed
        detached exited_state suspended :
      ProcessState

unfoldable pub is_running : ProcessState → Bool
is_running attaching = true
is_running launching = true
is_running running_state = true
is_running stepping = true
is_running _ = false

pub record ProcessApi : Type 1 where
  pub SBProcess : Type 0
  pub SBThread : Type 0
  pub StepInTarget : Type 0
  pub selected_thread : SBProcess → SBThread
  pub set_selected_thread : SBThread → SBProcess → SBProcess
  pub threads : SBProcess → List SBThread
  pub thread_at_index_0 : SBProcess → SBThread
  pub thread_by_id : ℕ → SBProcess → Option SBThread
  pub thread_id : SBThread → ℕ
  pub stop_reason : SBThread → StopReason
  pub stop_reason_data_at_index_0 : SBThread → ℕ
  pub stop_description : SBThread → Text
  -- the file of the line entry of the first frame
  pub line_entry_file : SBThread → Option FileSpec
  pub state : SBProcess → ProcessState
  pub from_utf8_lossy : List ℕ → Text
  pub exit_status : SBProcess → ℤ
  pub stop : SBProcess → Option Text × SBProcess
  pub resume : SBProcess → Option Text × SBProcess
  -- over calls, or into them
  pub step_instruction : Bool → SBThread → SBProcess → Option Text × SBProcess
  pub step_over : SBThread → SBProcess → Option Text × SBProcess
  pub step_into : SBThread → SBProcess → Option Text × SBProcess
  pub step_out : SBThread → SBProcess → Option Text × SBProcess
  -- `step_into_target`, whose errors are only logged
  pub step_into_target : StepInTarget → SBThread → SBProcess → SBProcess

pub record StoppedEventBody : Type 0 where
  pub thread_id : ℕ
  pub reason : Text
  pub description : Option Text
  pub hit_breakpoint_ids : List ℕ

pub data EventBody : Type 0 where
  -- with its category
  output : Text → Text → EventBody
  continued : ℕ → EventBody
  stopped : StoppedEventBody → EventBody
  exited : ℤ → EventBody
  terminated : EventBody

pub record Running (api : ProcessApi) : Type 0 where
  pub process : api.SBProcess
  -- what has been sent to the client
  pub events : List EventBody
  -- how often the handles of variables have been reset
  pub var_refs_resets : ℕ
  pub selected_frame_changed : Bool
  -- the line of the last `gotoTargets`
  pub last_goto_request : Option ℤ
  pub step_in_targets : List api.StepInTarget
  pub show_disassembly : ShowDisassembly
  pub sources : Sources

-- Identifiers of watchpoints stand behind those of breakpoints.
abbrev pub wpid_to_bpid : ℕ → ℕ
wpid_to_bpid id = id + 1000000

abbrev pub is_valid_reason : StopReason → Bool
is_valid_reason invalid_reason = false
is_valid_reason no_reason = false
is_valid_reason _ = true

abbrev decimal_int : ℤ → Text
decimal_int (pos n) = decimal n
decimal_int (negsuc n) = codes "-" ++ decimal (suc n)

abbrev non_empty : Text → Option Text
non_empty s = if text_eq s [] then none else some s

module _ (api : ProcessApi) where
  abbrev pub send_event : EventBody → Running api → Running api
  send_event e s = record s { events = s.events ++ e ∷ [] }

  abbrev pub console_message_impl : Text → Text → Running api → Running api
  console_message_impl category text s = send_event (output category (text ++ 10 ∷ [])) s

  abbrev pub notify_process_running : Running api → Running api
  notify_process_running s =
      send_event (continued (api.thread_id (api.thread_at_index_0 s.process))) s

  -- the first thread that stopped for a reason
  unfoldable pub find_stopped : List api.SBThread → Option api.SBThread
  find_stopped [] = none
  find_stopped (t ∷ ts) =
      let rest = find_stopped ts in if is_valid_reason (api.stop_reason t) then some t else rest

  abbrev pub select : api.SBThread → Option api.SBThread → Running api → api.SBThread × Running api
  select selected none s = (selected, s)
  select selected (some t) s = (t, record s { process = api.set_selected_thread t s.process })

  -- the selected thread, or else the first that stopped for a reason, which is then selected
  unfoldable pub choose_thread : Running api → api.SBThread × Running api
  unfolding find_stopped
  choose_thread s =
      if is_valid_reason (api.stop_reason (api.selected_thread s.process))
      then (api.selected_thread s.process, s)
      else select (api.selected_thread s.process) (find_stopped (api.threads s.process)) s

  -- reason, description, and the breakpoints that were hit
  abbrev pub analyze : api.SBThread → StopReason → Text × Option Text × List ℕ
  analyze t breakpoint = (codes "breakpoint", none, api.stop_reason_data_at_index_0 t ∷ [])
  analyze t watchpoint =
      (codes "data breakpoint", none, wpid_to_bpid (api.stop_reason_data_at_index_0 t) ∷ [])
  analyze t trace = (codes "step", none, [])
  analyze t plan_complete = (codes "step", none, [])
  analyze t signal = (codes "exception", non_empty (api.stop_description t), [])
  analyze t exception = (codes "exception", non_empty (api.stop_description t), [])
  analyze t _ = (codes "unknown", non_empty (api.stop_description t), [])

  abbrev pub report_description : Option Text → Running api → Running api
  report_description none s = s
  report_description (some d) s =
      console_message_impl (codes "stderr") (codes "Stop reason: " ++ d) s

  abbrev pub stopped_body : api.SBThread → StoppedEventBody
  stopped_body t =
      let (reason, description, hit) = analyze t (api.stop_reason t) in
      record {
        thread_id = api.thread_id t;
        reason = reason;
        description = description;
        hit_breakpoint_ids = hit;
      }

  abbrev pub report : api.SBThread → Running api → Running api
  report t s =
      send_event (stopped (stopped_body t)) (report_description (stopped_body t).description s)

  unfoldable pub notify_process_stopped : Running api → Running api
  unfolding choose_thread
  notify_process_stopped s = let (t, s') = choose_thread s in report t s'

  abbrev pub note_exit : Running api → Running api
  note_exit s = send_event (exited (api.exit_status s.process)) (
      console_message_impl (codes "console")
        (codes "Process exited with code "
          ++ (decimal_int (api.exit_status s.process) ++ codes "."))
        s)

  abbrev pub note_detached : Running api → Running api
  note_detached s = console_message_impl (codes "console") (codes "Detached from debuggee.") s

  abbrev ended : Running api → ProcessState → Running api
  ended s exited_state = send_event terminated (note_exit s)
  ended s detached = send_event terminated (note_detached s)
  ended s _ = s

  abbrev pub notify_process_terminated : Running api → Running api
  notify_process_terminated s = ended s (api.state s.process)

  unfoldable pub console_messages : List Text → Running api → Running api
  console_messages [] s = s
  console_messages (m ∷ ms) s = console_messages ms (console_message_impl (codes "console") m s)
