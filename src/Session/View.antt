-- ===== src/Session/View.antt =====
-- What the client makes of the events that it is sent.
use vscode_lldb.Common.{
  ℕ, ◌≡◌, refl, ap, ◌∙◌, Bool, true, false, not, ◌||◌, ◌&&◌, Option, none, some, List, [], ◌∷◌,
  ◌++◌, if◌then◌else◌, Bool-cases, inl, inr,
}
use vscode_lldb.Common.Text.{Text}
use vscode_lldb.Session.Running.{
  ProcessState, invalid, unloaded, connected, attaching, launching, stopped_state, running_state,
  stepping, crashed, detached, exited_state, suspended, is_running, ProcessApi, EventBody, output,
  continued, stopped, exited, terminated, Running, send_event, choose_thread, report_description,
  note_exit, note_detached, stopped_body, notify_process_running, notify_process_stopped,
  notify_process_terminated, console_messages,
}
use vscode_lldb.Session.Resuming.{
  ProcessEvent, on_state, send_output, handle_process_event, on_optional_state, before_resume,
  run_process, paused, handle_pause, continued_or, handle_continue,
}

pub data View : Type 0 where
  unknown running_view stopped_view ended_view : View

abbrev pub seen : EventBody → View → View
seen (output category text) v = v
seen (continued id) v = running_view
seen (stopped body) v = stopped_view
seen (exited code) v = v
seen terminated v = ended_view

abbrev pub view_from : View → List EventBody → View
view_from v [] = v
view_from v (e ∷ es) = view_from (seen e v) es

view_from-snoc :
    (v : View) (es : List EventBody) (e : EventBody)
    → view_from v (es ++ e ∷ []) ≡ seen e (view_from v es)
view_from-snoc v [] e = refl
view_from-snoc v (d ∷ es) e = view_from-snoc (seen d v) es e

-- a state in which a process that has not been restarted is stopped
abbrev pub is_at_rest : ProcessState → Bool → Bool
is_at_rest stopped_state restarted = not restarted
is_at_rest crashed restarted = true
is_at_rest suspended restarted = true
is_at_rest _ restarted = false

abbrev pub is_over : ProcessState → Bool
is_over exited_state = true
is_over detached = true
is_over _ = false

-- What an event of the process, in a process that has come to a state `now`, means for it.
abbrev pub follow_state : Bool → ProcessState → ProcessState → View → View
follow_state restarted state now v =
    if is_running state
    then running_view
    else if is_at_rest state restarted
    then stopped_view
    else if is_over state && is_over now
    then ended_view
    else v

abbrev pub follow_event : ProcessEvent → Option ProcessState → ProcessState → View → View
follow_event e none now v = v
follow_event e (some state) now v = follow_state e.restarted state now v

module _ (api : ProcessApi) where
  -- What happens to a session: an event, or a request, each with what the process has come to.
  pub data Input : Type 0 where
    process_event : api.SBProcess → ProcessEvent → Input
    pause_request continue_request : api.SBProcess → Input

  abbrev pub arrive : api.SBProcess → Running api → Running api
  arrive p s = record s { process = p }

  unfoldable pub handle_input : Input → Running api → Running api
  unfolding handle_process_event handle_pause handle_continue
  handle_input (process_event p e) s = handle_process_event api e (arrive p s)
  handle_input (pause_request p) s = (handle_pause api (arrive p s)).1
  handle_input (continue_request p) s = (handle_continue api (arrive p s)).1

  unfoldable pub handle_inputs : List Input → Running api → Running api
  handle_inputs [] s = s
  handle_inputs (i ∷ is) s = handle_inputs is (handle_input i s)

  -- A request changes the view only where liblldb fails it.
  abbrev failed : Option Text → View → View → View
  failed none w v = v
  failed (some e) w v = w

  abbrev pub follow : Input → View → View
  follow (process_event p e) v = follow_event e e.state_changed (api.state p) v
  follow (pause_request p) v =
      failed (api.stop p).0 (if is_running (api.state (api.stop p).1) then v else stopped_view) v
  follow (continue_request p) v =
      failed (api.resume p).0 (if is_running (api.state (api.resume p).1) then running_view else v)
        v

  abbrev pub follow_all : List Input → View → View
  follow_all [] v = v
  follow_all (i ∷ is) v = follow_all is (follow i v)

  abbrev pub view_of : Running api → View
  view_of s = view_from unknown s.events

  view_of-send :
      (e : EventBody) (s : Running api) → view_of (send_event api e s) ≡ seen e (view_of s)
  view_of-send e s = view_from-snoc unknown s.events e

  view_of-running : (s : Running api) → view_of (notify_process_running api s) ≡ running_view
  view_of-running s = view_of-send (continued (api.thread_id (api.thread_at_index_0 s.process))) s

  view_of-stopped : (s : Running api) → view_of (notify_process_stopped api s) ≡ stopped_view
  unfolding notify_process_stopped
  view_of-stopped s =
      let (t, s') = choose_thread api s in
      view_of-send (stopped (stopped_body api t))
        (report_description api (stopped_body api t).description s')

  view_of-terminated :
      (s : Running api) (now : ProcessState)
      → api.state s.process ≡ now
      → view_of (notify_process_terminated api s) ≡ (if is_over now then ended_view else view_of s)
  view_of-terminated s exited_state e = rw e (view_of-send terminated (note_exit api s))
  view_of-terminated s detached e = rw e (view_of-send terminated (note_detached api s))
  view_of-terminated s invalid e = rw e refl
  view_of-terminated s unloaded e = rw e refl
  view_of-terminated s connected e = rw e refl
  view_of-terminated s attaching e = rw e refl
  view_of-terminated s launching e = rw e refl
  view_of-terminated s stopped_state e = rw e refl
  view_of-terminated s running_state e = rw e refl
  view_of-terminated s stepping e = rw e refl
  view_of-terminated s crashed e = rw e refl
  view_of-terminated s suspended e = rw e refl

  view_of-console_messages :
      (ms : List Text) (s : Running api) → view_of (console_messages api ms s) ≡ view_of s
  unfolding console_messages
  view_of-console_messages [] s = refl
  view_of-console_messages (m ∷ ms) s = view_of-console_messages ms _ ∙ view_of-send _ s

  view_of-send_output :
      (c : Text) (reads : List (List ℕ)) (s : Running api)
      → view_of (send_output api c reads s) ≡ view_of s
  unfolding send_output
  view_of-send_output c [] s = refl
  view_of-send_output c ([] ∷ reads) s = refl
  view_of-send_output c ((b ∷ bytes) ∷ reads) s = view_of-send_output c reads _ ∙ view_of-send _ s

  view_of-on_state :
      (e : ProcessEvent) (state now : ProcessState) (s : Running api)
      → api.state s.process ≡ now
      → view_of (on_state api e state s) ≡ follow_state e.restarted state now (view_of s)
  unfolding on_state is_running
  view_of-on_state e running_state now s h = view_of-running s
  view_of-on_state e stepping now s h = view_of-running s
  view_of-on_state e attaching now s h = view_of-running s
  view_of-on_state e launching now s h = view_of-running s
  view_of-on_state e crashed now s h = view_of-stopped s
  view_of-on_state e suspended now s h = view_of-stopped s
  view_of-on_state e exited_state now s h = view_of-terminated s now h
  view_of-on_state e detached now s h = view_of-terminated s now h
  view_of-on_state e invalid now s h = refl
  view_of-on_state e unloaded now s h = refl
  view_of-on_state e connected now s h = refl
  view_of-on_state e stopped_state now s h = elim (Bool-cases e.restarted) [
    | inl again ↦ rw again (view_of-console_messages e.restarted_reasons s)
    | inr rests ↦ rw rests (view_of-stopped s)
  ]

  view_of-optional_state :
      (e : ProcessEvent) (o : Option ProcessState) (s : Running api)
      → view_of (on_optional_state api e o s) ≡ follow_event e o (api.state s.process) (view_of s)
  view_of-optional_state e none s = refl
  view_of-optional_state e (some state) s = view_of-on_state e state (api.state s.process) s refl

  view_of-process_event :
      (e : ProcessEvent) (s : Running api)
      → view_of (handle_process_event api e s)
        ≡ follow_event e e.state_changed (api.state s.process) (view_of s)
  unfolding handle_process_event
  view_of-process_event e s = elim (Bool-cases (e.has_stdout || e.has_stderr)) [
    | inl some_output ↦
        rw some_output
          (view_of-send_output _ e.reads _ ∙ view_of-optional_state e e.state_changed s)
    | inr quiet ↦ rw quiet (view_of-optional_state e e.state_changed s)
  ]

  view_of-paused :
      (o : Option Text) (s : Running api) (v : View)
      → view_of s ≡ v
      → view_of (paused api (o, s)).1
        ≡ failed o (if is_running (api.state s.process) then v else stopped_view) v
  view_of-paused none s v h = h
  view_of-paused (some e) s v h = elim (Bool-cases (is_running (api.state s.process))) [
    | inl running ↦ rw running h
    | inr resting ↦ rw resting (view_of-stopped s)
  ]

  view_of-continued :
      (o : Option Text) (s : Running api) (v : View)
      → view_of s ≡ v
      → view_of (continued_or api (o, s)).1
        ≡ failed o (if is_running (api.state s.process) then running_view else v) v
  view_of-continued none s v h = h
  view_of-continued (some e) s v h = elim (Bool-cases (is_running (api.state s.process))) [
    | inl running ↦ rw running (view_of-running s)
    | inr resting ↦ rw resting h
  ]

  view_of-handle_input :
      (i : Input) (s : Running api) → view_of (handle_input i s) ≡ follow i (view_of s)
  unfolding handle_input handle_pause handle_continue
  view_of-handle_input (process_event p e) s = view_of-process_event e (arrive p s)
  view_of-handle_input (pause_request p) s =
      view_of-paused (api.stop p).0 (run_process api api.stop (arrive p s)).1 (view_of s) refl
  view_of-handle_input (continue_request p) s =
      view_of-continued (api.resume p).0
        (run_process api api.resume (before_resume api (arrive p s))).1 (view_of s) refl

  -- Whatever comes of events of the process and of requests to pause and to continue, the client, which
  -- goes by the events that it is sent, has the view that `follow` gives for each of them in turn.
  -- An event of a process that runs makes it "running", one of a process that is at rest "stopped"
  -- (but not a stop after which the process has been restarted), and one of an exited or detached
  -- process "ended" if the process then is in such a state; any other event leaves it. A pause or a
  -- continue that succeeds leaves the view. After a pause that liblldb fails it is "stopped" if the
  -- process does not run then, also if it has ended, and as before if it runs; after a continue that
  -- liblldb fails it is "running" if the process runs then, and as before if not.
  pub client_follows :
      (is : List Input) (s : Running api) → view_of (handle_inputs is s) ≡ follow_all is (view_of s)
  unfolding handle_inputs
  client_follows [] s = refl
  client_follows (i ∷ is) s =
      client_follows is (handle_input i s) ∙ ap (follow_all is) (view_of-handle_input i s)
