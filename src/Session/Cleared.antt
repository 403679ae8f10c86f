-- ===== src/Session/Cleared.antt =====
-- What a request that resumes the process leaves of what the client knew of it.
use vscode_lldb.Common.{
  ◌+◌, ◌≡◌, refl, Bool, true, false, Option, none, some, [], if◌then◌else◌, Bool-cases, inl, inr,
  ◌⊎◌,
}
use vscode_lldb.Common.Int.{ℤ, as_u64}
use vscode_lldb.Common.Outcome.{Outcome, ok, err}
use vscode_lldb.Common.Text.{Text}
use vscode_lldb.Session.Sources.{FileApi}
use vscode_lldb.Session.Running.{
  ProcessApi, Running, is_valid_reason, find_stopped, select, choose_thread, stopped_body,
  report_description, notify_process_stopped, is_running,
}
use vscode_lldb.Session.Resuming.{
  SteppingGranularity, by_statement, by_line, by_instruction, before_resume, run_process,
  steps_instruction, step_over_by, step_into_by, target_of, or_step_error, on_thread,
  or_thread_error, valid_thread, thread_by_id, continued_or, handle_continue, handle_next,
  handle_step_out, handle_step_in,
}

pub data ResumeRequest : Type 0 where
  continue_request : ResumeRequest
  next_request : ℤ → Option SteppingGranularity → ResumeRequest
  step_out_request : ℤ → ResumeRequest
  -- the thread, and the target, if any
  step_in_request : ℤ → Option ℤ → Option SteppingGranularity → ResumeRequest

module _ (api : ProcessApi) (files : FileApi) where
  unfoldable pub handle_resume : ResumeRequest → Running api → Outcome (Unit {0}) × Running api
  unfolding handle_continue handle_next handle_step_out handle_step_in
  handle_resume continue_request s = handle_continue api s
  handle_resume (next_request id granularity) s = handle_next api files id granularity s
  handle_resume (step_out_request id) s = handle_step_out api id s
  handle_resume (step_in_request id target granularity) s =
      handle_step_in api files id target granularity s

  abbrev pub IsCleared : Running api → Running api → Type 0
  IsCleared s u =
      (u.var_refs_resets ≡ s.var_refs_resets + 1)
      × (u.selected_frame_changed ≡ false)
      × (u.last_goto_request ≡ none)
      × (u.step_in_targets ≡ [])

  abbrev IsRefused : Running api → Outcome (Unit {0}) × Running api → Type 0
  IsRefused s r = ((e : Text) × (r.0 ≡ err e)) × (r.1 ≡ s)

  continue-IsCleared :
      (o : Option Text) (s u : Running api)
      → IsCleared s u
      → IsCleared s (continued_or api (o, u)).1
  continue-IsCleared none s u c = c
  continue-IsCleared (some e) s u c = elim (Bool-cases (is_running (api.state u.process))) [
    | inl running ↦ rw running c
    | inr resting ↦ rw resting c
  ]

  step-IsCleared :
      (o : Option Text) (s u : Running api)
      → IsCleared s u
      → IsCleared s (or_step_error api (o, u)).1
  step-IsCleared none s u c = c
  step-IsCleared (some e) s u c = c

  granularity-IsCleared :
      (g : Option SteppingGranularity) (t : api.SBThread) (s u : Running api)
      → IsCleared s u
      → IsCleared s (steps_instruction api files g t u).1
  granularity-IsCleared none t s u c = c
  granularity-IsCleared (some by_instruction) t s u c = c
  granularity-IsCleared (some by_line) t s u c = c
  granularity-IsCleared (some by_statement) t s u c = c

  over-IsCleared :
      (b : Bool) (t : api.SBThread) (s u : Running api)
      → IsCleared s u
      → IsCleared s (step_over_by api t (b, u)).1
  over-IsCleared true t s u c = step-IsCleared (api.step_instruction true t u.process).0 s _ c
  over-IsCleared false t s u c = step-IsCleared (api.step_over t u.process).0 s _ c

  described-IsCleared :
      (d : Option Text) (s u : Running api)
      → IsCleared s u
      → IsCleared s (report_description api d u)
  described-IsCleared none s u c = c
  described-IsCleared (some d) s u c = c

  select-IsCleared :
      (o : Option api.SBThread) (t : api.SBThread) (s u : Running api)
      → IsCleared s u
      → IsCleared s (select api t o u).1
  select-IsCleared none t s u c = c
  select-IsCleared (some w) t s u c = c

  choice-IsCleared :
      (b : Bool) (o : Option api.SBThread) (t : api.SBThread) (s u : Running api)
      → IsCleared s u
      → IsCleared s (if b then (t, u) else select api t o u).1
  choice-IsCleared true o t s u c = c
  choice-IsCleared false o t s u c = select-IsCleared o t s u c

  notify-IsCleared :
      (s u : Running api) → IsCleared s u → IsCleared s (notify_process_stopped api u)
  unfolding notify_process_stopped choose_thread
  notify-IsCleared s u c =
      let (t, u') = choose_thread api u in
      described-IsCleared (stopped_body api t).description s u' (
        choice-IsCleared (is_valid_reason (api.stop_reason (api.selected_thread u.process)))
          (find_stopped api (api.threads u.process)) (api.selected_thread u.process) s u c)

  into-IsCleared :
      (b : Bool) (target : Option api.StepInTarget) (t : api.SBThread) (s u : Running api)
      → IsCleared s u
      → IsCleared s (step_into_by api t target (b, u)).1
  into-IsCleared true none t s u c = step-IsCleared (api.step_instruction false t u.process).0 s _ c
  into-IsCleared true (some target) t s u c =
      step-IsCleared (api.step_instruction false t u.process).0 s _ c
  into-IsCleared false none t s u c = step-IsCleared (api.step_into t u.process).0 s _ c
  into-IsCleared false (some target) t s u c =
      notify-IsCleared s (record u { process = api.step_into_target target t u.process }) c

  -- A request on a thread that there is clears; one on a thread that there is not changes nothing.
  on_thread-IsCleared :
      (o : Outcome api.SBThread) (f : api.SBThread → Outcome (Unit {0}) × Running api)
      (s : Running api)
      → ((t : api.SBThread) × (o ≡ ok t)) ⊎ ((e : Text) × (o ≡ err e))
      → ((t : api.SBThread) → IsCleared s (f t).1)
      → IsCleared s (on_thread api o f s).1 ⊎ IsRefused s (on_thread api o f s)
  on_thread-IsCleared o f s (inl (t, h)) c = rw h (inl (c t))
  on_thread-IsCleared o f s (inr (e, h)) c = rw h (inr ((e, refl), refl))

  thread_error :
      (s : Running api) (o : Option api.SBThread)
      → ((t : api.SBThread) × (or_thread_error api s o ≡ ok t))
        ⊎ ((e : Text) × (or_thread_error api s o ≡ err e))
  thread_error s (some t) = inl (t, refl)
  thread_error s none = elim (Bool-cases (is_running (api.state s.process))) [
    | inl running ↦ rw running (inr (_, refl))
    | inr resting ↦ rw resting (inr (_, refl))
  ]

  valid_error :
      (o : Option api.SBThread)
      → ((t : api.SBThread) × (valid_thread api o ≡ ok t))
        ⊎ ((e : Text) × (valid_thread api o ≡ err e))
  valid_error none = inr (_, refl)
  valid_error (some t) = inl (t, refl)

  out-IsCleared :
      (s u : Running api) (o : Outcome api.SBThread)
      → IsCleared s u
      → ((t : api.SBThread) × (o ≡ ok t)) ⊎ ((e : Text) × (o ≡ err e))
      → IsCleared s
          (on_thread api o (λ t. or_step_error api (run_process api (api.step_out t) u)) u).1
  out-IsCleared s u o c (inl (t, h)) = rw h (step-IsCleared (api.step_out t u.process).0 s _ c)
  out-IsCleared s u o c (inr (e, h)) = rw h c

  -- A request that resumes the process (`continue`, `next`, `stepIn`, `stepOut`), whatever becomes of
  -- it, drops the handles of variables, the choice of a frame, the last `gotoTargets` and the step-in
  -- targets, which are about the process as it was; or it is refused and changes nothing at all.
  pub handle_resume-IsCleared :
      (r : ResumeRequest) (s : Running api)
      → IsCleared s (handle_resume r s).1
        ⊎ (((e : Text) × ((handle_resume r s).0 ≡ err e)) × ((handle_resume r s).1 ≡ s))
  unfolding handle_resume handle_continue handle_next handle_step_out handle_step_in thread_by_id
  handle_resume-IsCleared continue_request s = inl (
      continue-IsCleared (api.resume s.process).0 s
        (run_process api api.resume (before_resume api s)).1 (refl, refl, refl, refl))
  handle_resume-IsCleared (next_request id g) s =
      on_thread-IsCleared (thread_by_id api id s) _ s
        (thread_error s (api.thread_by_id (as_u64 id) s.process))
        (λ t.
          let (b, u) = steps_instruction api files g t (before_resume api s) in
          over-IsCleared b t s u
            (granularity-IsCleared g t s (before_resume api s) (refl, refl, refl, refl)))
  handle_resume-IsCleared (step_out_request id) s = inl (
      out-IsCleared s (before_resume api s) (thread_by_id api id (before_resume api s))
        (refl, refl, refl, refl)
        (thread_error (before_resume api s) (api.thread_by_id (as_u64 id) s.process)))
  handle_resume-IsCleared (step_in_request id target g) s =
      on_thread-IsCleared (valid_thread api (api.thread_by_id (as_u64 id) s.process)) _ s
        (valid_error (api.thread_by_id (as_u64 id) s.process))
        (λ t.
          let (b, u) = steps_instruction api files g t (before_resume api s) in
          into-IsCleared b (target_of api target s.step_in_targets) t s u
            (granularity-IsCleared g t s (before_resume api s) (refl, refl, refl, refl)))
