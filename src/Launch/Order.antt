-- ===== src/Launch/Order.antt =====
-- What the session asks of liblldb and of the event listener at the end of a debuggee, and in which
-- order.
use vscode_lldb.Common.{
  Bool, true, false, ◌&&◌, Option, none, some, List, [], ◌∷◌, ◌++◌, ◌≡◌, refl, sym, ap, ◌∙◌, subst,
  append_assoc, append-nil, if◌then◌else◌, Bool-cases, inl, inr,
}
use vscode_lldb.Common.Text.{Text, codes}
use vscode_lldb.Launch.{
  Call, command, set_async_mode, kill_process, detach_process, cork_events, uncork_events,
  LaunchApi, LaunchState, call, say, say_some, exec_each, exec_commands,
}
use vscode_lldb.Launch.Ending.{
  Done, set_corked, drop_terminal, log_script, unwrap_or, terminate_debuggee, on_success,
  handle_disconnect, handle_restart,
}

-- From one state to another by these calls, all else but the console as it was.
record Runs (cs : List Call) (s t : LaunchState) : Type 0 where
  calls_eq : t.calls ≡ s.calls ++ cs
  terminate_eq : t.terminate_on_disconnect ≡ s.terminate_on_disconnect
  exit_eq : t.exit_commands ≡ s.exit_commands
  corked_eq : t.corked ≡ s.corked

Runs-refl : (s : LaunchState) → Runs [] s s
Runs-refl s = record {
  calls_eq = sym (append-nil s.calls);
  terminate_eq = refl;
  exit_eq = refl;
  corked_eq = refl;
}

Runs-call : (c : Call) (s : LaunchState) → Runs (c ∷ []) s (call c s)
Runs-call c s = record { calls_eq = refl; terminate_eq = refl; exit_eq = refl; corked_eq = refl }

Runs-say : (m : Text) (s : LaunchState) → Runs [] s (say m s)
Runs-say m s = record {
  calls_eq = sym (append-nil s.calls);
  terminate_eq = refl;
  exit_eq = refl;
  corked_eq = refl;
}

Runs-say_some : (m : Text) (s : LaunchState) → Runs [] s (say_some m s)
Runs-say_some [] s = Runs-refl s
Runs-say_some (c ∷ m) s = Runs-say (c ∷ m) s

Runs-trans :
    {xs ys : List Call} {s t u : LaunchState} → Runs xs s t → Runs ys t u → Runs (xs ++ ys) s u
Runs-trans {xs} {ys} {s} p q = record {
  calls_eq = q.calls_eq ∙ ap (λ h. h ++ ys) p.calls_eq ∙ append_assoc s.calls xs ys;
  terminate_eq = q.terminate_eq ∙ p.terminate_eq;
  exit_eq = q.exit_eq ∙ p.exit_eq;
  corked_eq = q.corked_eq ∙ p.corked_eq;
}

Runs-eq : {xs ys : List Call} {s t : LaunchState} → xs ≡ ys → Runs xs s t → Runs ys s t
Runs-eq {s} {t} e r = subst (λ cs. Runs cs s t) e r

module _ (api : LaunchApi) where
  -- the calls of a script behind these calls: its commands up to the first that fails, and the mode
  abbrev pub commands_run : List Call → List Text → List Call
  commands_run h [] = []
  commands_run h (c ∷ cs) =
      let rest = commands_run (h ++ command c ∷ []) cs in
      command c ∷ (if (api.handle_command h c).succeeded then rest else [])

  abbrev pub script : List Call → Option (List Text) → List Call
  script h none = []
  script h (some cs) = commands_run h cs ++ set_async_mode ∷ []

  -- how the debuggee ends, if it is there and alive
  abbrev pub ending : List Call → Bool → List Call
  ending h terminate =
      if api.is_valid h && api.is_alive h
      then (if terminate then kill_process else detach_process) ∷ []
      else []

  abbrev pub ending_error : List Call → Bool → Option Text
  ending_error h terminate =
      if api.is_valid h && api.is_alive h
      then (if terminate then api.kill_error h else api.detach_error h)
      else none

  exec_each-Runs :
      (cs : List Text) (s : LaunchState) → Runs (commands_run s.calls cs) s (exec_each api cs s).1
  exec_each-Runs [] s = Runs-refl s
  exec_each-Runs (c ∷ cs) s =
      let r = api.handle_command s.calls c in
      let s' = say_some r.output (call (command c) s) in
      let first : Runs (command c ∷ []) s s' =
        Runs-trans (Runs-call (command c) s) (Runs-say_some r.output (call (command c) s)) in
      let rest = exec_each-Runs cs s' in
      elim (Bool-cases r.succeeded) [
        | inl succeeded ↦ rw succeeded (
            Runs-eq (ap (λ h. command c ∷ commands_run h cs) first.calls_eq)
              (Runs-trans first rest))
        | inr failed ↦ rw failed (Runs-trans first (Runs-say r.error s'))
      ]

  exec_commands-Runs :
      (name : Text) (cs : List Text) (s : LaunchState)
      → Runs (script s.calls (some cs)) s (exec_commands api name cs s).1
  unfolding exec_commands
  exec_commands-Runs name cs s =
      let said = say (codes "Executing script: " ++ name) s in
      let ran = exec_each-Runs cs said in
      Runs-trans (Runs-trans (Runs-say (codes "Executing script: " ++ name) s) ran)
        (Runs-call set_async_mode (exec_each api cs said).1)

  log_script-Runs :
      (name : Text) (cs : Option (List Text)) (s : LaunchState)
      → Runs (script s.calls cs) s (log_script api name cs s)
  log_script-Runs name none s = Runs-refl s
  log_script-Runs name (some cs) s = exec_commands-Runs name cs s

  terminate_debuggee-Runs :
      (force : Option Bool) (s : LaunchState)
      → let terminate = unwrap_or api s.terminate_on_disconnect force in
        ((terminate_debuggee api force s).0 ≡ ending_error s.calls terminate)
        × Runs (ending s.calls terminate) s (terminate_debuggee api force s).1
  unfolding terminate_debuggee
  terminate_debuggee-Runs force s =
      elim (Bool-cases (api.is_valid s.calls && api.is_alive s.calls)) [
        | inl there ↦ elim (Bool-cases (unwrap_or api s.terminate_on_disconnect force)) [
          | inl kill ↦ rw (there, kill) (refl, Runs-call kill_process s)
          | inr detach ↦ rw (there, detach) (refl, Runs-call detach_process s)
        ]
        | inr gone ↦ rw gone (refl, Runs-refl s)
      ]

  -- the exit commands, if the debuggee has ended without an error
  abbrev pub exit_script : Option Text → List Call → Option (List Text) → List Call
  exit_script none h exit = script h exit
  exit_script (some e) h exit = []

  exited :
      (d : Done)
      → let done =
          on_success api (λ t. (none, log_script api (codes "exitCommands") t.exit_commands t)) d in
        (done.0 ≡ d.0) × (done.1.calls ≡ d.1.calls ++ exit_script d.0 d.1.calls d.1.exit_commands)
  exited (none, t) = (refl, (log_script-Runs (codes "exitCommands") t.exit_commands t).calls_eq)
  exited (some m, t) = (refl, sym (append-nil t.calls))

  exit_script-eq :
      {a b : Option Text} {g h : List Call} {x y : Option (List Text)}
      → a ≡ b
      → g ≡ h
      → x ≡ y
      → g ++ exit_script a g x ≡ h ++ exit_script b h y
  exit_script-eq p q r = rw (p, q, r) refl

  -- A disconnect asks for the commands before termination, up to the first that fails, and whether
  -- they succeed or not; then for the end of the debuggee if it is there and alive: for its death or
  -- for leaving it alone, as the client asks or else as it was started. The commands at the exit
  -- follow only if that succeeds; its error is that of the request.
  pub handle_disconnect_lem :
      (force : Option Bool) (s : LaunchState)
      → let terminate = unwrap_or api s.terminate_on_disconnect force in
        let h = s.calls ++ script s.calls s.pre_terminate_commands in
        let error = ending_error h terminate in
        let h' = h ++ ending h terminate in
        ((handle_disconnect api force s).0 ≡ error)
        × ((handle_disconnect api force s).1.calls ≡ h' ++ exit_script error h' s.exit_commands)
  unfolding handle_disconnect
  handle_disconnect_lem force s =
      let before = log_script-Runs (codes "preTerminateCommands") s.pre_terminate_commands s in
      let s' =
        drop_terminal (log_script api (codes "preTerminateCommands") s.pre_terminate_commands s) in
      let ends = terminate_debuggee-Runs force s' in
      let d = terminate_debuggee api force s' in
      let done = exited d in
      let as_asked : unwrap_or api s'.terminate_on_disconnect force
          ≡ unwrap_or api s.terminate_on_disconnect force =
        ap (λ b. unwrap_or api b force) before.terminate_eq in
      let error : d.0
          ≡ ending_error (s.calls ++ script s.calls s.pre_terminate_commands)
              (unwrap_or api s.terminate_on_disconnect force) =
        ends.0 ∙ rw (as_asked, before.calls_eq) refl in
      let calls : d.1.calls
          ≡ (s.calls ++ script s.calls s.pre_terminate_commands)
            ++ ending (s.calls ++ script s.calls s.pre_terminate_commands)
                (unwrap_or api s.terminate_on_disconnect force) =
        ends.1.calls_eq ∙ rw (as_asked, before.calls_eq) refl in
      (done.0 ∙ error, done.1 ∙ exit_script-eq error calls (ends.1.exit_eq ∙ before.exit_eq))

  -- how a restart goes on
  abbrev pub Restarted :
      (LaunchState → Done) → LaunchState → List Call → Done → Option Text → Type 0
  Restarted complete s h done none =
      (t : LaunchState) × (done ≡ complete t)
      × (t.calls ≡ (h ++ ending h s.terminate_on_disconnect) ++ uncork_events ∷ [])
      × (t.corked ≡ false)
  Restarted complete s h done (some e) =
      (done.0 ≡ some e)
      × (done.1.calls ≡ h ++ ending h s.terminate_on_disconnect)
      × (done.1.corked ≡ true)

  restarted :
      (complete : LaunchState → Done) (s : LaunchState) (h : List Call) (d : Done)
      (error : Option Text)
      → d.0 ≡ error
      → d.1.calls ≡ h ++ ending h s.terminate_on_disconnect
      → d.1.corked ≡ true
      → Restarted complete s h (on_success api (λ t. complete (set_corked false t)) d) error
  restarted complete s h (none, t) none e calls corked =
      (set_corked false t, refl, ap (λ cs. cs ++ uncork_events ∷ []) calls, refl)
  restarted complete s h (none, t) (some m) e calls corked = cc
  restarted complete s h (some m, t) none e calls corked = cc
  restarted complete s h (some m, t) (some m') e calls corked = (e, calls, corked)

  -- A restart runs the commands before termination, up to the first that fails, then corks the
  -- listener, and only then asks for the end of the debuggee, if it is there and alive: for its
  -- death or for leaving it alone, as it was started. If that succeeds, the next call uncorks the
  -- listener, and the restart goes on with the launch or the attach, the listener uncorked. If it
  -- fails, its error is that of the request, no call follows, and the listener stays corked.
  pub handle_restart_lem :
      (complete : LaunchState → Done) (s : LaunchState)
      → let h = (s.calls ++ script s.calls s.pre_terminate_commands) ++ cork_events ∷ [] in
        Restarted complete s h
          (handle_restart api complete s)
          (ending_error h s.terminate_on_disconnect)
  unfolding handle_restart
  handle_restart_lem complete s =
      let before = log_script-Runs (codes "preTerminateCommands") s.pre_terminate_commands s in
      let s' =
        set_corked true
          (log_script api (codes "preTerminateCommands") s.pre_terminate_commands s) in
      let ends = terminate_debuggee-Runs none s' in
      let h = (s.calls ++ script s.calls s.pre_terminate_commands) ++ cork_events ∷ [] in
      restarted complete s h (terminate_debuggee api none s')
        (ending_error h s.terminate_on_disconnect)
        (ends.0 ∙ rw (before.terminate_eq, before.calls_eq) refl)
        (ends.1.calls_eq ∙ rw (before.terminate_eq, before.calls_eq) refl) ends.1.corked_eq
