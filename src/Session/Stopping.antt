-- ===== src/Session/Stopping.antt =====
-- Which thread a stop is reported for.
use vscode_lldb.Common.{
  ℕ, ◌≡◌, refl, ap, ◌∙◌, Bool, true, false, Option, none, some, List, [], ◌∷◌, ◌++◌, if◌then◌else◌,
  Bool-cases, inl, inr, All,
}
use vscode_lldb.Session.Running.{
  ProcessApi, stopped, Running, is_valid_reason, find_stopped, select, choose_thread, report,
  report_description, stopped_body, notify_process_stopped,
}

module _ (api : ProcessApi) where
  abbrev pub has_stopped : api.SBThread → Bool
  has_stopped t = is_valid_reason (api.stop_reason t)

  find_stopped-has_stopped :
      (ts : List api.SBThread) (t : api.SBThread)
      → find_stopped api ts ≡ some t
      → has_stopped t ≡ true
  unfolding find_stopped
  find_stopped-has_stopped [] t h = cc h
  find_stopped-has_stopped (u ∷ ts) t h = elim (Bool-cases (has_stopped u)) [
    | inl yes' ↦ cc (rw yes' at h, yes')
    | inr no' ↦ find_stopped-has_stopped ts t (rw no' at h)
  ]

  none_stopped :
      (ts : List api.SBThread) (b : Bool)
      → find_stopped api ts ≡ none
      → All (λ w. has_stopped w ≡ true → b ≡ true) ts
  unfolding find_stopped
  none_stopped [] b h = tt
  none_stopped (u ∷ ts) b h = elim (Bool-cases (has_stopped u)) [
    | inl yes' ↦ cc (rw yes' at h)
    | inr no' ↦ (λ v. absurd (cc (v, no')), none_stopped ts b (rw no' at h))
  ]

  always :
      (ts : List api.SBThread) (b : Bool) → b ≡ true → All (λ w. has_stopped w ≡ true → b ≡ true) ts
  always [] b h = tt
  always (t ∷ ts) b h = (λ v. h, always ts b h)

  -- liblldb selects the thread that it is told to
  abbrev pub SelectsThreads : Type 0
  SelectsThreads =
      (t : api.SBThread) (p : api.SBProcess) → api.selected_thread (api.set_selected_thread t p) ≡ t

  -- one `stopped` event, behind the description if there is one, for the thread that is then selected
  abbrev pub ReportsSelected : Running api → Running api → Type 0
  ReportsSelected s u =
      (t : api.SBThread) × (api.selected_thread u.process ≡ t)
      × (u.events
          ≡ (report_description api (stopped_body api t).description s).events
            ++ stopped (stopped_body api t) ∷ [])
      × All (λ w. has_stopped w ≡ true → has_stopped t ≡ true)
          (api.selected_thread s.process ∷ api.threads s.process)
      × (has_stopped (api.selected_thread s.process) ≡ true → u.process ≡ s.process)

  events-description :
      (d : Option (List ℕ)) (s : Running api) (p : api.SBProcess)
      → ((report_description api d (record s { process = p })).events
          ≡ (report_description api d s).events)
        × ((report_description api d (record s { process = p })).process ≡ p)
  events-description none s p = (refl, refl)
  events-description (some d) s p = (refl, refl)

  reported_unmoved :
      (s : Running api)
      → All
          (λ w. has_stopped w ≡ true → has_stopped (api.selected_thread s.process) ≡ true)
          (api.threads s.process)
      → ReportsSelected s (report api (api.selected_thread s.process) s)
  reported_unmoved s all =
      let t = api.selected_thread s.process in
      let same = (events-description (stopped_body api t).description s s.process).1 in
      (t, ap api.selected_thread same, refl, (λ v. v, all), λ v. same)

  chosen :
      (s : Running api) (o : Option api.SBThread)
      → SelectsThreads
      → has_stopped (api.selected_thread s.process) ≡ false
      → find_stopped api (api.threads s.process) ≡ o
      → let (t, s') = select api (api.selected_thread s.process) o s in
        ReportsSelected s (report api t s')
  chosen s none law stays h =
      reported_unmoved s
        (none_stopped (api.threads s.process) (has_stopped (api.selected_thread s.process)) h)
  chosen s (some t) law stays h =
      let valid = find_stopped-has_stopped (api.threads s.process) t h in
      let (events, moved) =
        events-description (stopped_body api t).description s
          (api.set_selected_thread t s.process) in
      (
        t,
        ap api.selected_thread moved ∙ law t s.process,
        ap (λ es. es ++ stopped (stopped_body api t) ∷ []) events,
        (λ v. valid, always (api.threads s.process) (has_stopped t) valid),
        λ v. absurd (cc (v, stays)),
      )

  by_selected :
      (s : Running api) (b : Bool)
      → SelectsThreads
      → has_stopped (api.selected_thread s.process) ≡ b
      → let sel = api.selected_thread s.process in
        let (t, s') =
          if b then (sel, s) else select api sel (find_stopped api (api.threads s.process)) s in
        ReportsSelected s (report api t s')
  by_selected s true law h =
      reported_unmoved s
        (always (api.threads s.process) (has_stopped (api.selected_thread s.process)) h)
  by_selected s false law h = chosen s (find_stopped api (api.threads s.process)) law h refl

  -- A stop is reported for the thread that is then the selected one of the process: one that stopped
  -- for a reason, if the selected or any other thread did. A selected thread that stopped for a reason
  -- stays selected. The description, where there is one, is sent first, and nothing else is sent.
  pub notify_process_stopped_lem :
      (s : Running api) → SelectsThreads → ReportsSelected s (notify_process_stopped api s)
  unfolding notify_process_stopped choose_thread
  notify_process_stopped_lem s law =
      by_selected s (has_stopped (api.selected_thread s.process)) law refl
