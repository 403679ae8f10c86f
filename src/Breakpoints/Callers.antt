-- ===== src/Breakpoints/Callers.antt =====
-- `handle_exclude_caller`: a caller at which a breakpoint does not stop from now on. The process, its
-- selected thread and its frames are the parameter `CallerApi`.
use vscode_lldb.Common.{
  ℕ, ◌≡◌, refl, true, Option, none, some, [], ◌∷◌, ◌++◌, ◌==◌, ==_iff, if◌then◌else◌,
}
use vscode_lldb.Common.Map.{get, insert, get-insert, nat_eq}
use vscode_lldb.Common.Outcome.{Outcome, ok, err, panic}
use vscode_lldb.Common.Text.{Text, codes, decimal, text_eq_iff}
use vscode_lldb.Breakpoints.{
  BreakpointInfo, BreakpointKind, source, disassembly, instruction, function, exception,
}
use vscode_lldb.Breakpoints.Exclusions.{
  Infos, SiteId, breakpoint, filter, ExcludedCaller, push_exclusion, applies,
}

pub record CallerApi : Type 1 where
  pub SBProcess : Type 0
  -- the breakpoint at which the selected thread has stopped, if it has stopped at one
  pub stopped_at : SBProcess → Option ℕ
  -- the name of the symbol of a frame, by the thread's identifier and the frame's index
  pub symbol_from_frame : ℕ → ℕ → SBProcess → Option Text
  -- the file's name and the line of the line entry of a breakpoint's first location
  pub location_line : ℕ → SBProcess → Option (Text × ℕ)
  -- the label of an exception filter
  pub filter_label : Text → Option Text

module _ (api : CallerApi) where
  abbrev line_label : Option (Text × ℕ) → Text
  line_label none = []
  line_label (some (file, line)) = file ++ (codes ":" ++ decimal line)

  -- `filter.unwrap()`
  abbrev exception_site : Text → Option Text → Outcome (SiteId × Text)
  exception_site name none = panic
  exception_site name (some label) = ok (filter name, label)

  abbrev site_of : ℕ → BreakpointKind → api.SBProcess → Outcome (SiteId × Text)
  site_of id (exception name) p = exception_site name (api.filter_label name)
  site_of id _ p = ok (breakpoint id, line_label (api.location_line id p))

  abbrev no_symbol : Outcome (ExcludedCaller × Text)
  no_symbol = err (codes "Could not locate symbol for this stack frame.")

  abbrev respond_excluded : Text → Outcome (SiteId × Text) → Outcome (ExcludedCaller × Text)
  respond_excluded symbol (ok (site, label)) =
      ok (record { site_id = site; symbol = symbol }, label)
  respond_excluded symbol _ = panic

  abbrev exclude_at :
      ℕ
      → Text
      → Option BreakpointInfo
      → Infos
      → api.SBProcess
      → Outcome (ExcludedCaller × Text) × Infos
  exclude_at id symbol none infos p = (no_symbol, infos)
  exclude_at id symbol (some info) infos p = (
    respond_excluded symbol (site_of id info.kind p),
    insert id (push_exclusion symbol info) infos,
  )

  abbrev exclude_symbol :
      ℕ → Option Text → Infos → api.SBProcess → Outcome (ExcludedCaller × Text) × Infos
  exclude_symbol id none infos p = (no_symbol, infos)
  exclude_symbol id (some symbol) infos p = exclude_at id symbol (get id infos) infos p

  abbrev exclude_stopped :
      Option ℕ → ℕ → ℕ → Infos → api.SBProcess → Outcome (ExcludedCaller × Text) × Infos
  exclude_stopped none thread_id frame_index infos p =
      (err (codes "Must be stopped on a breakpoint."), infos)
  exclude_stopped (some id) thread_id frame_index infos p =
      exclude_symbol id (api.symbol_from_frame thread_id frame_index p) infos p

  unfoldable pub handle_exclude_caller :
      ℕ → ℕ → Infos → api.SBProcess → Outcome (ExcludedCaller × Text) × Infos
  handle_exclude_caller thread_id frame_index infos p =
      exclude_stopped (api.stopped_at p) thread_id frame_index infos p

  Stands : ℕ → Text → BreakpointKind → Outcome (ExcludedCaller × Text) → Type 0
  Stands id symbol kind answer =
      (exclusion : ExcludedCaller) × (label : Text) × (answer ≡ ok (exclusion, label))
      × (exclusion.symbol ≡ symbol)
      × (applies exclusion.site_id id kind ≡ true)

  by_number :
      (id : ℕ) (symbol label : Text) (kind : BreakpointKind)
      → Stands id symbol kind (respond_excluded symbol (ok (breakpoint id, label)))
  unfolding Stands
  by_number id symbol label kind = (
    record { site_id = breakpoint id; symbol = symbol },
    label,
    refl,
    refl,
    (==_iff id id).1 refl,
  )

  answered :
      (id : ℕ) (symbol : Text) (kind : BreakpointKind) (p : api.SBProcess)
      → ((name : Text)
          → kind ≡ exception name
          → (label : Text) × (api.filter_label name ≡ some label))
      → Stands id symbol kind (respond_excluded symbol (site_of id kind p))
  unfolding Stands
  answered id symbol source p known =
      by_number id symbol (line_label (api.location_line id p)) source
  answered id symbol disassembly p known =
      by_number id symbol (line_label (api.location_line id p)) disassembly
  answered id symbol instruction p known =
      by_number id symbol (line_label (api.location_line id p)) instruction
  answered id symbol function p known =
      by_number id symbol (line_label (api.location_line id p)) function
  answered id symbol (exception name) p known =
      let (label, found) = known name refl in
      (
        record { site_id = filter name; symbol = symbol },
        label,
        rw found refl,
        refl,
        (text_eq_iff name name).1 refl,
      )

  -- If the selected thread has stopped at a tracked breakpoint, whose exception filter, if it has one,
  -- is a known one, and the frame has a symbol, the symbol is added to the breakpoint's exclusions
  -- behind the earlier ones, no other breakpoint changes, and the exclusion in the response stands
  -- for that symbol and, in this session, for that breakpoint, by its number or its exception filter.
  pub handle_exclude_caller_lem :
      (thread_id frame_index id : ℕ) (symbol : Text) (info : BreakpointInfo) (infos : Infos)
      (p : api.SBProcess)
      → api.stopped_at p ≡ some id
      → api.symbol_from_frame thread_id frame_index p ≡ some symbol
      → get id infos ≡ some info
      → ((name : Text)
          → info.kind ≡ exception name
          → (label : Text) × (api.filter_label name ≡ some label))
      → (exclusion : ExcludedCaller) × (label : Text) × ((handle_exclude_caller thread_id
            frame_index infos p).0
          ≡ ok (exclusion, label))
        × (exclusion.symbol ≡ symbol)
        × (applies exclusion.site_id id info.kind ≡ true)
        × ((k : ℕ)
            → get k (handle_exclude_caller thread_id frame_index infos p).1 ≡ (
                if k == id
                then some (record info { exclusions = info.exclusions ++ symbol ∷ [] })
                else get k infos))
  unfolding handle_exclude_caller Stands
  handle_exclude_caller_lem thread_id frame_index id symbol info infos p stopped named tracked
        known =
      let (exclusion, label, answer, same, applied) = answered id symbol info.kind p known in
      (
        exclusion,
        label,
        rw (stopped, named, tracked) answer,
        same,
        applied,
        rw (stopped, named, tracked) (λ k. get-insert k id (push_exclusion symbol info) infos),
      )
