-- ===== src/Breakpoints/Requests.antt =====
-- `handle_set_breakpoints`, which takes breakpoints in files and in listings apart. An answer has the
-- breakpoint of which `make_bp_response` tells the client (Breakpoints.Responses). The calls of it for
-- the breakpoints of listings, which may register further ranges, stand behind the loop over the
-- requests here, in the same order, with the target as the loop leaves it.
use vscode_lldb.Common.{ℕ, Option, none, some, false, List, [], ◌∷◌, map, ◌⊎◌, inl, inr}
use vscode_lldb.Common.Int.{ℤ}
use vscode_lldb.Common.Map.{Map, nat_eq, Text_eq}
use vscode_lldb.Common.Outcome.{Outcome, ok, err, ◌>>=◌}
use vscode_lldb.Common.Text.{Text, codes}
use vscode_lldb.Disassembly.{DisasmApi, DisassembledRange, AdapterData, Ranges, find_by_handle}
use vscode_lldb.Breakpoints.{BreakpointInfo}
use vscode_lldb.Breakpoints.Exclusions.{Infos}
use vscode_lldb.Breakpoints.Setting.{TargetApi}
use vscode_lldb.Breakpoints.Listings.{
  ℤ_eq, SourceBreakpoint, set_dasm_breakpoints, set_new_dasm_breakpoints,
}
use vscode_lldb.Breakpoints.Responses.{LocationApi, make_bp_response}
use vscode_lldb.Breakpoints.Source.{SourceApi, BreakpointMode, Answer, set_source_breakpoints}

-- all the tables, and the registry of listings
pub record Tables (disasm : DisasmApi) (api : TargetApi) : Type 0 where
  pub source_files : Map Text (Map ℤ ℕ)
  pub assembly : Map ℕ (Map ℤ ℕ)
  pub infos : Infos
  pub target : api.SBTarget
  pub disasm_ranges : Ranges disasm

-- the source in the arguments of `setBreakpoints`; reading its adapter data can fail
pub record SourceArgument : Type 0 where
  pub source_reference : Option ℕ
  pub adapter_data : Option (Text ⊎ AdapterData)
  pub path : Option Text

module _ (disasm : DisasmApi) (api : TargetApi) (files : SourceApi api)
    (locations : LocationApi api) where
  -- the ranges that the responses register
  unfoldable pub register_all :
      List (Option BreakpointInfo) → api.SBTarget → Ranges disasm → Ranges disasm
  register_all [] t ranges = ranges
  register_all (none ∷ infos) t ranges = register_all infos t ranges
  register_all (some info ∷ infos) t ranges =
      register_all infos t (make_bp_response disasm api locations info false t ranges).1

  abbrev register_result :
      Outcome (List BreakpointInfo) → api.SBTarget → Ranges disasm → Ranges disasm
  register_result (ok infos) t ranges = register_all (map some infos) t ranges
  register_result _ t ranges = ranges

  abbrev in_listing :
      DisassembledRange disasm
      → List SourceBreakpoint
      → Tables disasm api
      → Outcome (List Answer) × Tables disasm api
  in_listing dasm reqs s =
      let (result, a) =
        set_dasm_breakpoints disasm api dasm reqs
          (record { assembly = s.assembly; infos = s.infos; target = s.target }) in
      (
        result >>= λ infos. ok (map (λ info. record { info = some info; message = none }) infos),
        record s {
          assembly = a.assembly;
          infos = a.infos;
          target = a.target;
          disasm_ranges = register_result result a.target s.disasm_ranges;
        },
      )

  abbrev in_old_listing :
      AdapterData
      → List SourceBreakpoint
      → Tables disasm api
      → Outcome (List Answer) × Tables disasm api
  in_old_listing data_ reqs s =
      let (infos, tracked, t) = set_new_dasm_breakpoints disasm api data_ reqs s.infos s.target in
      (
        ok (map (λ info. record { info = info; message = none }) infos),
        record s {
          infos = tracked;
          target = t;
          disasm_ranges = register_all infos t s.disasm_ranges;
        },
      )

  abbrev in_file :
      BreakpointMode
      → Text
      → List SourceBreakpoint
      → Tables disasm api
      → Outcome (List Answer) × Tables disasm api
  in_file mode path reqs s =
      let (result, f) =
        set_source_breakpoints api files mode path reqs
          (record { source_files = s.source_files; infos = s.infos; target = s.target }) in
      (result, record s { source_files = f.source_files; infos = f.infos; target = f.target })

  abbrev listing_of : Option ℕ → Tables disasm api → Option (DisassembledRange disasm)
  listing_of none s = none
  listing_of (some handle) s = find_by_handle disasm s.disasm_ranges handle

  abbrev by_kind :
      BreakpointMode
      → Option (DisassembledRange disasm)
      → Option (Text ⊎ AdapterData)
      → Option Text
      → List SourceBreakpoint
      → Tables disasm api
      → Outcome (List Answer) × Tables disasm api
  by_kind mode (some dasm) data_ path reqs s = in_listing dasm reqs s
  by_kind mode none (some (inl e)) path reqs s = (err e, s)
  by_kind mode none (some (inr data_)) path reqs s = in_old_listing data_ reqs s
  by_kind mode none none (some path) reqs s = in_file mode path reqs s
  by_kind mode none none none reqs s = (err (codes "Unexpected"), s)

  unfoldable pub handle_set_breakpoints :
      BreakpointMode
      → SourceArgument
      → List SourceBreakpoint
      → Tables disasm api
      → Outcome (List Answer) × Tables disasm api
  unfolding set_source_breakpoints register_all
  handle_set_breakpoints mode args reqs s =
      by_kind mode (listing_of args.source_reference s) args.adapter_data args.path reqs s
