-- ===== src/Breakpoints/Source.antt =====
-- `set_source_breakpoints`: breakpoints in the lines of source files.
-- What a breakpoint has been resolved to, and paths, are the parameter `SourceApi`.
use vscode_lldb.Common.{
  ℕ, suc, ◌%◌, ◌^◌, Bool, true, false, ◌&&◌, Option, none, some, List, [], ◌∷◌, ◌++◌, if◌then◌else◌,
  ltb, ◌==◌,
}
use mathlib.Core.Option
use vscode_lldb.Common.Int.{ℤ, pos, negsuc, as_u64}
use vscode_lldb.Common.Map.{Map, get, insert, remove, contains_key, nat_eq, Text_eq}
use vscode_lldb.Common.Outcome.{Outcome, ok, err, panic, out_of_fuel, ◌>>=◌, or_err}
use vscode_lldb.Common.Text.{Text, codes, text_eq, decimal}
use vscode_lldb.Breakpoints.{BreakpointInfo, source}
use vscode_lldb.Breakpoints.Exclusions.{Infos}
use vscode_lldb.Breakpoints.Setting.{
  TargetApi, by_source_line, Request, Working, Bound, usable, set_one, delete_stale,
}
use vscode_lldb.Breakpoints.Listings.{ℤ_eq, SourceBreakpoint}

pub record SourceApi (api : TargetApi) : Type 0 where
  pub normalize_path : Text → Text
  pub file_name : Text → Option Text
  pub components : Text → List Text
  pub num_locations : ℕ → api.SBTarget → ℕ
  -- the line and the path of the line entry of each location that has one
  pub line_entries : ℕ → api.SBTarget → List (ℕ × Text)

pub data BreakpointMode : Type 0 where
  path_mode file_mode : BreakpointMode

-- A breakpoint of the response, and its message if it is not the usual one; that message has been
-- sent to the console too.
pub record Answer : Type 0 where
  pub info : Option BreakpointInfo
  pub message : Option Text

-- the tables of all files
pub record SourceTables (api : TargetApi) : Type 0 where
  pub source_files : Map Text (Map ℤ ℕ)
  pub infos : Infos
  pub target : api.SBTarget

-- how many components two paths share, from the end
unfoldable pub common_length : List Text → List Text → ℕ
common_length [] ys = 0
common_length (x ∷ xs) [] = 0
common_length (x ∷ xs) (y ∷ ys) = let n = common_length xs ys in if text_eq x y then suc n else 0

unfoldable pub reverse_onto : List Text → List Text → List Text
reverse_onto [] ys = ys
reverse_onto (x ∷ xs) ys = reverse_onto xs (x ∷ ys)

-- `as u32`
abbrev pub u32_of : ℤ → ℕ
u32_of i = as_u64 i % 2 ^ 32

-- a stale breakpoint is no longer tracked
unfoldable pub remove_stale : Map ℤ ℕ → Map ℤ ℕ → Infos → Infos
remove_stale [] new_bps infos = infos
remove_stale ((line, id) ∷ existing) new_bps infos =
    remove_stale existing new_bps (if contains_key line new_bps then infos else remove id infos)

abbrev pub is_path_mode : BreakpointMode → Bool
is_path_mode path_mode = true
is_path_mode file_mode = false

abbrev pub or_empty : Option (Map ℤ ℕ) → Map ℤ ℕ
or_empty none = []
or_empty (some bps) = bps

module _ (api : TargetApi) (files : SourceApi api) where
  abbrev pub suffix_length : Text → Text → ℕ
  suffix_length a b =
      common_length (reverse_onto (files.components a) []) (reverse_onto (files.components b) [])

  -- the path of an entry on the line that shares most with the file's, if any shares something
  unfoldable pub best_path : Text → ℕ → List (ℕ × Text) → ℕ → Option Text → Option Text
  unfolding common_length reverse_onto
  best_path filepath line [] best_count best = best
  best_path filepath line ((l, path) ∷ entries) best_count best =
      let better : Bool = (l == line) && ltb best_count (suffix_length path filepath) in
      best_path filepath line entries (if better then suffix_length path filepath else best_count)
        (if better then some path else best)

  abbrev with_line : ℕ → Option Text → Option (Text × ℕ)
  with_line line none = none
  with_line line (some path) = some (path, line)

  -- A breakpoint is made by the file's name alone, and deleted again.
  abbrev pub hint_by_name :
      Text → ℕ → Option ℕ → Option Text → api.SBTarget → Option (Text × ℕ) × api.SBTarget
  hint_by_name filepath line column none t = (none, t)
  hint_by_name filepath line column (some filename) t =
      let (id, t') = api.breakpoint_create (by_source_line filename line column) t in
      (
        with_line line (best_path filepath line (files.line_entries id t') 0 none),
        api.breakpoint_delete id t',
      )

  unfoldable pub get_breakpoint_hint :
      Text → ℤ → Option ℤ → api.SBTarget → Option (Text × ℕ) × api.SBTarget
  unfolding best_path
  get_breakpoint_hint filepath line column t =
      hint_by_name filepath (u32_of line) (Option.map u32_of column) (files.file_name filepath) t

  abbrev show_int : ℤ → Text
  show_int (pos n) = decimal n
  show_int (negsuc n) = codes "-" ++ decimal (suc n)

  abbrev hint_message : Text → ℤ → Option (Text × ℕ) → Option Text
  hint_message file_path line none = none
  hint_message file_path line (some (path, found)) = some (
      codes "Breakpoint at "
      ++ (file_path
          ++ (codes ":"
              ++ (show_int line
                  ++ (codes " could not be resolved, but a valid location was found at "
                      ++ (path ++ (codes ":" ++ decimal found)))))))

  abbrev pub source_request : Text → SourceBreakpoint → Request ℤ
  source_request location req = record {
    key = req.line;
    location = by_source_line location (u32_of req.line) (Option.map u32_of req.column);
    kind = source;
    condition = req.condition;
    log_message = req.log_message;
    hit_condition = req.hit_condition;
  }

  abbrev mode_location : BreakpointMode → Text → Outcome Text
  mode_location path_mode file_path = ok file_path
  mode_location file_mode file_path = or_err (codes "Missing file name") (files.file_name file_path)

  -- An existing breakpoint has no need of a location, which is then not looked at.
  abbrev pub location_for : BreakpointMode → Text → Option ℕ → Outcome Text
  location_for mode file_path none = mode_location mode file_path
  location_for mode file_path (some id) = ok []

  -- the hint for a breakpoint that has no location
  abbrev pub hinted :
      BreakpointMode → Text → SourceBreakpoint → ℕ → api.SBTarget → Option Text × api.SBTarget
  hinted mode file_path req id t =
      let (hint, t') = get_breakpoint_hint file_path req.line req.column t in
      if (files.num_locations id t == 0) && is_path_mode mode
      then (hint_message file_path req.line hint, t')
      else (none, t)

  unfoldable pub set_source_one :
      BreakpointMode
      → Text
      → Map ℤ ℕ
      → Text
      → SourceBreakpoint
      → Working api ℤ
      → Answer × Working api ℤ
  unfolding get_breakpoint_hint
  set_source_one mode file_path existing location req w =
      let (info, w') = set_one api existing (source_request location req) w in
      let (message, t) = hinted mode file_path req info.id w'.target in
      (record { info = some info; message = message }, record w' { target = t })

  -- A missing file name ends the loop, with the earlier breakpoints set.
  unfoldable pub set_source_all :
      BreakpointMode
      → Text
      → Map ℤ ℕ
      → List SourceBreakpoint
      → Working api ℤ
      → Outcome (List Answer) × Working api ℤ
  unfolding set_source_one
  set_source_all mode file_path existing [] w = (ok [], w)
  set_source_all mode file_path existing (req ∷ reqs) w =
      elim (location_for mode file_path (usable api w.target (get req.line existing))) [
        | ok location ↦
            let (answer, w') = set_source_one mode file_path existing location req w in
            let (result, w'') = set_source_all mode file_path existing reqs w' in
            (result >>= λ answers. ok (answer ∷ answers), w'')
        | err e ↦ (err e, w)
        | panic ↦ (panic, w)
        | out_of_fuel ↦ (out_of_fuel, w)
      ]

  abbrev pub file_bound : Text → SourceTables api → Bound api ℤ
  file_bound file_path s = record {
    existing = or_empty (get file_path s.source_files);
    infos = s.infos;
    target = s.target;
  }

  abbrev settle :
      Text
      → Map ℤ ℕ
      → SourceTables api
      → Outcome (List Answer)
      → Working api ℤ
      → Outcome (List Answer) × SourceTables api
  settle file_path existing s (ok answers) w = (
    ok answers,
    record {
      source_files = insert file_path w.new_bps s.source_files;
      infos = remove_stale existing w.new_bps w.breakpoint_infos;
      target = delete_stale api existing w.new_bps w.target;
    },
  )
  settle file_path existing s o w = (
    o,
    record {
      source_files = insert file_path existing s.source_files;
      infos = w.breakpoint_infos;
      target = w.target;
    },
  )

  unfoldable pub set_source_breakpoints :
      BreakpointMode
      → Text
      → List SourceBreakpoint
      → SourceTables api
      → Outcome (List Answer) × SourceTables api
  unfolding set_source_all remove_stale
  set_source_breakpoints mode file_path reqs s =
      let b = file_bound file_path s in
      let (result, w) =
        set_source_all mode (files.normalize_path file_path) b.existing reqs
          (record { new_bps = []; breakpoint_infos = b.infos; target = b.target }) in
      settle file_path b.existing s result w
