-- ===== src/Breakpoints/FileTests.antt =====
-- Files with breakpoints, and an instance.
use vscode_lldb.Common.{
  ℕ, ◌≡◌, refl, true, false, if◌then◌else◌, none, some, List, [], ◌∷◌, ◌==◌, arith,
}
use vscode_lldb.Common.Int.{pos}
use vscode_lldb.Common.Map.{nat_eq, get, insert}
use vscode_lldb.Common.Outcome.{ok}
use vscode_lldb.Common.Text.{Text, codes, text_eq}
use vscode_lldb.Breakpoints.SettingTests.{small_api, small_laws}
use vscode_lldb.Breakpoints.Loop.{AreDistinct}
use vscode_lldb.Breakpoints.Listings.{ℤ_eq, same_ℤ_iff, SourceBreakpoint}
use vscode_lldb.Breakpoints.Source.{
  SourceApi, path_mode, Answer, SourceTables, file_bound, set_source_breakpoints,
}
use vscode_lldb.Disassembly.{
  new, range_name, find_by_address, find_by_handle, add, locate, from_address, address_by_line_num,
}
use vscode_lldb.Disassembly.Tests.{
  target, main_range, registered, main-IsListing, new-HandlesInOrder,
}
use vscode_lldb.Breakpoints.{BreakpointInfo, disassembly, exception}
use vscode_lldb.Breakpoints.Setting.{make_bp_info}
use vscode_lldb.Breakpoints.Exclusions.{Infos, ExcludedCaller, applies}
use vscode_lldb.Breakpoints.Responses.{
  LocationApi, BreakpointBody, listing_body, make_bp_response, make_bp_response-IsShown,
}
use vscode_lldb.Breakpoints.Callers.{CallerApi, handle_exclude_caller, handle_exclude_caller_lem}
use vscode_lldb.Breakpoints.Files.{IsSettled, set_source_breakpoints-IsSettled}

-- A path is its own name; no breakpoint has a location under its path.
abbrev small_files : SourceApi small_api
small_files = record {
  normalize_path = λ p. p;
  file_name = λ p. some p;
  components = λ p. p ∷ [];
  num_locations = λ id t. 0;
  line_entries = λ id t. (5, codes "b.c") ∷ (5, codes "a.c") ∷ [];
}

-- line 3 has a breakpoint
abbrev one_file : SourceTables small_api
one_file = record {
  source_files = (codes "a.c", (pos 3, 1) ∷ []) ∷ [];
  infos = [];
  target = (2, λ k. k == 1);
}

abbrev line_5 : List SourceBreakpoint
line_5 =
    record {
      line = pos 5;
      column = none;
      condition = none;
      log_message = none;
      hit_condition = none;
    }
    ∷ []

one_file-AreDistinct :
    AreDistinct small_api small_laws
      (file_bound small_api small_files (codes "a.c") one_file).existing
      one_file.target
unfolding get text_eq
one_file-AreDistinct = record {
  unique = (refl, tt);
  below = λ k id h. ground (arith, h);
  distinct = λ k j id h g. ground (arith, h, g, same_ℤ_iff k (pos 3), same_ℤ_iff j (pos 3));
}

set_source_breakpoints-IsSettled_example :
    ((answers : List Answer) × ((set_source_breakpoints small_api small_files path_mode
          (codes "a.c")
          line_5
          one_file).0
        ≡ ok answers))
    × IsSettled small_api small_laws small_files
        (codes "a.c")
        line_5
        (file_bound small_api small_files (codes "a.c") one_file)
        (file_bound small_api small_files
          (codes "a.c")
          (set_source_breakpoints small_api small_files path_mode (codes "a.c") line_5 one_file).1)
set_source_breakpoints-IsSettled_example =
    set_source_breakpoints-IsSettled small_api small_laws small_files path_mode (codes "a.c") line_5
      one_file tt one_file-AreDistinct

-- every breakpoint is at the second instruction
abbrev small_locations : LocationApi small_api
small_locations = record {
  num_locations = λ id t. 1;
  num_resolved_locations = λ id t. 1;
  line_entry = λ id t. none;
  load_address = λ id t. 104;
  file_name = λ p. some p;
}

abbrev listing_info : BreakpointInfo
listing_info = make_bp_info small_api 1 disassembly none none none

second_request : from_address target (new target) 104 ≡ (ok main_range, registered)
unfolding from_address find_by_address locate add range_name insert
second_request = refl

make_bp_response-IsShown_example :
    (body : BreakpointBody) × (line : ℕ) × (make_bp_response target small_api small_locations
        listing_info false one_file.target
        (new target)
      ≡ (ok body, registered))
    × (body.verified ≡ true)
    × (body.line ≡ some line)
    × (body.source ≡ some (listing_body target small_api small_locations main_range))
    × (find_by_handle target registered main_range.handle ≡ some main_range)
    × (address_by_line_num target main_range line ≡ ok 104)
unfolding make_bp_info
make_bp_response-IsShown_example =
    make_bp_response-IsShown target small_api small_locations listing_info false one_file.target
      (new target) registered main_range (104 ∷ 108 ∷ []) 1 new-HandlesInOrder refl (omega arith)
      second_request main-IsListing refl

-- a process that has stopped at the first breakpoint
abbrev stopped_process : CallerApi
stopped_process = record {
  SBProcess = Unit {0};
  stopped_at = λ p. some 1;
  symbol_from_frame = λ thread frame p. some (codes "main");
  location_line = λ id p. none;
  filter_label = λ name. some (codes "C++: on throw");
}

abbrev thrown : BreakpointInfo
thrown = make_bp_info small_api 1 (exception (codes "cpp_throw")) none none none

abbrev thrown_only : Infos
thrown_only = (1, thrown) ∷ []

handle_exclude_caller_lem_example :
    (exclusion : ExcludedCaller) × (label : Text) × ((handle_exclude_caller stopped_process 7 2
        thrown_only tt).0
      ≡ ok (exclusion, label))
    × (exclusion.symbol ≡ codes "main")
    × (applies exclusion.site_id 1 thrown.kind ≡ true)
    × ((k : ℕ)
        → get k (handle_exclude_caller stopped_process 7 2 thrown_only tt).1 ≡ (
            if k == 1
            then some (record thrown { exclusions = codes "main" ∷ [] })
            else get k thrown_only))
unfolding make_bp_info get
handle_exclude_caller_lem_example =
    handle_exclude_caller_lem stopped_process 7 2 1 (codes "main") thrown thrown_only tt refl refl
      refl (λ name e. (codes "C++: on throw", refl))
