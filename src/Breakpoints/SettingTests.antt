-- ===== src/Breakpoints/SettingTests.antt =====
-- A target of liblldb in small, and instances.
use vscode_lldb.Expressions.{native}
use vscode_lldb.Common.{
  ℕ, suc, ◌≡◌, ◌≢◌, refl, Bool, true, false, none, some, List, [], ◌∷◌, inr, arith, ◌==◌, ==_iff,
  if◌then◌else◌, All,
}
use vscode_lldb.Common.Map.{get, nat_eq, Text_eq}
use vscode_lldb.Common.Outcome.{ok}
use vscode_lldb.Common.Text.{Text, codes, text_eq_iff}
use vscode_lldb.Breakpoints.{BreakpointInfo, exception, function}
use vscode_lldb.Breakpoints.Setting.{
  TargetApi, make_bp_info, Request, Bound, function_request, set_breakpoints,
}
use vscode_lldb.Breakpoints.Exclusions.{Infos}
use vscode_lldb.Common.Int.{pos}
use vscode_lldb.Disassembly.{address_by_line_num}
use vscode_lldb.Disassembly.Tests.{target, main_range}
use vscode_lldb.Breakpoints.Listings.{
  ℤ_eq, SourceBreakpoint, Assembly, bound_of, set_dasm_breakpoints, set_dasm_breakpoints-IsPlaced,
}
use vscode_lldb.Breakpoints.Reuse.{TargetLaws}
use vscode_lldb.Breakpoints.Loop.{AreDistinct, all_ok}
use vscode_lldb.Breakpoints.Tracking.{IsPlaced, set_breakpoints-IsPlaced, set_breakpoints-deletes}

-- the last identifier, and which breakpoints there are
abbrev pub small_api : TargetApi
small_api = record {
  SBTarget = ℕ × (ℕ → Bool);
  PyObject = Text;
  breakpoint_create = λ l t. (suc t.0, (suc t.0, λ k. if k == suc t.0 then true else t.1 k));
  breakpoint_delete = λ j t. (t.0, λ k. if k == j then false else t.1 k);
  find_breakpoint_by_id = λ k t. t.1 k;
  add_name = λ k n t. t;
  set_condition = λ k c t. t;
  set_callback = λ k c t. t;
  trim = λ s. s;
  parse_u64 = λ s. none;
  parse_hit_condition = λ s. none;
  prepare = λ s. inr (native s);
  has_python = false;
  compile_code = λ s. inr s;
}

abbrev pub small_laws : TargetLaws small_api
small_laws = record {
  last_id = λ t. t.0;
  create_new = λ l t. omega arith;
  create_last = λ l t. refl;
  create_found = λ l t. ground (arith, ==_iff (suc t.0) (suc t.0));
  create_other = λ k l t h. ground (arith, ==_iff k (suc t.0), h);
  delete_gone = λ k t. ground (arith, ==_iff k k);
  delete_other = λ k j t h. ground (arith, ==_iff k j, h);
  delete_last = λ k t. refl;
  condition_find = λ k j c t. refl;
  condition_last = λ j c t. refl;
  callback_find = λ k j c t. refl;
  name_last = λ j n t. refl;
  callback_last = λ j c t. refl;
}

-- one function has a breakpoint, another is asked for
abbrev one_bound : Bound small_api Text
one_bound = record { existing = (codes "main", 1) ∷ []; infos = []; target = (2, λ k. k == 1) }

one_bound-AreDistinct : AreDistinct small_api small_laws one_bound.existing one_bound.target
unfolding get
one_bound-AreDistinct = record {
  unique = (refl, tt);
  below = λ k id h. ground (arith, h);
  distinct = λ k j id h g.
      ground (arith, h, g, text_eq_iff k (codes "main"), text_eq_iff j (codes "main"));
}

-- a tracked exception and a tracked function
abbrev tracked_two : Infos
tracked_two =
    (1, make_bp_info small_api 1 (exception (codes "cpp_throw")) none none none)
    ∷ (2, make_bp_info small_api 2 function none none none)
    ∷ []

abbrev requests : List (Request Text)
requests =
    function_request small_api (record { name = codes "f"; condition = none; hit_condition = none })
    ∷ []

set_breakpoints-IsSet_example :
    ((infos : List BreakpointInfo) × ((set_breakpoints small_api (all_ok requests) one_bound).0
        ≡ ok infos))
    × AreDistinct small_api small_laws
        (set_breakpoints small_api (all_ok requests) one_bound).1.existing
        (set_breakpoints small_api (all_ok requests) one_bound).1.target
    × All
        (λ r.
          IsPlaced small_api small_laws one_bound
            (set_breakpoints small_api (all_ok requests) one_bound).1
            r.key)
        requests
set_breakpoints-IsSet_example =
    set_breakpoints-IsPlaced small_api small_laws requests one_bound one_bound-AreDistinct

set_breakpoints-deletes_example :
    ((k : Text)
      → get k one_bound.existing ≡ some 1
      → get k (set_breakpoints small_api (all_ok requests) one_bound).1.existing ≡ none
      → small_api.find_breakpoint_by_id 1
          (set_breakpoints small_api (all_ok requests) one_bound).1.target
        ≡ false)
    × (((k : Text) → get k one_bound.existing ≢ some 1)
        → small_api.find_breakpoint_by_id 1
            (set_breakpoints small_api (all_ok requests) one_bound).1.target
          ≡ small_api.find_breakpoint_by_id 1 one_bound.target)
set_breakpoints-deletes_example =
    set_breakpoints-deletes small_api small_laws requests one_bound 1 one_bound-AreDistinct
      (omega arith)

-- the second instruction's line of a listing
abbrev second_line : List SourceBreakpoint
second_line =
    record {
      line = pos 4;
      column = none;
      condition = none;
      log_message = none;
      hit_condition = none;
    }
    ∷ []

abbrev no_listings : Assembly small_api
no_listings = record { assembly = []; infos = []; target = (2, λ k. false) }

no_listings-AreDistinct :
    AreDistinct small_api small_laws
      (bound_of target small_api 1000 no_listings).existing
      no_listings.target
unfolding get
no_listings-AreDistinct = record {
  unique = tt;
  below = λ k id h. absurd (cc h);
  distinct = λ k j id h g. absurd (cc h);
}

set_dasm_breakpoints-IsPlaced_example :
    ((infos : List BreakpointInfo) × ((set_dasm_breakpoints target small_api main_range second_line
          no_listings).0
        ≡ ok infos))
    × All
        (λ r.
          IsPlaced small_api small_laws
            (bound_of target small_api 1000 no_listings)
            (bound_of target small_api 1000
              (set_dasm_breakpoints target small_api main_range second_line no_listings).1)
            r.line)
        second_line
unfolding get address_by_line_num
set_dasm_breakpoints-IsPlaced_example =
    set_dasm_breakpoints-IsPlaced target small_api small_laws main_range second_line no_listings
      ((104, refl), tt) no_listings-AreDistinct
