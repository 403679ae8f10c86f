-- ===== src/Session/WatchTests.antt =====
-- An expression with a value at 4096, and an instance.
use vscode_lldb.Common.{ℕ, ◌≡◌, inr, refl, true, false, none, some, [], ◌∷◌, arith}
use vscode_lldb.Common.Outcome.{ok}
use vscode_lldb.Common.Text.{Text, codes}
use vscode_lldb.Session.Watch.{
  WatchApi, DataBreakpointInfoArguments, DataBreakpointInfoResponseBody, read_write, watch_body,
  handle_data_breakpoint_info, handle_set_data_breakpoints,
}
use vscode_lldb.Session.WatchIds.{watched, data_id_watches}

-- a target is the number of its watchpoints
abbrev counter : WatchApi
counter = record {
  SBTarget = ℕ;
  SBFrame = Unit {0};
  child_of = λ reference name. none;
  stack_frame = λ id. none;
  selected_frame = λ f. f;
  evaluate = λ name f. inr (record { load_address = 4096; byte_size = 8; name = none });
  parse_int = λ s. none;
  is_valid_address = λ a. true;
  address_byte_size = 8;
  delete_all_watchpoints = λ t. 0;
  watch_address = λ addr size on_read on_write t. (inr 1, 1);
}

abbrev about_x : DataBreakpointInfoArguments
about_x = record {
  variables_reference = none;
  name = codes "x";
  frame_id = none;
  bytes = none;
  as_address = none;
}

data_id_watches_example :
    (body : DataBreakpointInfoResponseBody) × (id : Text) × (handle_data_breakpoint_info counter
        false about_x
      ≡ ok body)
    × (body.data_id ≡ some id)
    × (handle_set_data_breakpoints counter
          ((record { data_id = id; access_type = some read_write }) ∷ [])
          5
        ≡ (
          ok (
              watch_body counter (some read_write) (watched counter 4096 8 (some read_write) 5).0
              ∷ []),
          1,
        ))
data_id_watches_example =
    data_id_watches counter false about_x
      (record { load_address = 4096; byte_size = 8; name = none }) (some read_write) 5 refl refl
      refl (omega arith) (omega arith)
