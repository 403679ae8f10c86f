-- ===== src/StepIn/Tests.antt =====
-- A small program, and instances.
use vscode_lldb.Common.{
  ℕ, ◌+◌, ◌≡◌, ◌≢◌, refl, true, none, some, [], ◌∷◌, inr, arith, ltb, ◌==◌, if◌then◌else◌,
}
use vscode_lldb.Common.Map.{nat_eq}
use vscode_lldb.Common.Outcome.{ok, out_of_fuel}
use vscode_lldb.Common.Text.{codes}
use vscode_lldb.StepIn.{
  StepApi, call, other, LineEntry, StepInTargetInternal, Frame, control_flow_kind,
}
use vscode_lldb.StepIn.Stepping.{ThreadApi, step_into_target}
use vscode_lldb.StepIn.Arrival.{Arrives, step_into_target_lem}

-- Instructions are addresses; the instruction at 104 calls the function at 200.
abbrev program : StepApi
program = record {
  SBFunction = ℕ;
  function_eq = nat_eq;
  SBInstruction = ℕ;
  SBAddress = ℕ;
  triple = codes "x86_64";
  kind = λ i. if i == 104 then call else other;
  mnemonic = λ i. [];
  operands = λ i. codes "0xC8";
  byte_size = λ i. 4;
  address = λ i. i;
  load_address = λ a. a;
  from_load_address = λ a. a;
  add_offset = λ n a. a + n;
  function = λ a. if a == 200 then some 200 else none;
  read_instructions = λ a n. 100 ∷ 104 ∷ 108 ∷ [];
  read_u64 = λ a. inr 0;
  is_valid = λ f. true;
  has_line_entry = λ f. true;
  display_name = λ f. codes "f";
  is_immed = λ s. true;
  rip_rel = λ s. none;
  parse_u64 = λ s. inr 200;
  resolve_v16 = inr tt;
}

abbrev entry : LineEntry
entry = record { line = 7; filename = codes "main.c"; start_address = 100; end_address = 112 }

abbrev main_frame : Frame program
main_frame = record {
  line_entry = some entry;
  compile_unit = some (entry ∷ []);
  pc = 100;
  pc_address = 100;
}

-- Threads count their steps: each step goes on to the next instruction, the first into the callee.
abbrev counting : ThreadApi program
counting = record {
  Thread = ℕ;
  SBFrame = ℕ;
  frame_eq = nat_eq;
  frame_at_index_0 = λ t. t;
  is_valid = λ f. true;
  function = λ f. if f == 2 then 200 else 100;
  pc = λ f. 100 + f;
  instruction_at_pc = λ f. 100;
  frames = λ t. t ∷ 0 ∷ [];
  step_into = λ t. (none, t + 1);
  step_out = λ t. (none, t + 1);
  set_async_mode = λ b t. t;
  is_cancelled = λ t. ltb 2 t;
}

abbrev wanted : StepInTargetInternal program
wanted = record { target_fn = 200; stmt_range = record { start = 100; end = 112 } }

step_into_target_lem_example :
    ((step_into_target program counting 9 wanted 0).0 ≢ out_of_fuel)
    × ((step_into_target program counting 9 wanted 0).0 ≡ ok tt
        → (u : ℕ) × ((step_into_target program counting 9 wanted 0).1 ≡ u)
          × Arrives program counting 0 wanted 1 u)
step_into_target_lem_example =
    step_into_target_lem program counting wanted 9 2 0 1 refl refl (omega arith)
      ((refl, refl), (refl, refl))

step_into_target_runs : step_into_target program counting 9 wanted 0 ≡ (ok tt, 2)
unfolding step_into_target control_flow_kind
step_into_target_runs = refl
