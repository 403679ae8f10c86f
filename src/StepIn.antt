-- ===== src/StepIn.antt =====
-- src/codelldb/src/debug_session/step_in.rs: the functions that a statement calls, as targets for
-- stepping in, and the loop that steps into one of them. What liblldb answers of a stopped process is
-- the parameter `StepApi`; a thread that runs is a state of `ThreadApi`, which each step changes.
pub mod Targets
pub mod Response
pub mod Stepping
pub mod Arrival
mod Tests
use vscode_lldb.Common.{
  ℕ, zero, suc, ◌+◌, ◌-◌, ◌%◌, ◌^◌, ◌≡◌, Bool, true, false, ◌&&◌, Option, none, some, List, [], ◌∷◌,
  ◌++◌, ◌⊎◌, inl, inr, ltb, leb, ◌==◌, if◌then◌else◌, length, take,
}
use vscode_lldb.Common.Map.{Eq}
use vscode_lldb.Common.Outcome.{Outcome, ok, err, panic, out_of_fuel, ◌>>=◌, or_err}
use vscode_lldb.Common.Text.{Text, codes, text_eq, starts_with}

pub data ControlFlowKind : Type 0 where
  unknown other call return jump cond_jump far_call far_return far_jump : ControlFlowKind

pub record StepApi : Type 1 where
  pub SBFunction : Type 0
  pub function_eq : Eq SBFunction
  pub SBInstruction : Type 0
  pub SBAddress : Type 0
  pub triple : Text
  pub kind : SBInstruction → ControlFlowKind
  pub mnemonic : SBInstruction → Text
  pub operands : SBInstruction → Text
  pub byte_size : SBInstruction → ℕ
  pub address : SBInstruction → SBAddress
  pub load_address : SBAddress → ℕ
  pub from_load_address : ℕ → SBAddress
  pub add_offset : ℕ → SBAddress → SBAddress
  pub function : SBAddress → Option SBFunction
  pub read_instructions : SBAddress → ℕ → List SBInstruction
  -- eight bytes as a little-endian number
  pub read_u64 : SBAddress → Text ⊎ ℕ
  pub is_valid : SBFunction → Bool
  pub has_line_entry : SBFunction → Bool
  pub display_name : SBFunction → Text
  -- the regular expressions `^0[xX][[:xdigit:]]+$` and `^\*(0[xX][[:xdigit:]]+)\(%rip\)$`
  pub is_immed : Text → Bool
  pub rip_rel : Text → Option Text
  pub parse_u64 : Text → Text ⊎ ℕ
  -- `lldb_stub::v16.resolve()`
  pub resolve_v16 : Text ⊎ Unit {0}

abbrev or_fail : {A : Type 0} → Text ⊎ A → Outcome A
or_fail (inl e) = err e
or_fail (inr a) = ok a

-- Addresses from `start` up to and without `end`.
pub record StmtRange : Type 0 where
  pub start : ℕ
  pub end : ℕ

abbrev pub contains : ℕ → StmtRange → Bool
contains a range = leb range.start a && ltb a range.end

pub record LineEntry : Type 0 where
  pub line : ℕ
  pub filename : Text
  pub start_address : ℕ
  pub end_address : ℕ

-- the largest end of the line entries of the current line
unfoldable pub statement_end : LineEntry → List LineEntry → ℕ → ℕ
statement_end curr [] m = m
statement_end curr (le ∷ les) m = statement_end curr les (
    if le.line == curr.line && text_eq le.filename curr.filename
    then (if ltb m le.end_address then le.end_address else m)
    else m)

module _ (api : StepApi) where
  -- An `arm` target has its mnemonics looked at where liblldb knows nothing.
  abbrev arm_kind : Text → ControlFlowKind
  arm_kind mnemonic =
      if text_eq mnemonic (codes "bl")
      then call
      else if text_eq mnemonic (codes "b")
      then jump
      else other

  unfoldable pub control_flow_kind : api.SBInstruction → ControlFlowKind
  control_flow_kind instr = elim (api.kind instr) [
    | unknown ↦
        if starts_with (codes "arm") api.triple then arm_kind (api.mnemonic instr) else unknown
    | k ↦ k
  ]

  abbrev pub is_call : ControlFlowKind → Bool
  is_call call = true
  is_call far_call = true
  is_call _ = false

  abbrev pub is_jump : ControlFlowKind → Bool
  is_jump jump = true
  is_jump far_jump = true
  is_jump _ = false

  abbrev rip_relative : api.SBInstruction → Option Text → Outcome ℕ
  rip_relative instr none = err (codes "Unrecognized operand form")
  rip_relative instr (some digits) = do
    offset ← or_fail (api.parse_u64 digits)
    or_fail (
        api.read_u64 (api.add_offset ((offset + api.byte_size instr) % 2 ^ 64) (api.address instr)))

  unfoldable pub instruction_target_address : api.SBInstruction → Outcome api.SBAddress
  instruction_target_address instr = do
    load_addr ←
        if api.is_immed (api.operands instr)
        then or_fail (api.parse_u64 (api.operands instr))
        else rip_relative instr (api.rip_rel (api.operands instr))
    ok (api.from_load_address load_addr)

  abbrev or_no_target : Option api.SBFunction → Outcome api.SBFunction
  or_no_target none = err (codes "Could not determine call target")
  or_no_target (some func) = ok func

  -- the function behind a jump, if the first instruction is one
  abbrev behind_jump : List api.SBInstruction → Outcome api.SBFunction
  behind_jump [] = or_no_target none
  behind_jump (instr ∷ _) =
      if is_jump (control_flow_kind instr)
      then (instruction_target_address instr >>= λ a. or_no_target (api.function a))
      else or_no_target none

  abbrev function_at : api.SBAddress → Option api.SBFunction → Outcome api.SBFunction
  function_at address (some func) = ok func
  function_at address none = behind_jump (api.read_instructions address 1)

  unfoldable pub call_target_function : api.SBInstruction → Outcome api.SBFunction
  unfolding instruction_target_address control_flow_kind
  call_target_function instr =
      instruction_target_address instr >>= λ address. function_at address (api.function address)

  -- `target_fns.contains(&func)`
  unfoldable pub contains_function : api.SBFunction → List api.SBFunction → Bool
  contains_function f [] = false
  contains_function f (g ∷ fs) = if api.function_eq.beq g f then true else contains_function f fs

  -- a function with line numbers that is not there yet
  unfoldable pub push_target : Outcome api.SBFunction → List api.SBFunction → List api.SBFunction
  unfolding contains_function
  push_target (ok func) fns =
      if api.is_valid func && api.has_line_entry func
      then (if contains_function func fns then fns else fns ++ func ∷ [])
      else fns
  push_target _ fns = fns

  unfoldable pub collect_targets :
      ℕ → List api.SBInstruction → List api.SBFunction → List api.SBFunction
  unfolding push_target call_target_function
  collect_targets max_end_addr [] fns = fns
  collect_targets max_end_addr (instr ∷ instrs) fns =
      let more = collect_targets max_end_addr instrs (
        if is_call (control_flow_kind instr)
        then push_target (call_target_function instr) fns
        else fns) in
      if ltb (api.load_address (api.address instr)) max_end_addr then more else fns

  pub record StepInTargetInternal : Type 0 where
    pub target_fn : api.SBFunction
    pub stmt_range : StmtRange

  pub record StepInTarget : Type 0 where
    pub id : ℕ
    pub label : Text

  pub record Frame : Type 0 where
    pub line_entry : Option LineEntry
    -- the line entries of the compile unit
    pub compile_unit : Option (List LineEntry)
    pub pc : ℕ
    pub pc_address : api.SBAddress

  -- what a handle stands for
  pub data Container : Type 0 where
    stack_frame : Frame → Container
    other_container : Container

  abbrev as_frame : Option Container → Outcome Frame
  as_frame (some (stack_frame frame)) = ok frame
  as_frame _ = err (codes "Invalid frame id.")

  unfoldable pub add_targets :
      StmtRange
      → List api.SBFunction
      → List StepInTargetInternal
      → List StepInTarget × List StepInTargetInternal
  add_targets range [] known = ([], known)
  add_targets range (f ∷ fs) known =
      let (targets, known') =
        add_targets range fs (known ++ (record { target_fn = f; stmt_range = range }) ∷ []) in
      ((record { id = length known; label = api.display_name f }) ∷ targets, known')

  abbrev stmt_range_of : Frame → ℕ → StmtRange
  stmt_range_of frame max_end_addr = record { start = frame.pc; end = max_end_addr }

  -- the functions that the statement at the frame calls
  unfoldable pub statement_targets : Frame → ℕ → List api.SBFunction
  unfolding collect_targets
  statement_targets frame max_end_addr =
      let instr_count = (max_end_addr + 2 ^ 64 - frame.pc) % 2 ^ 64 % 2 ^ 32 in
      collect_targets max_end_addr (api.read_instructions frame.pc_address instr_count) []

  unfoldable pub handle_step_in_targets :
      Option Container
      → List StepInTargetInternal
      → Outcome (List StepInTarget × List StepInTargetInternal)
  unfolding statement_end statement_targets add_targets
  handle_step_in_targets container step_in_targets = do
    frame ← as_frame container
    curr_le ← or_err (codes "No line entry for frame.") frame.line_entry
    line_entries ← or_err (codes "No compile unit for frame.") frame.compile_unit
    _ ← or_fail api.resolve_v16
    let max_end_addr = statement_end curr_le line_entries 0
    ok (
        add_targets (stmt_range_of frame max_end_addr) (statement_targets frame max_end_addr)
          step_in_targets)
