-- ===== src/StepIn/Response.antt =====
-- The response to `stepInTargets`.
use vscode_lldb.Common.{
  ℕ, ◌+◌, ◌-◌, ◌%◌, ◌^◌, ◌≤◌, ◌≡◌, true, some, List, ◌∷◌, ◌++◌, length, map, get_elem?, All,
}
use vscode_lldb.StepIn.{
  StepApi, StmtRange, LineEntry, contains_function, StepInTargetInternal, StepInTarget, Frame,
}
use vscode_lldb.StepIn.Targets.{Calls, IsBefore, AreTargets}

abbrev pub IsAtMost : ℕ → LineEntry → LineEntry → Type 0
IsAtMost m curr le = (le.line ≡ curr.line) → (le.filename ≡ curr.filename) → le.end_address ≤ m

-- The address is the end of one of the frame's line's ranges.
abbrev pub IsEndOf : LineEntry → List LineEntry → ℕ → Type 0
IsEndOf curr les m =
    (i : ℕ) × (le : LineEntry) × (get_elem? les i ≡ some le)
    × (le.line ≡ curr.line)
    × (le.filename ≡ curr.filename)
    × (le.end_address ≡ m)

module _ (api : StepApi) where
  abbrev pub remembered_as : StmtRange → api.SBFunction → StepInTargetInternal api
  remembered_as range f = record { target_fn = f; stmt_range = range }

  abbrev stmt_of : Frame api → ℕ → StmtRange
  stmt_of frame m = record { start = frame.pc; end = m }

  -- The instructions of the statement, up to its end.
  abbrev pub instructions_of : Frame api → ℕ → List api.SBInstruction
  instructions_of frame m =
      api.read_instructions frame.pc_address ((m + 2 ^ 64 - frame.pc) % 2 ^ 64 % 2 ^ 32)

  -- A response that offers the functions that a statement calls.
  pub record Offers (frame : Frame api) (m : ℕ) (known : List (StepInTargetInternal api))
      (targets : List (StepInTarget api)) (known' : List (StepInTargetInternal api)) : Type 0 where
    pub functions : List api.SBFunction
    pub are_targets : AreTargets api m functions
    pub complete :
        (before : List api.SBInstruction) (instr : api.SBInstruction)
        (after : List api.SBInstruction) (f : api.SBFunction)
        → instructions_of frame m ≡ before ++ instr ∷ after
        → All (IsBefore api m) before
        → IsBefore api m instr
        → Calls api m instr f
        → contains_function api f functions ≡ true
    pub remembered :
        known' ≡ known ++ map (remembered_as (record { start = frame.pc; end = m })) functions
    pub as_many : length targets ≡ length functions
    pub resolves :
        (i : ℕ) (t : StepInTarget api)
        → get_elem? targets i ≡ some t
        → (f : api.SBFunction) × (get_elem? functions i ≡ some f)
          × (t.label ≡ api.display_name f)
          × (get_elem? known' t.id ≡ some (remembered_as (record { start = frame.pc; end = m }) f))
