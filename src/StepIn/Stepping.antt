-- ===== src/StepIn/Stepping.antt =====
-- `step_into_target`: a thread steps into a function that the statement calls.
use vscode_lldb.Common.{
  ℕ, zero, suc, ◌≤◌, ◌<◌, ◌≡◌, Bool, true, false, not, Option, none, some, List, [], ◌∷◌, inl, inr,
  if◌then◌else◌, take, get_elem?,
}
use mathlib.Core.Option
use vscode_lldb.Common.Map.{Eq}
use vscode_lldb.Common.Outcome.{Outcome, ok, err, out_of_fuel}
use vscode_lldb.Common.Text.{Text, codes}
use vscode_lldb.StepIn.{
  StepApi, StmtRange, contains, control_flow_kind, is_jump, StepInTargetInternal,
}

-- A thread at a moment, with what its process and the other threads have come to. A step gives the
-- error that liblldb reports, if any, and the next state.
pub record ThreadApi (api : StepApi) : Type 1 where
  pub Thread : Type 0
  pub SBFrame : Type 0
  pub frame_eq : Eq SBFrame
  pub frame_at_index_0 : Thread → SBFrame
  pub is_valid : SBFrame → Bool
  pub function : SBFrame → api.SBFunction
  pub pc : SBFrame → ℕ
  -- the instruction at the frame's address; liblldb gives an invalid one where it cannot read it
  pub instruction_at_pc : SBFrame → api.SBInstruction
  pub frames : Thread → List SBFrame
  pub step_into : Thread → Option Text × Thread
  pub step_out : Thread → Option Text × Thread
  pub set_async_mode : Bool → Thread → Thread
  -- whether the request has been cancelled by now
  pub is_cancelled : Thread → Bool

module _ (api : StepApi) (threads : ThreadApi api) where
  -- the index of a frame among the first ones
  unfoldable pub find_frame : threads.SBFrame → List threads.SBFrame → Option ℕ
  find_frame f [] = none
  find_frame f (g ∷ fs) =
      if threads.frame_eq.beq g f then some 0 else Option.map suc (find_frame f fs)

  -- what one round of the loop decides
  pub data Round : Type 0 where
    finish : Outcome (Unit {0}) → Round
    step_in_again step_back_out : Round

  abbrev pub landed : StmtRange → ℕ → Option ℕ → Round
  landed range pc none = finish (err (codes "Stepped out of start_frame"))
  landed range pc (some zero) =
      if contains pc range then step_in_again else finish (err (codes "Stepped out of stmt_range"))
  landed range pc (some (suc i)) = step_back_out

  unfoldable pub decide : threads.SBFrame → StepInTargetInternal api → threads.Thread → Round
  unfolding find_frame
  decide start_frame target t =
      let curr_frame = threads.frame_at_index_0 t in
      if threads.is_cancelled t
      then finish (err (codes "Cancelled"))
      else if not (threads.is_valid curr_frame)
      then finish (err (codes "Invalid current frame"))
      else if api.function_eq.beq (threads.function curr_frame) target.target_fn
      then finish (ok tt)
      else if is_jump api (control_flow_kind api (threads.instruction_at_pc curr_frame))
      then step_in_again
      else landed target.stmt_range (threads.pc curr_frame)
          (find_frame start_frame (take 10 (threads.frames t)))

  -- An error of a step ends the loop with it.
  abbrev pub continue_with :
      (threads.Thread → Outcome (Unit {0}) × threads.Thread)
      → Option Text × threads.Thread
      → Outcome (Unit {0}) × threads.Thread
  continue_with again (none, t) = again t
  continue_with again (some e, t) = (err e, t)

  abbrev act :
      (threads.Thread → Outcome (Unit {0}) × threads.Thread)
      → Round
      → threads.Thread
      → Outcome (Unit {0}) × threads.Thread
  act again (finish r) t = (r, t)
  act again step_in_again t = continue_with again (threads.step_into t)
  act again step_back_out t = continue_with again (threads.step_out t)

  unfoldable pub stepping_loop :
      ℕ
      → threads.SBFrame
      → StepInTargetInternal api
      → threads.Thread
      → Outcome (Unit {0}) × threads.Thread
  unfolding decide
  stepping_loop zero start_frame target t = (out_of_fuel, t)
  stepping_loop (suc fuel) start_frame target t =
      act (stepping_loop fuel start_frame target) (decide start_frame target t) t

  -- `with_sync_mode`
  abbrev with_sync_mode :
      (threads.Thread → Outcome (Unit {0}) × threads.Thread)
      → threads.Thread
      → Outcome (Unit {0}) × threads.Thread
  with_sync_mode func t =
      let (result, t') = func (threads.set_async_mode false t) in
      (result, threads.set_async_mode true t')

  unfoldable pub step_into_target :
      ℕ → StepInTargetInternal api → threads.Thread → Outcome (Unit {0}) × threads.Thread
  unfolding stepping_loop
  step_into_target fuel target t = elim api.resolve_v16 [
    | inl e ↦ (err e, t)
    | inr _ ↦
        with_sync_mode
          (λ s.
            continue_with (stepping_loop fuel (threads.frame_at_index_0 s) target)
              (threads.step_into s))
          t
  ]

  -- The request goes on, and the thread is somewhere outside the target function.
  pub record IsElsewhere (target : StepInTargetInternal api) (t : threads.Thread) : Type 0 where
    pub goes_on : threads.is_cancelled t ≡ false
    pub somewhere : threads.is_valid (threads.frame_at_index_0 t) ≡ true
    pub not_there :
        api.function_eq.beq (threads.function (threads.frame_at_index_0 t)) target.target_fn ≡ false

  -- whether the thread's next instruction is a jump
  abbrev pub at_jump : threads.Thread → Bool
  at_jump t =
      is_jump api (control_flow_kind api (threads.instruction_at_pc (threads.frame_at_index_0 t)))

  -- the frame at this place of the stack, one of the first ten, is the starting frame
  pub record StartsAt (start_frame : threads.SBFrame) (t : threads.Thread) (i : ℕ) : Type 0 where
    pub frame : threads.SBFrame
    pub there : get_elem? (take 10 (threads.frames t)) i ≡ some frame
    pub same : threads.frame_eq.beq frame start_frame ≡ true

  -- The moves that lead to a target: a step on through a jump; where the starting frame is the innermost
  -- one, a step from an address of the statement; and where the starting frame is further out, a step
  -- back out of the innermost one.
  pub data Move (start_frame : threads.SBFrame) (target : StepInTargetInternal api)
      (t t' : threads.Thread) : Type 0 where
    through_jump :
        IsElsewhere target t
        → at_jump t ≡ true
        → threads.step_into t ≡ (none, t')
        → Move start_frame target t t'
    within_statement :
        IsElsewhere target t
        → at_jump t ≡ false
        → StartsAt start_frame t 0
        → target.stmt_range.start ≤ threads.pc (threads.frame_at_index_0 t)
        → threads.pc (threads.frame_at_index_0 t) < target.stmt_range.end
        → threads.step_into t ≡ (none, t')
        → Move start_frame target t t'
    back_out :
        (i : ℕ)
        → IsElsewhere target t
        → at_jump t ≡ false
        → StartsAt start_frame t (suc i)
        → ¬ StartsAt start_frame t 0
        → threads.step_out t ≡ (none, t')
        → Move start_frame target t t'

  pub data Moves (start_frame : threads.SBFrame) (target : StepInTargetInternal api)
      : threads.Thread → threads.Thread → Type 0 where
    here : {t : threads.Thread} → Moves start_frame target t t
    next :
        {t t' u : threads.Thread}
        → Move start_frame target t t'
        → Moves start_frame target t' u
        → Moves start_frame target t u

  -- `n` more moves at most before the request is cancelled, whatever the steps do
  abbrev pub CancelledWithin : ℕ → threads.Thread → Type 0
  CancelledWithin zero t = threads.is_cancelled t ≡ true
  CancelledWithin (suc n) t =
      CancelledWithin n (threads.step_into t).1 × CancelledWithin n (threads.step_out t).1
