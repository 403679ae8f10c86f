-- ===== src/StepIn/Arrival.antt =====
-- The stepping loop arrives at its target, or stops for a reason.
use vscode_lldb.Common.{
  ℕ, zero, suc, ◌<◌, ◌≡◌, ◌≢◌, refl, true, false, Option, none, some, ◌⊎◌, inl, inr, arith,
  Bool-cases, take, List, [], ◌∷◌, get_elem?, subst, sym,
}
use mathlib.Core.Option
use vscode_lldb.Common.Outcome.{Outcome, ok, err, panic, out_of_fuel}
use vscode_lldb.Common.Text.{Text, codes}
use vscode_lldb.StepIn.{StepApi, StepInTargetInternal, contains}
use vscode_lldb.StepIn.Stepping.{
  ThreadApi, Round, finish, step_in_again, step_back_out, landed, decide, find_frame, continue_with,
  stepping_loop, step_into_target, IsElsewhere, at_jump, Move, through_jump, within_statement,
  back_out, Moves, here, next, CancelledWithin,
}

module _ (api : StepApi) (threads : ThreadApi api) (start : threads.SBFrame)
    (target : StepInTargetInternal api) where
  -- what a finished loop says of the thread
  abbrev IsFinished : threads.Thread → Outcome (Unit {0}) → Type 0
  IsFinished t (ok _) =
      (api.function_eq.beq (threads.function (threads.frame_at_index_0 t)) target.target_fn ≡ true)
      × (threads.is_valid (threads.frame_at_index_0 t) ≡ true)
  IsFinished t (err e) = Unit
  IsFinished t panic = ⊥
  IsFinished t out_of_fuel = ⊥

  -- what a round says of the thread: it has finished, or the step that follows is a move
  abbrev IsJustified : threads.Thread → Round api threads → Type 0
  IsJustified t (finish r) = IsFinished t r
  IsJustified t step_in_again =
      (t' : threads.Thread) → threads.step_into t ≡ (none, t') → Move api threads start target t t'
  IsJustified t step_back_out =
      (t' : threads.Thread) → threads.step_out t ≡ (none, t') → Move api threads start target t t'

  abbrev IsStart : List threads.SBFrame → ℕ → Type 0
  IsStart fs i =
      (f : threads.SBFrame) × (get_elem? fs i ≡ some f) × (threads.frame_eq.beq f start ≡ true)

  IsStart-cons :
      (g : threads.SBFrame) (fs : List threads.SBFrame) (o : Option ℕ) (i : ℕ)
      → ((j : ℕ) → o ≡ some j → IsStart fs j)
      → Option.map suc o ≡ some i
      → IsStart (g ∷ fs) i
  IsStart-cons g fs none i found e = cc e
  IsStart-cons g fs (some j) zero found e = ground (arith, e)
  IsStart-cons g fs (some j) (suc i) found e = found i (ground (arith, e))

  find_frame-IsStart :
      (fs : List threads.SBFrame) (i : ℕ) → find_frame api threads start fs ≡ some i → IsStart fs i
  unfolding find_frame
  find_frame-IsStart [] i h = cc h
  find_frame-IsStart (g ∷ fs) i h = elim (Bool-cases (threads.frame_eq.beq g start)) [
    | inl e ↦
        let first : some 0 ≡ some i = rw e at h in
        let same : 0 ≡ i = ground (arith, first) in
        subst (λ (j : ℕ). IsStart (g ∷ fs) j) same (g, refl, e)
    | inr e ↦
        IsStart-cons g fs (find_frame api threads start fs) i (λ j. find_frame-IsStart fs j)
          (rw e at h)
  ]

  find_frame-head :
      (fs : List threads.SBFrame) (f : threads.SBFrame)
      → get_elem? fs 0 ≡ some f
      → threads.frame_eq.beq f start ≡ true
      → find_frame api threads start fs ≡ some 0
  unfolding find_frame
  find_frame-head [] f there same = cc there
  find_frame-head (g ∷ fs) f there same =
      let e : g ≡ f = cc there in
      let e' : threads.frame_eq.beq g start ≡ true =
        subst (λ (x : threads.SBFrame). threads.frame_eq.beq x start ≡ true) (sym e) same in
      rw e' refl

  landed-IsJustified :
      (t : threads.Thread) (o : Option ℕ)
      → IsElsewhere api threads target t
      → at_jump api threads t ≡ false
      → find_frame api threads start (take 10 (threads.frames t)) ≡ o
      → IsJustified t
          (landed api threads target.stmt_range (threads.pc (threads.frame_at_index_0 t)) o)
  landed-IsJustified t none e j found = tt
  landed-IsJustified t (some zero) e j found =
      elim (Bool-cases (contains (threads.pc (threads.frame_at_index_0 t)) target.stmt_range)) [
        | inl c ↦
            let (f, there, same) = find_frame-IsStart (take 10 (threads.frames t)) 0 found in
            rw c (λ t' step.
              within_statement e j (record { frame = f; there = there; same = same })
                (ground (arith, c)) (ground (arith, c)) step)
        | inr c ↦ rw c tt
      ]
  landed-IsJustified t (some (suc i)) e j found =
      let (f, there, same) = find_frame-IsStart (take 10 (threads.frames t)) (suc i) found in
      λ t' step.
        back_out i e j (record { frame = f; there = there; same = same })
          (λ s.
            let first = find_frame-head (take 10 (threads.frames t)) s.frame s.there s.same in
            cc (first, found))
          step

  outside-IsJustified :
      (t : threads.Thread)
      → IsElsewhere api threads target t
      → IsJustified t (decide api threads start target t)
  unfolding decide
  outside-IsJustified t e = elim (Bool-cases (at_jump api threads t)) [
    | inl j ↦ rw (e.goes_on, e.somewhere, e.not_there) (rw j (λ t' step. through_jump e j step))
    | inr j ↦
        rw (e.goes_on, e.somewhere, e.not_there)
          (rw j (
            landed-IsJustified t (find_frame api threads start (take 10 (threads.frames t))) e j
              refl))
  ]

  decide-IsJustified : (t : threads.Thread) → IsJustified t (decide api threads start target t)
  unfolding decide
  decide-IsJustified t =
      let frame = threads.frame_at_index_0 t in
      elim (Bool-cases (threads.is_cancelled t)) [
        | inl c ↦ rw c tt
        | inr c ↦ elim (Bool-cases (threads.is_valid frame)) [
          | inr v ↦ rw c (rw v tt)
          | inl v ↦
              elim (Bool-cases (api.function_eq.beq (threads.function frame) target.target_fn)) [
                | inl a ↦ rw c (rw v (rw a (a, v)))
                | inr a ↦
                    outside-IsJustified t (record { goes_on = c; somewhere = v; not_there = a })
              ]
        ]
      ]

  decide-cancelled :
      (t : threads.Thread)
      → threads.is_cancelled t ≡ true
      → decide api threads start target t ≡ finish (err (codes "Cancelled"))
  unfolding decide
  decide-cancelled t h = rw h refl

  Round-cases :
      (r : Round api threads)
      → ((o : Outcome (Unit {0})) × (r ≡ finish o)) ⊎ ((r ≡ step_in_again) ⊎ (r ≡ step_back_out))
  Round-cases (finish o) = inl (o, refl)
  Round-cases step_in_again = inr (inl refl)
  Round-cases step_back_out = inr (inr refl)

  -- a step, and the loop behind it
  continue-ends :
      (again : threads.Thread → Outcome (Unit {0}) × threads.Thread)
      (p : Option Text × threads.Thread)
      → (again p.1).0 ≢ out_of_fuel
      → (continue_with api threads again p).0 ≢ out_of_fuel
  continue-ends again (none, t) h = h
  continue-ends again (some e, t) h = λ x. cc x

  continue-ok :
      (again : threads.Thread → Outcome (Unit {0}) × threads.Thread)
      (p : Option Text × threads.Thread)
      → (continue_with api threads again p).0 ≡ ok tt
      → (p ≡ (none, p.1)) × (continue_with api threads again p ≡ again p.1)
  continue-ok again (none, t) h = (refl, refl)
  continue-ok again (some e, t) h = cc h

  finished-ends : (t : threads.Thread) (o : Outcome (Unit {0})) → IsFinished t o → o ≢ out_of_fuel
  finished-ends t (ok _) f = λ x. cc x
  finished-ends t (err e) f = λ x. cc x
  finished-ends t panic f = absurd f
  finished-ends t out_of_fuel f = absurd f

  pub stepping_loop-ends :
      (fuel n : ℕ) (t : threads.Thread)
      → n < fuel
      → CancelledWithin api threads n t
      → (stepping_loop api threads fuel start target t).0 ≢ out_of_fuel
  unfolding stepping_loop
  stepping_loop-ends zero n t h c = absurd (omega arith)
  stepping_loop-ends (suc fuel) zero t h c = rw (decide-cancelled t c) (λ x. cc x)
  stepping_loop-ends (suc fuel) (suc n) t h c =
      elim (Round-cases (decide api threads start target t)) [
        | inl (o, e) ↦
            let f : IsJustified t (finish o) = rw e at (decide-IsJustified t) in
            rw e (finished-ends t o f)
        | inr (inl e) ↦ rw e (
            continue-ends (stepping_loop api threads fuel start target) (threads.step_into t)
              (stepping_loop-ends fuel n (threads.step_into t).1 (omega arith) c.0))
        | inr (inr e) ↦ rw e (
            continue-ends (stepping_loop api threads fuel start target) (threads.step_out t)
              (stepping_loop-ends fuel n (threads.step_out t).1 (omega arith) c.1))
      ]

  -- the thread has made moves of the loop only, and is in the target
  abbrev pub Arrives : threads.Thread → threads.Thread → Type 0
  Arrives t u = Moves api threads start target t u × IsFinished u (ok tt)

  pub stepping_loop-Arrives :
      (fuel : ℕ) (t : threads.Thread)
      → (stepping_loop api threads fuel start target t).0 ≡ ok tt
      → Arrives t (stepping_loop api threads fuel start target t).1
  unfolding stepping_loop
  stepping_loop-Arrives zero t h = cc h
  stepping_loop-Arrives (suc fuel) t h = elim (Round-cases (decide api threads start target t)) [
    | inl (o, e) ↦
        let same : o ≡ ok tt = rw e at h in
        let f : IsJustified t (finish o) = rw e at (decide-IsJustified t) in
        rw e (here, rw same at f)
    | inr (inl e) ↦
        let (clean, goes) =
          continue-ok (stepping_loop api threads fuel start target) (threads.step_into t)
            (rw e at h) in
        let (moves, there) =
          stepping_loop-Arrives fuel (threads.step_into t).1 (rw (e, goes) at h) in
        let move : IsJustified t step_in_again = rw e at (decide-IsJustified t) in
        rw e (rw goes (next (move (threads.step_into t).1 clean) moves, there))
    | inr (inr e) ↦
        let (clean, goes) =
          continue-ok (stepping_loop api threads fuel start target) (threads.step_out t)
            (rw e at h) in
        let (moves, there) =
          stepping_loop-Arrives fuel (threads.step_out t).1 (rw (e, goes) at h) in
        let move : IsJustified t step_back_out = rw e at (decide-IsJustified t) in
        rw e (rw goes (next (move (threads.step_out t).1 clean) moves, there))
  ]

module _ (api : StepApi) (threads : ThreadApi api) (target : StepInTargetInternal api) where
  -- If the first step works, and the request is cancelled at the latest after `n` more steps, whatever
  -- these do, then more than `n` rounds are enough for a result. If that is success, the thread is
  -- in the target function, and it got there by nothing but the first step and moves, each made outside
  -- the target before the request was cancelled: a step on from a jump; a step from an address of the
  -- statement in the starting frame, where that is the innermost frame; and a step back out, where the
  -- starting frame is one of the first ten but not the innermost.
  pub step_into_target_lem :
      (fuel n : ℕ) (t t' : threads.Thread)
      → api.resolve_v16 ≡ inr tt
      → threads.step_into (threads.set_async_mode false t) ≡ (none, t')
      → n < fuel
      → CancelledWithin api threads n t'
      → ((step_into_target api threads fuel target t).0 ≢ out_of_fuel)
        × ((step_into_target api threads fuel target t).0 ≡ ok tt
            → (u : threads.Thread) × ((step_into_target api threads fuel target t).1
                ≡ threads.set_async_mode true u)
              × Arrives api threads
                  (threads.frame_at_index_0 (threads.set_async_mode false t))
                  target
                  t'
                  u)
  unfolding step_into_target
  step_into_target_lem fuel n t t' r first enough c =
      let start = threads.frame_at_index_0 (threads.set_async_mode false t) in
      rw (r, first)
        (
          stepping_loop-ends api threads start target fuel n t' enough c,
          λ success. (
            (stepping_loop api threads fuel start target t').1,
            refl,
            stepping_loop-Arrives api threads start target fuel t' success,
          ),
        )
