-- ===== src/StepIn/Targets.antt =====
-- The targets that a statement offers: they are the functions that it calls, each once, and their
-- identifiers lead back to them.
use vscode_lldb.Common.{
  ℕ, ◌≡◌, refl, true, false, List, [], ◌∷◌, ◌++◌, inl, inr, arith, ltb, if◌then◌else◌, ◌&&◌, All,
  Bool-cases,
}
use vscode_lldb.Common.Outcome.{Outcome, ok, err, panic, out_of_fuel}
use vscode_lldb.StepIn.{
  StepApi, control_flow_kind, is_call, call_target_function, contains_function, push_target,
  collect_targets,
}

module _ (api : StepApi) where
  -- a call in front of `max_end_addr` of a function with line numbers
  abbrev pub Calls : ℕ → api.SBInstruction → api.SBFunction → Type 0
  Calls max_end_addr instr f =
      (is_call api (control_flow_kind api instr) ≡ true)
      × (call_target_function api instr ≡ ok f)
      × (api.is_valid f ≡ true)
      × (api.has_line_entry f ≡ true)

  abbrev pub IsBefore : ℕ → api.SBInstruction → Type 0
  IsBefore max_end_addr instr = ltb (api.load_address (api.address instr)) max_end_addr ≡ true

  abbrev pub IsTarget : ℕ → api.SBFunction → Type 0
  IsTarget max_end_addr f =
      (instr : api.SBInstruction) × IsBefore max_end_addr instr × Calls max_end_addr instr f

  abbrev pub AreDistinct : List api.SBFunction → Type 0
  AreDistinct [] = Unit
  AreDistinct (f ∷ fs) = (contains_function api f fs ≡ false) × AreDistinct fs

  All-snoc :
      (P : api.SBFunction → Type 0) (fs : List api.SBFunction) (f : api.SBFunction)
      → All P fs
      → P f
      → All P (fs ++ f ∷ [])
  All-snoc P [] f h p = (p, tt)
  All-snoc P (g ∷ fs) f h p = (h.0, All-snoc P fs f h.1 p)

  contains-snoc :
      (g : api.SBFunction) (fs : List api.SBFunction) (f : api.SBFunction)
      → contains_function api g (fs ++ f ∷ [])
        ≡ (if contains_function api g fs then true else api.function_eq.beq f g)
  unfolding contains_function
  contains-snoc g [] f = ground arith
  contains-snoc g (x ∷ fs) f = ground (arith, contains-snoc g fs f)

  AreDistinct-snoc :
      (fs : List api.SBFunction) (f : api.SBFunction)
      → AreDistinct fs
      → contains_function api f fs ≡ false
      → AreDistinct (fs ++ f ∷ [])
  unfolding contains_function
  AreDistinct-snoc [] f d new_one = (refl, tt)
  AreDistinct-snoc (g ∷ fs) f d new_one = (
    ground (
      arith,
      contains-snoc g fs f,
      d.0,
      new_one,
      api.function_eq.beq_iff g f,
      api.function_eq.beq_iff f g,
    ),
    AreDistinct-snoc fs f d.1 (ground (arith, new_one)),
  )

  -- what the loop keeps of its list
  abbrev pub AreTargets : ℕ → List api.SBFunction → Type 0
  AreTargets max_end_addr fs = All (IsTarget max_end_addr) fs × AreDistinct fs

  push-AreTargets :
      (m : ℕ) (instr : api.SBInstruction) (o : Outcome api.SBFunction) (fs : List api.SBFunction)
      → IsBefore m instr
      → is_call api (control_flow_kind api instr) ≡ true
      → call_target_function api instr ≡ o
      → AreTargets m fs
      → AreTargets m (push_target api o fs)
  unfolding push_target
  push-AreTargets m instr (ok f) fs b c t h =
      elim (Bool-cases (api.is_valid f && api.has_line_entry f)) [
        | inl good ↦ elim (Bool-cases (contains_function api f fs)) [
          | inl there ↦ rw good (rw there h)
          | inr new_one ↦ rw good (
              rw new_one (
                All-snoc (IsTarget m) fs f h.0
                    (instr, b, (c, t, ground (arith, good), ground (arith, good))),
                AreDistinct-snoc fs f h.1 new_one,
              ))
        ]
        | inr bad ↦ rw bad h
      ]
  push-AreTargets m instr (err e) fs b c t h = h
  push-AreTargets m instr panic fs b c t h = h
  push-AreTargets m instr out_of_fuel fs b c t h = h

  -- the list behind one instruction
  abbrev next : api.SBInstruction → List api.SBFunction → List api.SBFunction
  next instr fns =
      if is_call api (control_flow_kind api instr)
      then push_target api (call_target_function api instr) fns
      else fns

  next-AreTargets :
      (m : ℕ) (instr : api.SBInstruction) (fs : List api.SBFunction)
      → IsBefore m instr
      → AreTargets m fs
      → AreTargets m (next instr fs)
  next-AreTargets m instr fs b h = elim (Bool-cases (is_call api (control_flow_kind api instr))) [
    | inl c ↦ rw c (push-AreTargets m instr (call_target_function api instr) fs b c refl h)
    | inr c ↦ rw c h
  ]

  pub collect-AreTargets :
      (m : ℕ) (instrs : List api.SBInstruction) (fs : List api.SBFunction)
      → AreTargets m fs
      → AreTargets m (collect_targets api m instrs fs)
  unfolding collect_targets
  collect-AreTargets m [] fs h = h
  collect-AreTargets m (i ∷ is) fs h =
      elim (Bool-cases (ltb (api.load_address (api.address i)) m)) [
        | inl b ↦ rw b (collect-AreTargets m is (next i fs) (next-AreTargets m i fs b h))
        | inr b ↦ rw b h
      ]

  push-contains :
      (f : api.SBFunction) (o : Outcome api.SBFunction) (fs : List api.SBFunction)
      → contains_function api f fs ≡ true
      → contains_function api f (push_target api o fs) ≡ true
  unfolding push_target
  push-contains f (ok g) fs h = ground (arith, h, contains-snoc f fs g)
  push-contains f (err e) fs h = h
  push-contains f panic fs h = h
  push-contains f out_of_fuel fs h = h

  collect-contains :
      (m : ℕ) (f : api.SBFunction) (instrs : List api.SBInstruction) (fs : List api.SBFunction)
      → contains_function api f fs ≡ true
      → contains_function api f (collect_targets api m instrs fs) ≡ true
  unfolding collect_targets
  collect-contains m f [] fs h = h
  collect-contains m f (i ∷ is) fs h =
      elim (Bool-cases (ltb (api.load_address (api.address i)) m)) [
        | inl b ↦ rw b (
            collect-contains m f is (next i fs)
              (ground (arith, h, push-contains f (call_target_function api i) fs)))
        | inr b ↦ rw b h
      ]

  pub collect-Calls :
      (m : ℕ) (before : List api.SBInstruction) (i : api.SBInstruction)
      (after : List api.SBInstruction) (f : api.SBFunction) (fs : List api.SBFunction)
      → All (IsBefore m) before
      → IsBefore m i
      → Calls m i f
      → contains_function api f (collect_targets api m (before ++ i ∷ after) fs) ≡ true
  unfolding collect_targets
  collect-Calls m [] i after f fs h b (c, t, v, l) =
      rw b (rw c (rw t (collect-contains m f after (push_target api (ok f) fs) (pushed v l))))
    where
      pushed :
          api.is_valid f ≡ true
          → api.has_line_entry f ≡ true
          → contains_function api f (push_target api (ok f) fs) ≡ true
      pushed v l =
          unfold push_target in
          ground (arith, v, l, contains-snoc f fs f, api.function_eq.beq_iff f f)
  collect-Calls m (j ∷ before) i after f fs h b c =
      rw h.0 (collect-Calls m before i after f (next j fs) h.1 b c)
