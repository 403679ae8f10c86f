-- ===== src/Breakpoints/Restored.antt =====
-- Breakpoints on the listings of an earlier session, which are restored from its saved data.
use vscode_lldb.Common.{
  ℕ, ◌≤◌, ◌≡◌, refl, ◌∙◌, true, Option, none, some, List, [], ◌∷◌, map, arith, All,
}
use vscode_lldb.Common.Map.{contains_key, nat_eq}
use vscode_lldb.Disassembly.{DisasmApi, AdapterData, lines_from_adapter_data}
use vscode_lldb.Breakpoints.{BreakpointInfo}
use vscode_lldb.Breakpoints.Exclusions.{Infos, contains_key-insert}
use vscode_lldb.Breakpoints.Setting.{TargetApi, by_load_address, make_bp_info}
use vscode_lldb.Breakpoints.Reuse.{TargetLaws, Found, actions-same}
use vscode_lldb.Breakpoints.Listings.{
  is_some, SourceBreakpoint, set_new_one, set_new_all, new_info, line_address,
  set_new_dasm_breakpoints,
}

module _ (disasm : DisasmApi) (api : TargetApi) (laws : TargetLaws api) where
  -- the entry of the response is for a breakpoint that liblldb finds and that is tracked
  abbrev pub IsAnswer : Infos → api.SBTarget → Option BreakpointInfo → Type 0
  IsAnswer infos t none = Unit
  IsAnswer infos t (some info) = Found api laws info.id t × (contains_key info.id infos ≡ true)

  -- what is there and tracked
  abbrev IsThere : ℕ → Infos → api.SBTarget → Type 0
  IsThere i infos t = (i ≤ laws.last_id t) × Found api laws i t × (contains_key i infos ≡ true)

  IsThere-set_new_one :
      (i : ℕ) (req : SourceBreakpoint) (address : Option ℕ) (infos : Infos) (t : api.SBTarget)
      → IsThere i infos t
      → IsThere i
          (set_new_one disasm api req address infos t).1
          (set_new_one disasm api req address infos t).2
  IsThere-set_new_one i req none infos t h = h
  IsThere-set_new_one i req (some address) infos t (le, found, tracked) =
      let (id, t') = api.breakpoint_create (by_load_address address) t in
      let info = new_info disasm api req id in
      let new_one = laws.create_new (by_load_address address) t in
      let (same, last) = actions-same api laws info.id i info.condition t' in
      (
        omega (arith, last, le, new_one, laws.create_last (by_load_address address) t),
        same
            ∙ laws.create_other i (by_load_address address) t
                (λ eq. absurd (omega (arith, eq, le, new_one)))
            ∙ found,
        ground (arith, contains_key-insert i id info infos, tracked),
      )

  IsThere-set_new_all :
      (i : ℕ) (lines : List ℕ) (reqs : List SourceBreakpoint) (infos : Infos) (t : api.SBTarget)
      → IsThere i infos t
      → IsThere i
          (set_new_all disasm api lines reqs infos t).1
          (set_new_all disasm api lines reqs infos t).2
  unfolding set_new_all
  IsThere-set_new_all i lines [] infos t h = h
  IsThere-set_new_all i lines (r ∷ reqs) infos t h =
      IsThere-set_new_all i lines reqs _ _
        (IsThere-set_new_one i r (line_address disasm api lines r.line) infos t h)

  -- the first response of a round
  first-IsAnswer :
      (req : SourceBreakpoint) (address : Option ℕ) (infos : Infos) (t : api.SBTarget)
      (infos' : Infos) (t' : api.SBTarget)
      → ((i : ℕ)
          → IsThere i
              (set_new_one disasm api req address infos t).1
              (set_new_one disasm api req address infos t).2
          → IsThere i infos' t')
      → IsAnswer infos' t' (set_new_one disasm api req address infos t).0
        × (is_some (set_new_one disasm api req address infos t).0 ≡ is_some address)
  unfolding make_bp_info
  first-IsAnswer req none infos t infos' t' later = (tt, refl)
  first-IsAnswer req (some address) infos t infos' t' later =
      let (id, made) = api.breakpoint_create (by_load_address address) t in
      let info = new_info disasm api req id in
      let (same, last) = actions-same api laws info.id id info.condition made in
      let there = later id (
        omega (arith, last, laws.create_last (by_load_address address) t),
        same ∙ laws.create_found (by_load_address address) t,
        ground (arith, contains_key-insert id id info infos, nat_eq.beq_iff id id),
      ) in
      ((there.1, there.2), refl)

  -- A request for a listing of an earlier session answers each line in order: with a breakpoint, which
  -- liblldb finds in the end and which is tracked, if the saved data has that line, and else with
  -- none.
  pub set_new_dasm_breakpoints_lem :
      (data_ : AdapterData) (reqs : List SourceBreakpoint) (infos : Infos) (t : api.SBTarget)
      → (map is_some (set_new_dasm_breakpoints disasm api data_ reqs infos t).0
          ≡ map
              (λ (r : SourceBreakpoint).
                is_some (line_address disasm api (lines_from_adapter_data data_) r.line))
              reqs)
        × All
            (IsAnswer
              (set_new_dasm_breakpoints disasm api data_ reqs infos t).1
              (set_new_dasm_breakpoints disasm api data_ reqs infos t).2)
            (set_new_dasm_breakpoints disasm api data_ reqs infos t).0
  unfolding set_new_dasm_breakpoints
  set_new_dasm_breakpoints_lem data_ reqs infos t = go reqs infos t
    where
      go :
          (rs : List SourceBreakpoint) (is : Infos) (u : api.SBTarget)
          → (map is_some (set_new_all disasm api (lines_from_adapter_data data_) rs is u).0
              ≡ map
                  (λ (r : SourceBreakpoint).
                    is_some (line_address disasm api (lines_from_adapter_data data_) r.line))
                  rs)
            × All
                (IsAnswer
                  (set_new_all disasm api (lines_from_adapter_data data_) rs is u).1
                  (set_new_all disasm api (lines_from_adapter_data data_) rs is u).2)
                (set_new_all disasm api (lines_from_adapter_data data_) rs is u).0
      go [] is u = (refl, tt)
      go (r ∷ rs) is u =
          let lines = lines_from_adapter_data data_ in
          let (answer, same) =
            first-IsAnswer r (line_address disasm api lines r.line) is u _ _
              (λ i. IsThere-set_new_all i lines rs _ _) in
          let rest = go rs _ _ in (rw (same, rest.0) refl, (answer, rest.1))
