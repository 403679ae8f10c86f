-- ===== src/Breakpoints/Listings.antt =====
-- `set_dasm_breakpoints` and `set_new_dasm_breakpoints`: breakpoints on the lines of listings.
use vscode_lldb.Common.{
  ℕ, ◌%◌, ◌^◌, ◌≡◌, ◌↔◌, refl, Bool, true, false, Option, none, some, List, [], ◌∷◌, map, arith,
  get_elem?, All, All-imp,
}
use vscode_lldb.Common.Int.{ℤ, pos, negsuc, as_u64}
use vscode_lldb.Common.Map.{Map, Eq, get, insert, get-insert, nat_eq}
use vscode_lldb.Common.Outcome.{Outcome, ok, ◌>>=◌}
use vscode_lldb.Common.Text.{Text}
use vscode_lldb.Disassembly.{
  DisasmApi, DisassembledRange, address_by_line_num, AdapterData, lines_from_adapter_data,
}
use vscode_lldb.Breakpoints.{BreakpointInfo, disassembly}
use vscode_lldb.Breakpoints.Exclusions.{Infos}
use vscode_lldb.Breakpoints.Setting.{
  TargetApi, by_load_address, Request, Bound, set_breakpoints, make_bp_info, init_bp_actions,
}
use vscode_lldb.Breakpoints.Reuse.{TargetLaws}
use vscode_lldb.Breakpoints.Loop.{AreDistinct, all_ok}
use vscode_lldb.Breakpoints.Tracking.{IsPlaced, set_breakpoints-IsPlaced}

abbrev same_ℤ : ℤ → ℤ → Bool
same_ℤ (pos m) (pos n) = nat_eq.beq m n
same_ℤ (negsuc m) (negsuc n) = nat_eq.beq m n
same_ℤ _ _ = false

pub same_ℤ_iff : (m n : ℤ) → (same_ℤ m n ≡ true) ↔ (m ≡ n)
same_ℤ_iff (pos m) (pos n) = ground (arith, nat_eq.beq_iff m n)
same_ℤ_iff (negsuc m) (negsuc n) = ground (arith, nat_eq.beq_iff m n)
same_ℤ_iff (pos m) (negsuc n) = ground arith
same_ℤ_iff (negsuc m) (pos n) = ground arith

instance abbrev pub ℤ_eq : Eq ℤ
ℤ_eq = record { beq = same_ℤ; beq_iff = same_ℤ_iff }

abbrev pub is_some : {A : Type 0} → Option A → Bool
is_some none = false
is_some (some a) = true

-- a requested breakpoint in a source; its column is not used in listings
pub record SourceBreakpoint : Type 0 where
  pub line : ℤ
  pub column : Option ℤ
  pub condition : Option Text
  pub log_message : Option Text
  pub hit_condition : Option Text

-- the tables of all listings, by handle, with what is shared
pub record Assembly (api : TargetApi) : Type 0 where
  pub assembly : Map ℕ (Map ℤ ℕ)
  pub infos : Infos
  pub target : api.SBTarget

module _ (disasm : DisasmApi) (api : TargetApi) where
  abbrev pub request_at : SourceBreakpoint → ℕ → Request ℤ
  request_at req laddress = record {
    key = req.line;
    location = by_load_address laddress;
    kind = disassembly;
    condition = req.condition;
    log_message = req.log_message;
    hit_condition = req.hit_condition;
  }

  -- `req.line as u32`
  unfoldable pub dasm_request : DisassembledRange disasm → SourceBreakpoint → Outcome (Request ℤ)
  dasm_request dasm req = address_by_line_num disasm dasm (as_u64 req.line % 2 ^ 32) >>= λ laddress.
      ok (request_at req laddress)

  abbrev pub or_default : Option (Map ℤ ℕ) → Map ℤ ℕ
  or_default none = []
  or_default (some bps) = bps

  -- the table of one listing
  abbrev pub bound_of : ℕ → Assembly api → Bound api ℤ
  bound_of handle s = record {
    existing = or_default (get handle s.assembly);
    infos = s.infos;
    target = s.target;
  }

  unfoldable pub set_dasm_breakpoints :
      DisassembledRange disasm
      → List SourceBreakpoint
      → Assembly api
      → Outcome (List BreakpointInfo) × Assembly api
  unfolding dasm_request
  set_dasm_breakpoints dasm reqs s =
      let (result, b) =
        set_breakpoints api (map (dasm_request dasm) reqs) (bound_of dasm.handle s) in
      (
        result,
        record {
          assembly = insert dasm.handle b.existing s.assembly;
          infos = b.infos;
          target = b.target;
        },
      )

  -- the address of a line of an earlier session, if there is such a line
  unfoldable pub line_address : List ℕ → ℤ → Option ℕ
  line_address line_addresses (pos line) = get_elem? line_addresses line
  line_address line_addresses (negsuc n) = none

  abbrev pub new_info : SourceBreakpoint → ℕ → BreakpointInfo
  new_info req id = make_bp_info api id disassembly req.condition req.log_message req.hit_condition

  -- A default breakpoint in the response is `none`.
  abbrev pub set_new_one :
      SourceBreakpoint
      → Option ℕ
      → Infos
      → api.SBTarget
      → Option BreakpointInfo × Infos × api.SBTarget
  set_new_one req none infos t = (none, infos, t)
  set_new_one req (some address) infos t =
      let (id, t') = api.breakpoint_create (by_load_address address) t in
      (
        some (new_info req id),
        insert id (new_info req id) infos,
        init_bp_actions api (new_info req id) t',
      )

  unfoldable pub set_new_all :
      List ℕ
      → List SourceBreakpoint
      → Infos
      → api.SBTarget
      → List (Option BreakpointInfo) × Infos × api.SBTarget
  unfolding line_address
  set_new_all line_addresses [] infos t = ([], infos, t)
  set_new_all line_addresses (req ∷ reqs) infos t =
      let (info, infos', t') = set_new_one req (line_address line_addresses req.line) infos t in
      let (more, infos'', t'') = set_new_all line_addresses reqs infos' t' in
      (info ∷ more, infos'', t'')

  unfoldable pub set_new_dasm_breakpoints :
      AdapterData
      → List SourceBreakpoint
      → Infos
      → api.SBTarget
      → List (Option BreakpointInfo) × Infos × api.SBTarget
  unfolding set_new_all
  set_new_dasm_breakpoints data_ reqs infos t =
      set_new_all (lines_from_adapter_data data_) reqs infos t

  -- a line of an instruction in a listing
  abbrev pub IsInstructionLine : DisassembledRange disasm → SourceBreakpoint → Type 0
  IsInstructionLine dasm req =
      (address : ℕ) × (address_by_line_num disasm dasm (as_u64 req.line % 2 ^ 32) ≡ ok address)

  -- the requests with the addresses of their lines
  abbrev pub located :
      (dasm : DisassembledRange disasm) (reqs : List SourceBreakpoint)
      → All (IsInstructionLine dasm) reqs
      → List (Request ℤ)
  located dasm [] h = []
  located dasm (r ∷ reqs) h = request_at r h.0.0 ∷ located dasm reqs h.1

  dasm_requests-located :
      (dasm : DisassembledRange disasm) (reqs : List SourceBreakpoint)
      (h : All (IsInstructionLine dasm) reqs)
      → map (dasm_request dasm) reqs ≡ all_ok (located dasm reqs h)
  unfolding dasm_request
  dasm_requests-located dasm [] h = refl
  dasm_requests-located dasm (r ∷ reqs) h = rw (h.0.1, dasm_requests-located dasm reqs h.1) refl

  located-All :
      (P : ℤ → Type 0) (dasm : DisassembledRange disasm) (reqs : List SourceBreakpoint)
      (h : All (IsInstructionLine dasm) reqs)
      → All (λ r. P r.key) (located dasm reqs h)
      → All (λ r. P r.line) reqs
  located-All P dasm [] h a = tt
  located-All P dasm (r ∷ reqs) h a = (a.0, located-All P dasm reqs h.1 a.1)

module _ (disasm : DisasmApi) (api : TargetApi) (laws : TargetLaws api) where
  get-inserted : (k : ℕ) (v : Map ℤ ℕ) (m : Map ℕ (Map ℤ ℕ)) → get k (insert k v m) ≡ some v
  get-inserted k v m = ground (arith, get-insert k k v m, nat_eq.beq_iff k k)

  -- If every line that is asked for is an instruction's line in the listing, and the listing's table
  -- is sound, the request succeeds, and the listing's table holds for each line a breakpoint that
  -- liblldb finds and that is tracked, the one it had if that was found.
  pub set_dasm_breakpoints-IsPlaced :
      (dasm : DisassembledRange disasm) (reqs : List SourceBreakpoint) (s : Assembly api)
      → All (IsInstructionLine disasm api dasm) reqs
      → AreDistinct api laws (bound_of disasm api dasm.handle s).existing s.target
      → ((infos : List BreakpointInfo) × ((set_dasm_breakpoints disasm api dasm reqs s).0
            ≡ ok infos))
        × All
            (λ r.
              IsPlaced api laws
                (bound_of disasm api dasm.handle s)
                (bound_of disasm api dasm.handle (set_dasm_breakpoints disasm api dasm reqs s).1)
                r.line)
            reqs
  unfolding set_dasm_breakpoints
  set_dasm_breakpoints-IsPlaced dasm reqs s h d =
      let b = bound_of disasm api dasm.handle s in
      let (runs, _, placed) =
        set_breakpoints-IsPlaced api laws (located disasm api dasm reqs h) b d in
      let all =
        located-All disasm api
          (IsPlaced api laws b (set_breakpoints api (all_ok (located disasm api dasm reqs h)) b).1)
          dasm reqs h placed in
      rw (dasm_requests-located disasm api dasm reqs h)
        (runs, All-imp (λ r p. rw (get-inserted dasm.handle _ s.assembly) p) reqs all)
