-- ===== src/Breakpoints/Responses.antt =====
-- `make_bp_response`: what the client is told of a breakpoint. What the breakpoint has been resolved to
-- is the parameter `LocationApi`.
use vscode_lldb.Common.{
  ℕ, ◌<◌, ◌≡◌, refl, subst, Bool, true, false, Option, none, some, List, ◌++◌, ltb, ◌==◌,
  if◌then◌else◌, get_elem?, arith,
}
use vscode_lldb.Common.Outcome.{Outcome, ok, err, panic, out_of_fuel}
use vscode_lldb.Common.Text.{Text, codes, decimal, hex}
use vscode_lldb.Disassembly.{
  DisasmApi, DisassembledRange, AdapterData, Ranges, find_by_handle, from_address,
  line_num_by_address, address_by_line_num, adapter_data,
}
use vscode_lldb.Disassembly.Handles.{HandlesInOrder, Served, from_address-Served}
use vscode_lldb.Disassembly.Lines.{IsListing, line_of_position}
use vscode_lldb.Breakpoints.{
  BreakpointInfo, BreakpointKind, source, disassembly, instruction, function, exception,
}
use vscode_lldb.Breakpoints.Setting.{TargetApi}

pub record LocationApi (api : TargetApi) : Type 0 where
  pub num_locations : ℕ → api.SBTarget → ℕ
  pub num_resolved_locations : ℕ → api.SBTarget → ℕ
  -- the path and the line of the line entry of the first location
  pub line_entry : ℕ → api.SBTarget → Option (Text × ℕ)
  pub load_address : ℕ → api.SBTarget → ℕ
  pub file_name : Text → Option Text

pub record SourceBody : Type 0 where
  pub name : Text
  pub path : Text
  pub source_reference : Option ℕ
  pub adapter_data : Option AdapterData

pub record BreakpointBody : Type 0 where
  pub id : ℕ
  pub verified : Bool
  pub message : Text
  pub line : Option ℕ
  pub source : Option SourceBody
  pub instruction_reference : Option Text

module _ (disasm : DisasmApi) (api : TargetApi) (locations : LocationApi api) where
  -- with nothing but the number of locations
  abbrev plain : ℕ → Bool → api.SBTarget → BreakpointBody
  plain id verified t = record {
    id = id;
    verified = verified;
    message = codes "Resolved locations: " ++ decimal (locations.num_resolved_locations id t);
    line = none;
    source = none;
    instruction_reference = none;
  }

  -- `file_name().unwrap()`
  abbrev source_body : Text → Option Text → Outcome (Option SourceBody)
  source_body path none = panic
  source_body path (some name) =
      ok (some (record { name = name; path = path; source_reference = none; adapter_data = none }))

  abbrev at_line : ℕ → ℕ → api.SBTarget → Outcome (Option SourceBody) → Outcome BreakpointBody
  at_line id line t (ok body) = ok (record (plain id (ltb 0 (locations.num_locations id t)) t) {
    line = some line;
    source = body;
  })
  at_line id line t (err e) = err e
  at_line id line t panic = panic
  at_line id line t out_of_fuel = out_of_fuel

  abbrev in_source : ℕ → Bool → api.SBTarget → Option (Text × ℕ) → Outcome BreakpointBody
  in_source id include_source t none = ok (plain id false t)
  in_source id include_source t (some (path, line)) =
      at_line id line t
        (if include_source then source_body path (locations.file_name path) else ok none)

  abbrev pub listing_body : DisassembledRange disasm → SourceBody
  listing_body dasm = record {
    name = dasm.source_name;
    path = dasm.source_name;
    source_reference = some dasm.handle;
    adapter_data = some (adapter_data disasm dasm);
  }

  abbrev pub in_range : ℕ → ℕ → api.SBTarget → Outcome (DisassembledRange disasm) → BreakpointBody
  in_range id laddress t (ok dasm) = record (plain id true t) {
    line = some (line_num_by_address disasm dasm laddress);
    source = some (listing_body dasm);
  }
  in_range id laddress t _ = plain id false t

  abbrev pub resolved_response :
      BreakpointKind
      → ℕ
      → Bool
      → api.SBTarget
      → Ranges disasm
      → Outcome BreakpointBody × Ranges disasm
  resolved_response source id include_source t ranges =
      (in_source id include_source t (locations.line_entry id t), ranges)
  resolved_response disassembly id include_source t ranges =
      let (found, ranges') = from_address disasm ranges (locations.load_address id t) in
      (ok (in_range id (locations.load_address id t) t found), ranges')
  resolved_response instruction id include_source t ranges = (
    ok (record (plain id true t) {
      instruction_reference = some (codes "0x" ++ hex true (locations.load_address id t));
    }),
    ranges,
  )
  resolved_response function id include_source t ranges =
      (ok (plain id (ltb 0 (locations.num_locations id t)) t), ranges)
  resolved_response (exception name) id include_source t ranges =
      (ok (plain id (ltb 0 (locations.num_locations id t)) t), ranges)

  unfoldable pub make_bp_response :
      BreakpointInfo → Bool → api.SBTarget → Ranges disasm → Outcome BreakpointBody × Ranges disasm
  make_bp_response info include_source t ranges =
      if locations.num_locations info.id t == 0
      then (ok (plain info.id false t), ranges)
      else resolved_response info.kind info.id include_source t ranges

  -- A breakpoint in a listing that has a location, at the address of an instruction of the range that
  -- the registry finds or makes for it, is shown as verified, in the source that the registry finds by
  -- its handle from then on, and at a line from which a breakpoint set there gets the same address.
  pub make_bp_response-IsShown :
      (info : BreakpointInfo) (include_source : Bool) (t : api.SBTarget)
      (ranges ranges' : Ranges disasm) (dasm : DisassembledRange disasm) (rest : List ℕ) (i : ℕ)
      → HandlesInOrder ranges
      → info.kind ≡ disassembly
      → 0 < locations.num_locations info.id t
      → from_address disasm ranges (locations.load_address info.id t) ≡ (ok dasm, ranges')
      → IsListing dasm rest
      → get_elem? dasm.instruction_addresses i ≡ some (locations.load_address info.id t)
      → (body : BreakpointBody) × (line : ℕ) × (make_bp_response info include_source t ranges
          ≡ (ok body, ranges'))
        × (body.verified ≡ true)
        × (body.line ≡ some line)
        × (body.source ≡ some (listing_body dasm))
        × (find_by_handle disasm ranges' dasm.handle ≡ some dasm)
        × (address_by_line_num disasm dasm line ≡ ok (locations.load_address info.id t))
  unfolding make_bp_response
  make_bp_response-IsShown info include_source t ranges ranges' dasm rest i v kind located found
        listing here =
      let id = info.id in
      let laddress = locations.load_address id t in
      let some_location : (locations.num_locations id t == 0) ≡ false = ground arith in
      let served : Served ranges (ok dasm, ranges') =
        subst (Served ranges) found (from_address-Served ranges laddress v) in
      let (back, forth) = line_of_position dasm rest i laddress listing here in
      let runs : make_bp_response info include_source t ranges
          ≡ (ok (in_range id laddress t (ok dasm)), ranges') =
        rw (some_location, kind, found) refl in
      (
        in_range id laddress t (ok dasm),
        line_num_by_address disasm dasm laddress,
        runs,
        refl,
        refl,
        refl,
        served.2,
        rw back forth,
      )
