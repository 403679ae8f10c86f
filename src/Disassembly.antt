-- ===== src/Disassembly.antt =====
-- src/codelldb/src/disassembly.rs: disassembled ranges, their registry and their listings. What
-- liblldb and its bindings answer is the parameter `DisasmApi`; an `Rc` of a range is its value.
pub mod Lookup
pub mod Handles
pub mod Lines
pub mod Listing
pub mod Tests
use vscode_lldb.Common.{
  ℕ, zero, suc, ◌+◌, ◌-◌, ◌*◌, ◌%◌, ◌^◌, ◌≡◌, Bool, true, false, ◌&&◌, Option, none, some, List, [],
  ◌∷◌, ◌++◌, map, ltb, leb, ◌==◌, if◌then◌else◌, length, get_elem?, insert_at, partition_point,
  drop, replicate,
}
use vscode_lldb.Common.Text.{Text, codes, hex, pad_zero, pad_right}
use vscode_lldb.Common.Outcome.{Outcome, ok, err, panic}
use vscode_lldb.Common.Map.{Map, nat_eq, get, insert}

-- A place in a source file, as `LineEntry` gives it.
pub record LineEntry : Type 0 where
  pub path : Text
  pub line : ℕ

-- What the code asks of SBTarget, SBAddress, SBSymbol and SBInstruction.
pub record DisasmApi : Type 1 where
  pub SBAddress : Type 0
  pub SBSymbol : Type 0
  pub SBInstruction : Type 0
  pub from_load_address : ℕ → SBAddress
  pub load_address : SBAddress → ℕ
  pub symbol : SBAddress → Option SBSymbol
  pub line_entry : SBAddress → Option LineEntry
  pub start_address : SBSymbol → SBAddress
  pub end_address : SBSymbol → SBAddress
  pub symbol_instructions : SBSymbol → List SBInstruction
  pub name : SBSymbol → Text
  pub display_name : SBSymbol → Text
  pub mangled_name : SBSymbol → Text
  pub read_instructions : SBAddress → ℕ → List SBInstruction
  pub address : SBInstruction → SBAddress
  pub byte_size : SBInstruction → ℕ
  pub raw_data : SBInstruction → Option (List ℕ)
  pub mnemonic : SBInstruction → Text
  pub operands : SBInstruction → Text
  pub comment : SBInstruction → Text

-- `Range<Address>`
pub record AddressRange : Type 0 where
  pub start : ℕ
  pub end : ℕ

unfoldable pub contains : AddressRange → ℕ → Bool
contains r a = leb r.start a && ltb a r.end

pub record AdapterData : Type 0 where
  pub start : ℕ
  pub end : ℕ
  pub line_offsets : List ℕ

pub record DisassembledRange (api : DisasmApi) : Type 0 where
  pub handle : ℕ
  pub start_addr : api.SBAddress
  pub load_range : AddressRange
  pub source_name : Text
  pub instructions : List api.SBInstruction
  pub instruction_addresses : List ℕ

pub record Ranges (api : DisasmApi) : Type 0 where
  pub by_handle : Map ℕ (DisassembledRange api)
  pub by_address : List (DisassembledRange api)

-- How many instructions to put into a range if the address is not in scope of any symbol.
abbrev no_symbol_instructions : ℕ
no_symbol_instructions = 32

-- `line_offsets`: the windows of two addresses, `(w[1] - w[0]) as u32` on 64-bit numbers.
unfoldable pub window_offsets : List ℕ → List ℕ
window_offsets [] = []
window_offsets (a ∷ []) = []
window_offsets (a ∷ b ∷ rest) = (b + 2 ^ 64 - a) % 2 ^ 64 % 2 ^ 32 ∷ window_offsets (b ∷ rest)

-- `scan(start, |addr, delta| { *addr += delta; Some(*addr) })`
unfoldable pub scan_offsets : ℕ → List ℕ → List ℕ
scan_offsets addr [] = []
scan_offsets addr (delta ∷ rest) =
    let next : ℕ = (addr + delta) % 2 ^ 64 in next ∷ scan_offsets next rest

-- Lines are 1-based; there are 2 header lines and the first instruction.
unfoldable pub lines_from_adapter_data : AdapterData → List ℕ
unfolding scan_offsets
lines_from_adapter_data d = replicate 4 d.start ++ scan_offsets d.start d.line_offsets

module _ (api : DisasmApi) where
  abbrev pub new : Ranges api
  new = record { by_handle = []; by_address = [] }

  unfoldable pub find_by_handle : Ranges api → ℕ → Option (DisassembledRange api)
  find_by_handle rs handle = get handle rs.by_handle

  -- the test of the candidate that the binary search points at
  abbrev pub if_contains : ℕ → Option (DisassembledRange api) → Option (DisassembledRange api)
  if_contains a none = none
  if_contains a (some dasm) = if contains dasm.load_range a then some dasm else none

  unfoldable pub find_in : List (DisassembledRange api) → ℕ → Option (DisassembledRange api)
  unfolding partition_point
  find_in by_address load_addr =
      let idx = partition_point (λ dasm. leb dasm.load_range.start load_addr) by_address in
      if ltb 0 idx then if_contains load_addr (get_elem? by_address (idx - 1)) else none

  unfoldable pub find_by_address : Ranges api → ℕ → Option (DisassembledRange api)
  unfolding find_in
  find_by_address rs load_addr = find_in rs.by_address load_addr

  unfoldable pub range_name : api.SBAddress → ℕ → ℕ → Text
  range_name start_addr start_load end_load = elim (api.symbol start_addr) [
    | some s ↦ b'@' ∷ api.name s
    | none ↦ b'@' ∷ hex false start_load ++ codes ".." ++ hex false end_load
  ]

  -- the addresses between two places
  abbrev pub range_of : api.SBAddress → api.SBAddress → AddressRange
  range_of s e = record { start = api.load_address s; end = api.load_address e }

  unfoldable pub add :
      Ranges api
      → api.SBAddress
      → api.SBAddress
      → List api.SBInstruction
      → DisassembledRange api × Ranges api
  add rs start_addr end_addr instructions =
      let start_load_addr = api.load_address start_addr in
      let end_load_addr = api.load_address end_addr in
      let dasm : DisassembledRange api = record {
        handle = length rs.by_handle + 1000;
        start_addr = start_addr;
        load_range = record { start = start_load_addr; end = end_load_addr };
        source_name = range_name start_addr start_load_addr end_load_addr;
        instructions = instructions;
        instruction_addresses = map (λ i. api.load_address (api.address i)) instructions;
      } in
      let idx = partition_point (λ d. ltb d.load_range.start start_load_addr) rs.by_address in
      (
        dasm,
        record {
          by_handle = insert dasm.handle dasm rs.by_handle;
          by_address = insert_at idx dasm rs.by_address;
        },
      )

  -- the address of the last instruction, or the start where there is none
  abbrev last_address : api.SBAddress → List api.SBInstruction → api.SBAddress
  last_address start_addr [] = start_addr
  last_address start_addr (i ∷ []) = api.address i
  last_address start_addr (i ∷ j ∷ rest) = last_address start_addr (j ∷ rest)

  -- start, end and instructions of the range around an address
  unfoldable pub locate : api.SBAddress → api.SBAddress × api.SBAddress × List api.SBInstruction
  locate addr = elim (api.symbol addr) [
    | some s ↦ (api.start_address s, api.end_address s, api.symbol_instructions s)
    | none ↦
        let instructions = api.read_instructions addr (no_symbol_instructions + 1) in
        (addr, last_address addr instructions, instructions)
  ]

  abbrev pub add_unless_empty :
      Ranges api
      → api.SBAddress × api.SBAddress × List api.SBInstruction
      → Outcome (DisassembledRange api) × Ranges api
  add_unless_empty rs (start_addr, end_addr, []) =
      (err (codes "Can't read instructions at that address."), rs)
  add_unless_empty rs (start_addr, end_addr, i ∷ rest) =
      let (dasm, rs') = add rs start_addr end_addr (i ∷ rest) in (ok dasm, rs')

  unfoldable pub from_address : Ranges api → ℕ → Outcome (DisassembledRange api) × Ranges api
  from_address rs load_addr = elim (find_by_address rs load_addr) [
    | some dasm ↦ (ok dasm, rs)
    | none ↦ add_unless_empty rs (locate (api.from_load_address load_addr))
  ]

  -- `as u32 + 3`, wrapping as a release build does
  unfoldable pub line_num_by_address : DisassembledRange api → ℕ → ℕ
  unfolding partition_point
  line_num_by_address d load_addr =
      (partition_point (λ addr. ltb addr load_addr) d.instruction_addresses % 2 ^ 32 + 3) % 2 ^ 32

  abbrev or_panic : Option ℕ → Outcome ℕ
  or_panic none = panic
  or_panic (some a) = ok a

  -- `[line as usize - 3]`: below 3 the index is out of range, whether the subtraction wraps or traps
  unfoldable pub address_by_line_num : DisassembledRange api → ℕ → Outcome ℕ
  address_by_line_num d line =
      if ltb line 3 then panic else or_panic (get_elem? d.instruction_addresses (line - 3))

  unfoldable pub adapter_data : DisassembledRange api → AdapterData
  unfolding window_offsets
  adapter_data d = record {
    start = d.load_range.start;
    end = d.load_range.end;
    line_offsets = window_offsets d.instruction_addresses;
  }
