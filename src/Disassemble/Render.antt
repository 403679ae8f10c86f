-- ===== src/Disassemble/Render.antt =====
-- The entries of a `disassemble` response, and the request as a whole.
use vscode_lldb.Common.{
  ℕ, zero, suc, ◌+◌, ◌-◌, ◌*◌, ◌%◌, ◌^◌, Bool, true, false, Option, none, some, List, [], ◌∷◌, ◌++◌,
  ◌==◌, if◌then◌else◌, length, take, drop,
}
use Prim.Native.Nat.{min}
use mathlib.Core.Option
use vscode_lldb.Common.Int.{ℤ, pos, ◌+ℤ◌, pos_part, neg_part, as_u64, ltb_ℤ, wrap_i64}
use vscode_lldb.Common.Outcome.{Outcome, ok, err, ◌>>=◌, or_err}
use vscode_lldb.Common.Text.{Text, codes, hex, pad_zero, pad_right}
use vscode_lldb.Disassembly.{AddressRange}
use vscode_lldb.Disassembly.Listing.{dump_bytes}
use vscode_lldb.Disassemble.{
  DisassembleApi, DisassembleArguments, Instructions, Decoded, instruction, byte, Shown, shown,
  invalid_memory, read_memory, disassemble_bytes, max_instruction_bytes, u64_max,
}
use vscode_lldb.Disassemble.Window.{window}

-- `Source`, with the fields that are set here
pub record Source : Type 0 where
  pub name : Text
  pub path : Option Text

pub record DisassembledInstruction : Type 0 where
  pub address : Text
  pub instruction_bytes : Text
  pub instruction : Text
  pub line : Option ℕ
  pub column : Option ℕ
  pub location : Option Source
  pub symbol : Option Text
  pub is_invalid : Bool

abbrev pub address_text : ℕ → Text
address_text a = codes "0x" ++ hex true a

-- `invalid_memory`, and the entry for a byte that does not decode
unfoldable pub invalid_entry : ℕ → Text → Text → DisassembledInstruction
invalid_entry addr bytes text = record {
  address = address_text addr;
  instruction_bytes = bytes;
  instruction = text;
  line = none;
  column = none;
  location = none;
  symbol = none;
  is_invalid = true;
}

-- the index of the entry that starts at an address
unfoldable pub position {ℓ} : {I : Type ℓ} → ℕ → List (AddressRange × Decoded I) → Option ℕ
position base_addr [] = none
position base_addr ((range, d) ∷ rest) =
    if range.start == base_addr then some 0 else Option.map suc (position base_addr rest)

module _ (api : DisassembleApi) where
  -- the location is given where the line entry differs from the last one, and only then
  abbrev location_of : Option api.LineEntry → api.LineEntry → Option Source
  location_of none le = none
  location_of (some last) le =
      if api.line_entry_ne last le
      then some (record { name = api.filename le; path = api.local_path le })
      else none

  abbrev location_at : Option api.LineEntry → Option api.LineEntry → Option Source
  location_at last none = none
  location_at last (some le) = location_of last le

  abbrev comment_sep : Text → Text
  comment_sep [] = []
  comment_sep (c ∷ cs) = codes "  ; "

  -- the loop body for a decoded instruction
  unfoldable pub render_instruction :
      Bool
      → ℕ
      → List ℕ
      → Option api.LineEntry
      → AddressRange
      → api.SBInstruction
      → DisassembledInstruction
  unfolding dump_bytes
  render_instruction resolve_symbols start_addr buffer last range i =
      let bytes = take (range.end - range.start) (drop (range.start - start_addr) buffer) in
      record {
        address = address_text range.start;
        instruction_bytes =
            pad_right (api.max_instr_bytes * 3 + 2) (dump_bytes api.max_instr_bytes 0 bytes);
        instruction =
            pad_right 6 (api.mnemonic i)
            ++ (b' ' ∷ (api.operands i ++ (comment_sep (api.comment i) ++ api.comment i)));
        line = Option.map api.line (api.line_entry i);
        column = Option.map api.column (api.line_entry i);
        location = location_at last (api.line_entry i);
        symbol = if resolve_symbols then api.symbol i else none;
        is_invalid = false;
      }

  -- the loop over the entries; `last` is `last_line_entry`
  unfoldable pub render :
      Bool
      → ℕ
      → List ℕ
      → Option api.LineEntry
      → List (Shown api.SBInstruction)
      → List DisassembledInstruction
  unfolding render_instruction invalid_entry
  render resolve start_addr buffer last [] = []
  render resolve start_addr buffer last (invalid_memory a ∷ rest) =
      invalid_entry a (codes "??") [] ∷ render resolve start_addr buffer last rest
  render resolve start_addr buffer last (shown range (byte b) ∷ rest) =
      invalid_entry range.start (pad_zero 2 (hex true b))
        (codes ".byte  " ++ pad_zero 2 (hex true b))
      ∷ render resolve start_addr buffer none rest
  render resolve start_addr buffer last (shown range (instruction i) ∷ rest) =
      render_instruction resolve start_addr buffer last range i
      ∷ render resolve start_addr buffer (api.line_entry i) rest

  -- What the search for the instruction stream leaves: where it starts, its bytes, its entries and
  -- the index of the base instruction.
  pub record Stream : Type 0 where
    pub start_addr : ℕ
    pub buffer : List ℕ
    pub instructions : Instructions api
    pub base_index : ℕ

  -- `for i in 0..min(bytes_per_instruction, buffer.len())`, from `i` on with `n` rounds left
  unfoldable pub find_stream : ℕ → ℕ → ℕ → ℕ → List ℕ → Outcome (Option Stream)
  unfolding position
  find_stream zero i base_addr start_addr buffer = ok none
  find_stream (suc n) i base_addr start_addr buffer =
      let again = find_stream n (i + 1) base_addr start_addr buffer in
      do
        instructions ← disassemble_bytes api ((start_addr + i) % 2 ^ 64) (drop i buffer)
        (elim (position base_addr instructions) [
          | none ↦ again
          | some base_index ↦ ok (
              some (record {
                start_addr = (start_addr + i) % 2 ^ 64;
                buffer = drop i buffer;
                instructions = instructions;
                base_index = base_index;
              }))
        ])

  abbrev pub failed_at : ℕ → Text
  failed_at base_addr =
      codes "Failed to disassemble memory at " ++ (address_text base_addr ++ codes ".")

  abbrev pub offset_base : Option ℤ → ℕ → ℕ
  offset_base none base = base
  offset_base (some offset) base = (base + as_u64 offset) % 2 ^ 64

  abbrev pub or_zero : Option ℤ → ℤ
  or_zero none = pos 0
  or_zero (some i) = i

  abbrev pub or_true : Option Bool → Bool
  or_true none = true
  or_true (some b) = b

  -- The addresses of the memory that is read: enough for the instructions asked for on both sides
  -- of the base, each as long as can be.
  unfoldable pub memory_range : ℕ → ℤ → ℤ → AddressRange
  memory_range base_addr instruction_offset instruction_count =
      let num_before = neg_part instruction_offset in
      let num_after = pos_part (wrap_i64 (instruction_count +ℤ instruction_offset)) in
      let n = max_instruction_bytes api.triple in
      record {
        start = base_addr - num_before * n % 2 ^ 64;
        end = min u64_max (base_addr + num_after * n % 2 ^ 64);
      }

  -- the part of the handler behind the search
  unfoldable pub respond : Bool → ℤ → ℤ → Stream → Outcome (List DisassembledInstruction)
  unfolding render
  respond resolve instruction_offset instruction_count s = do
    entries ←
        window s.start_addr ((s.start_addr + length s.buffer) % 2 ^ 64) s.instructions s.base_index
          instruction_offset instruction_count
    ok (render resolve s.start_addr s.buffer none entries)

  abbrev pub or_failed : ℕ → Option Stream → Outcome Stream
  or_failed base_addr none = err (failed_at base_addr)
  or_failed base_addr (some s) = ok s

  -- the part of the handler behind the checks of its arguments
  unfoldable pub disassemble_at : Bool → ℤ → ℤ → ℕ → Outcome (List DisassembledInstruction)
  disassemble_at resolve instruction_offset instruction_count base_addr =
      let range = memory_range base_addr instruction_offset instruction_count in
      let (start, buffer) = read_memory api range.start (range.end - range.start) in
      let rounds = min (max_instruction_bytes api.triple) (length buffer) in
      do
        found ← find_stream rounds 0 base_addr start buffer
        stream ← or_failed base_addr found
        respond resolve instruction_offset instruction_count stream

  unfoldable pub handle_disassemble : DisassembleArguments → Outcome (List DisassembledInstruction)
  handle_disassemble args = do
    parsed ← or_err (codes "invalid memory reference") (api.parse_u64 args.memory_reference)
    let base_addr = offset_base args.offset parsed
    let instruction_offset = or_zero args.instruction_offset
    if ltb_ℤ args.instruction_count (pos 0)
        then err (codes "Invalid instruction_count")
        else disassemble_at (or_true args.resolve_symbols) instruction_offset args.instruction_count
            base_addr
