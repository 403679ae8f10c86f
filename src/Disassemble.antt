-- ===== src/Disassemble.antt =====
-- src/codelldb/src/debug_session/disassemble.rs: the `disassemble` request. What liblldb, its
-- bindings, `parse_int` and the rest of the session answer is the parameter `DisassembleApi`.
pub mod Partition
pub mod Memory
pub mod Bytes
pub mod Window
pub mod Render
pub mod Request
mod Tests
use vscode_lldb.Common.{
  ℕ, zero, suc, ◌+◌, ◌-◌, ◌*◌, ◌/◌, ◌%◌, ◌^◌, ◌≡◌, Bool, true, false, not, ◌||◌, Option, none, some,
  List, [], ◌∷◌, ◌++◌, ltb, leb, ◌==◌, if◌then◌else◌, length, take, drop,
}
use vscode_lldb.Common.Int.{ℤ, pos, negsuc, ◌+ℤ◌, pos_part, neg_part, as_u64, ltb_ℤ, wrap_i64}
use vscode_lldb.Common.Outcome.{Outcome, ok, err, panic, out_of_fuel, ◌>>=◌}
use vscode_lldb.Common.Text.{Text, codes, starts_with}
use vscode_lldb.Disassembly.{AddressRange}

abbrev pub u64_max : ℕ
u64_max = 2 ^ 64 - 1

pub record DisassembleApi : Type 1 where
  pub SBInstruction : Type 0
  pub LineEntry : Type 0
  pub get_instructions : ℕ → List ℕ → List SBInstruction
  pub byte_size : SBInstruction → ℕ
  pub mnemonic : SBInstruction → Text
  pub operands : SBInstruction → Text
  pub comment : SBInstruction → Text
  pub symbol : SBInstruction → Option Text
  pub line_entry : SBInstruction → Option LineEntry
  pub line_entry_ne : LineEntry → LineEntry → Bool
  pub line : LineEntry → ℕ
  pub column : LineEntry → ℕ
  pub filename : LineEntry → Text
  pub local_path : LineEntry → Option Text
  pub read_memory : ℕ → ℕ → Option (List ℕ)
  pub triple : Text
  pub parse_u64 : Text → Option ℕ
  pub max_instr_bytes : ℕ

pub record DisassembleArguments : Type 0 where
  pub memory_reference : Text
  pub offset : Option ℤ
  pub instruction_offset : Option ℤ
  pub instruction_count : ℤ
  pub resolve_symbols : Option Bool

-- An entry of the instruction list: a decoded instruction, or a byte that does not decode.
pub data Decoded {ℓ} (I : Type ℓ) : Type ℓ where
  instruction : I → Decoded I
  byte : ℕ → Decoded I

-- What an entry of the response shows.
pub data Shown {ℓ} (I : Type ℓ) : Type ℓ where
  shown : AddressRange → Decoded I → Shown I
  invalid_memory : ℕ → Shown I

-- The loop of `partition_point`. An interval of less than 2 ^ fuel addresses is empty when the fuel
-- is used up, so the test `low < high` need not be made there.
pub bisect : ℕ → (ℕ → Bool) → ℕ → ℕ → ℕ
bisect zero pred low high = low
bisect (suc fuel) pred low high =
    let mid : ℕ = low + (high - low) / 2 in
    let right : ℕ = bisect fuel pred (mid + 1) high in
    let left : ℕ = bisect fuel pred low mid in
    if ltb low high then (if pred mid then right else left) else low

unfoldable pub partition_point : AddressRange → (ℕ → Bool) → ℕ
unfolding bisect
partition_point range pred = bisect 64 pred range.start range.end

abbrev pub is_none {ℓ} : {A : Type ℓ} → Option A → Bool
is_none none = true
is_none (some a) = false

abbrev pub or_empty : Option (List ℕ) → List ℕ
or_empty none = []
or_empty (some bytes) = bytes

-- the part of a text before the first `-`
pub before_dash : Text → Text
before_dash [] = []
before_dash (c ∷ cs) = if c == b'-' then [] else c ∷ before_dash cs

unfoldable pub max_instruction_bytes : Text → ℕ
unfolding before_dash starts_with
max_instruction_bytes triple =
    let arch = before_dash triple in
    if starts_with (codes "arm") arch
      || starts_with (codes "aarch64") arch
      || starts_with (codes "riscv") arch
    then 4
    else 16

module _ (api : DisassembleApi) where
  abbrev pub Instructions : Type 0
  Instructions = List (AddressRange × Decoded api.SBInstruction)

  -- What LLDB reads may be shorter than what was asked for; the buffer is cut to it.
  unfoldable pub read_memory : ℕ → ℕ → ℕ × List ℕ
  read_memory start_address count = elim (api.read_memory start_address count) [
    | some bytes ↦ (start_address, bytes)
    | none ↦
        let end : ℕ = (start_address + count) % 2 ^ 64 in
        let first_readable =
          partition_point (record { start = start_address; end = end })
            (λ addr. is_none (api.read_memory addr 1)) in
        (
          first_readable,
          or_empty (api.read_memory first_readable ((end + 2 ^ 64 - first_readable) % 2 ^ 64)),
        )
  ]

  -- the inner loop: the decoded entries, the address behind them and the bytes that are left
  unfoldable pub push_all :
      List api.SBInstruction → ℕ → List ℕ → Outcome (Instructions × ℕ × List ℕ)
  push_all [] base_addr buffer = ok ([], base_addr, buffer)
  push_all (instr ∷ rest) base_addr buffer =
      let size = api.byte_size instr in
      let next : ℕ = (base_addr + size) % 2 ^ 64 in
      if ltb (length buffer) size then panic else do
        (entries, behind, left) ← push_all rest next (drop size buffer)
        ok ((record { start = base_addr; end = next }, instruction instr) ∷ entries, behind, left)

  -- one round of the outer loop, on what LLDB decodes at `base_addr`; `again` is the rest of the loop
  unfoldable pub decode_round :
      (ℕ → List ℕ → Outcome Instructions)
      → List api.SBInstruction
      → ℕ
      → ℕ
      → List ℕ
      → Outcome Instructions
  decode_round again [] base_addr b bytes = do
    let next : ℕ = (base_addr + 1) % 2 ^ 64
    entries ← again next bytes
    ok ((record { start = base_addr; end = next }, byte b) ∷ entries)
  decode_round again (i ∷ is) base_addr b bytes = do
    (entries, behind, left) ← push_all (i ∷ is) base_addr (b ∷ bytes)
    more ← again behind left
    ok (entries ++ more)

  unfoldable pub decode_loop : ℕ → ℕ → List ℕ → Outcome Instructions
  decode_loop fuel base_addr [] = ok []
  decode_loop zero base_addr (b ∷ bytes) = out_of_fuel
  decode_loop (suc fuel) base_addr (b ∷ bytes) =
      decode_round (decode_loop fuel) (api.get_instructions base_addr (b ∷ bytes)) base_addr b bytes

  -- One round of fuel for each byte: every round takes at least one.
  unfoldable pub disassemble_bytes : ℕ → List ℕ → Outcome Instructions
  unfolding decode_loop decode_round push_all
  disassemble_bytes base_addr buffer = decode_loop (length buffer) base_addr buffer
