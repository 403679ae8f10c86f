-- ===== src/Disassemble/Tests.antt =====
-- Runs and instances, over a memory of one-byte instructions of which only the lowest is readable.
use vscode_lldb.Common.{
  ℕ, ◌+◌, ◌≤◌, ◌<◌, ◌≡◌, inl, inr, refl, true, false, Option, none, some, List, [], ◌∷◌, ◌++◌, All,
  arith, ltb, if◌then◌else◌, length, replicate, length-replicate, Bool-cases,
}
use Prim.Native.Nat.{min}
use vscode_lldb.Common.Int.{pos, negsuc, ◌+ℤ◌, wrap_i64}
use vscode_lldb.Common.Text.{codes, hex, pad_right, pad_zero}
use vscode_lldb.Common.Outcome.{ok, panic}
use vscode_lldb.Disassembly.{AddressRange}
use vscode_lldb.Disassemble.{
  DisassembleApi, DisassembleArguments, Instructions, Decoded, instruction, byte, partition_point,
  read_memory, disassemble_bytes, max_instruction_bytes,
}
use vscode_lldb.Disassemble.Bytes.{total_size, Tiles, DecodesWithin, disassemble_bytes-Tiles}
use vscode_lldb.Disassemble.Render.{
  DisassembledInstruction, handle_disassemble, disassemble_at, find_stream, memory_range, respond,
}
use vscode_lldb.Disassemble.Request.{ReadsSmall, Answers, handle_disassemble_lem}
use vscode_lldb.Disassemble.Window.{AreSmall, window, window_panics}

abbrev reads : (ℕ → ℕ → Option (List ℕ)) → DisassembleApi
reads read = record {
  SBInstruction = ℕ;
  LineEntry = ℕ;
  get_instructions =
      λ base buffer. elim buffer [ [] ↦ [] | b ∷ bs ↦ if ltb b 128 then b ∷ [] else [] ];
  byte_size = λ i. 1;
  mnemonic = λ i. codes "nop";
  operands = λ i. [];
  comment = λ i. [];
  symbol = λ i. none;
  line_entry = λ i. none;
  line_entry_ne = λ a b. false;
  line = λ l. l;
  column = λ l. 0;
  filename = λ l. [];
  local_path = λ l. none;
  read_memory = read;
  triple = codes "x86_64-pc-linux";
  parse_u64 = λ s. some 64;
  max_instr_bytes = 8;
}

-- all addresses can be read, though fewer bytes than asked for
abbrev memory : DisassembleApi
memory = reads (λ a n. some (replicate (min n 200) 7))

-- addresses below 100 cannot be read
abbrev upper_memory : DisassembleApi
upper_memory = reads (λ a n. if ltb a 100 then none else some (replicate (min n 200) 7))

partition_point_runs : partition_point (record { start = 10; end = 100 }) (λ a. ltb a 42) ≡ 42
unfolding partition_point
partition_point_runs = refl

memory-positive :
    (base : ℕ) (buffer : List ℕ)
    → All (λ i. 0 < memory.byte_size i) (memory.get_instructions base buffer)
memory-positive base [] = tt
memory-positive base (b ∷ bs) = elim (Bool-cases (ltb b 128)) [
  | inl low ↦ rw low (omega arith)
  | inr high ↦ rw high tt
]

memory-within :
    (base : ℕ) (buffer : List ℕ)
    → total_size memory (memory.get_instructions base buffer) ≤ length buffer
memory-within base [] = omega arith
memory-within base (b ∷ bs) = elim (Bool-cases (ltb b 128)) [
  | inl low ↦ rw low (omega arith)
  | inr high ↦ rw high (omega arith)
]

memory-DecodesWithin : DecodesWithin memory
memory-DecodesWithin = record { positive = memory-positive; within = memory-within }

disassemble_bytes-Tiles_example :
    (entries : Instructions memory) × (disassemble_bytes memory 64 (7 ∷ 200 ∷ 7 ∷ []) ≡ ok entries)
    × Tiles memory 64 entries (64 + 3)
disassemble_bytes-Tiles_example =
    disassemble_bytes-Tiles memory memory-DecodesWithin 64 (7 ∷ 200 ∷ 7 ∷ []) (omega arith)

memory-ReadsSmall : ReadsSmall memory memory-DecodesWithin
unfolding read_memory
memory-ReadsSmall = record {
  below_end = λ a n h. omega (arith, length-replicate {A = ℕ} (min n 200) 7);
  short = λ a n. omega (arith, length-replicate {A = ℕ} (min n 200) 7);
}

abbrev arguments : DisassembleArguments
arguments = record {
  memory_reference = codes "0x40";
  offset = none;
  instruction_offset = some (negsuc 0);
  instruction_count = pos 2;
  resolve_symbols = none;
}

abbrev entry : ℕ → DisassembledInstruction
entry a = record {
  address = codes "0x" ++ hex true a;
  instruction_bytes = codes "07                        ";
  instruction = codes "nop    ";
  line = none;
  column = none;
  location = none;
  symbol = none;
  is_invalid = false;
}

response : handle_disassemble memory arguments ≡ ok (entry 63 ∷ entry 64 ∷ [])
unfolding handle_disassemble disassemble_at find_stream max_instruction_bytes read_memory
    memory_range wrap_i64 ◌+ℤ◌ disassemble_bytes respond window pad_right pad_zero hex
response = refl

handle_disassemble_lem_example :
    Answers memory memory-DecodesWithin (negsuc 0) (pos 2) 64 (entry 63 ∷ entry 64 ∷ [])
handle_disassemble_lem_example =
    handle_disassemble_lem memory memory-DecodesWithin arguments 64 (entry 63 ∷ entry 64 ∷ [])
      memory-ReadsSmall
      (record { offset_above = omega arith; offset_below = omega arith; requested = omega arith })
      refl (omega arith) response

abbrev decoded : List (AddressRange × Decoded ℕ)
decoded =
    (record { start = 64; end = 65 }, instruction 7)
    ∷ (record { start = 65; end = 66 }, instruction 7)
    ∷ (record { start = 66; end = 67 }, byte 200)
    ∷ []

decoded-AreSmall : AreSmall decoded 1 (negsuc 0) (pos 2)
decoded-AreSmall = record {
  base = omega arith;
  count = omega arith;
  offset_above = omega arith;
  offset_below = omega arith;
  requested = omega arith;
  nonneg = refl;
}

window_panics_example : window 64 67 decoded 1 (pos 1) (pos 2) ≡ panic
unfolding ◌+ℤ◌
window_panics_example =
    window_panics decoded 1 (pos 1) (pos 2)
      (record {
        base = omega arith;
        count = omega arith;
        offset_above = omega arith;
        offset_below = omega arith;
        requested = omega arith;
        nonneg = refl;
      })
      64 67 (inl (omega arith))
