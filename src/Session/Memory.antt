-- ===== src/Session/Memory.antt =====
-- `handle_read_memory` and `handle_write_memory`. The memory of the process, `parse_int` and `base64`
-- are the parameter `MemoryApi`.
pub mod Access
pub mod Writes
use vscode_lldb.Common.{
  ℕ, suc, ◌+◌, ◌-◌, ◌%◌, ◌^◌, ◌≤◌, ◌<◌, ◌≡◌, ◌≢◌, ◌⊎◌, inl, inr, refl, sym, ap, ◌∙◌, Bool, true,
  false, not, ◌&&◌, ◌||◌, Option, none, some, List, [], ◌∷◌, ◌++◌, ltb, ◌==◌, if◌then◌else◌, length,
  arith, Bool-cases, Option-cases,
}
use Prim.Native.Nat.{min}
use mathlib.Core.Option
use vscode_lldb.Common.Int.{ℤ, pos, negsuc, ◌+ℤ◌, as_u64, wrap_i64, wrap_i64_id}
use vscode_lldb.Common.Outcome.{Outcome, ok, err, ◌>>=◌, or_err}
use vscode_lldb.Common.Text.{Text, codes, hex, decimal, pad_zero}

pub record RegionInfo : Type 0 where
  pub is_readable : Bool
  pub is_writable : Bool
  pub region_end : ℕ

pub record MemoryApi : Type 1 where
  pub SBProcess : Type 0
  pub memory_region_info : ℕ → SBProcess → Option RegionInfo
  -- at most so many bytes from an address on
  pub read_memory : ℕ → ℕ → SBProcess → Option (List ℕ)
  -- how many bytes have been written
  pub write_memory : ℕ → List ℕ → SBProcess → Option ℕ × SBProcess
  pub parse_i64 : Text → Option ℤ
  pub encode : List ℕ → Text
  pub decode : Text → Option (List ℕ)

pub record ReadMemoryArguments : Type 0 where
  pub memory_reference : Text
  pub offset : Option ℤ
  pub count : ℤ

pub record ReadMemoryResponseBody : Type 0 where
  pub address : Text
  pub unreadable_bytes : Option ℤ
  pub bytes : Option Text

pub record WriteMemoryArguments : Type 0 where
  pub memory_reference : Text
  pub offset : Option ℤ
  pub bytes : Text
  pub allow_partial : Option Bool

abbrev pub or_zero : Option ℤ → ℤ
or_zero none = pos 0
or_zero (some i) = i

abbrev pub or_false : Option Bool → Bool
or_false none = false
or_false (some b) = b

-- `(mem_ref + offset) as lldb::Address`
abbrev pub address_of : ℤ → Option ℤ → ℕ
address_of mem_ref offset = as_u64 (wrap_i64 (mem_ref +ℤ or_zero offset))

-- subtraction on `u64`
abbrev pub sub_u64 : ℕ → ℕ → ℕ
sub_u64 a b = (a + 2 ^ 64 - b) % 2 ^ 64

abbrev pub address_text : ℕ → Text
address_text address = codes "0x" ++ hex true address

module _ (api : MemoryApi) where
  -- nothing can be read
  abbrev pub unreadable : ℕ → ℤ → ReadMemoryResponseBody
  unreadable address count = record {
    address = address_text address;
    unreadable_bytes = some count;
    bytes = none;
  }

  abbrev pub read_response : ℕ → ℤ → Option (List ℕ) → ReadMemoryResponseBody
  read_response address count none = unreadable address count
  read_response address count (some bytes) = record {
    address = address_text address;
    unreadable_bytes = some (wrap_i64 (pos (sub_u64 (as_u64 count) (length bytes))));
    bytes = some (api.encode bytes);
  }

  abbrev pub read_region : ℕ → ℤ → Option RegionInfo → api.SBProcess → ReadMemoryResponseBody
  read_region address count none process = unreadable address count
  read_region address count (some region) process =
      if region.is_readable
      then read_response address count
          (api.read_memory address (min (as_u64 count) (sub_u64 region.region_end address)) process)
      else unreadable address count

  unfoldable pub handle_read_memory :
      ReadMemoryArguments → api.SBProcess → Outcome ReadMemoryResponseBody
  handle_read_memory args process = do
    mem_ref ← or_err (codes "invalid memory reference") (api.parse_i64 args.memory_reference)
    let address = address_of mem_ref args.offset
    ok (read_region address args.count (api.memory_region_info address process) process)

  abbrev pub refusal : ℕ → ℕ → Text
  refusal n address =
      codes "Cannot write " ++ (decimal n ++ (codes " bytes at " ++ pad_zero 8 (hex true address)))

  -- the end of the handler where nothing has been written
  abbrev pub not_written : Bool → ℕ → ℕ → Outcome ℕ
  not_written allow_partial n address = if allow_partial then ok 0 else err (refusal n address)

  abbrev pub written : Bool → ℕ → ℕ → Option ℕ → Outcome ℕ
  written allow_partial n address none = not_written allow_partial n address
  written allow_partial n address (some m) = ok m

  -- whether the write is tried
  abbrev pub is_allowed : Bool → ℕ → ℕ → Option RegionInfo → Bool
  is_allowed allow_partial n address none = false
  is_allowed allow_partial n address (some region) =
      region.is_writable && (allow_partial || min n (sub_u64 region.region_end address) == n)

  -- the part of the handler behind the reading of its arguments
  unfoldable pub write_bytes : Bool → List ℕ → ℕ → api.SBProcess → Outcome ℕ × api.SBProcess
  write_bytes allow_partial bytes address process =
      let (result, process') = api.write_memory address bytes process in
      if is_allowed allow_partial (length bytes) address (api.memory_region_info address process)
      then (written allow_partial (length bytes) address result, process')
      else (not_written allow_partial (length bytes) address, process)

  abbrev write_decoded : Bool → ℕ → Option (List ℕ) → api.SBProcess → Outcome ℕ × api.SBProcess
  write_decoded allow_partial address none process = (err (codes "invalid base64"), process)
  write_decoded allow_partial address (some bytes) process =
      write_bytes allow_partial bytes address process

  abbrev write_parsed : WriteMemoryArguments → Option ℤ → api.SBProcess → Outcome ℕ × api.SBProcess
  write_parsed args none process = (err (codes "invalid memory reference"), process)
  write_parsed args (some mem_ref) process =
      write_decoded (or_false args.allow_partial) (address_of mem_ref args.offset)
        (api.decode args.bytes) process

  -- the number of bytes written, as the response has it
  unfoldable pub handle_write_memory :
      WriteMemoryArguments → api.SBProcess → Outcome ℕ × api.SBProcess
  unfolding write_bytes
  handle_write_memory args process = write_parsed args (api.parse_i64 args.memory_reference) process
