-- ===== src/Session/Memory/Access.antt =====
-- Reads of memory stay within its regions.
use vscode_lldb.Common.{
  ℕ, ◌+◌, ◌-◌, ◌^◌, ◌≤◌, ◌<◌, ◌≡◌, ◌⊎◌, inl, inr, refl, sym, ap, Bool, true, false, Option, none,
  some, List, if◌then◌else◌, length, arith,
}
use Prim.Native.Nat.{min}
use vscode_lldb.Common.Int.{ℤ, pos, as_u64, wrap_i64_id}
use vscode_lldb.Common.Outcome.{ok}
use vscode_lldb.Session.Memory.{
  RegionInfo, MemoryApi, ReadMemoryArguments, ReadMemoryResponseBody, address_of, address_text,
  sub_u64, read_response, read_region, unreadable, handle_read_memory,
}

module _ (api : MemoryApi) where
  -- What is read of the process: liblldb returns no more than it is asked for, and a region reaches
  -- behind each of its addresses.
  pub record IsSound (process : api.SBProcess) : Type 0 where
    pub reads_at_most :
        (address n : ℕ) (bytes : List ℕ)
        → api.read_memory address n process ≡ some bytes
        → length bytes ≤ n
    pub region_contains :
        (address : ℕ) (region : RegionInfo)
        → api.memory_region_info address process ≡ some region
        → (address < region.region_end) × (region.region_end < 2 ^ 64)

  -- liblldb gives `o` for a read of `n` bytes at the address that ends with the region there, if the
  -- region can be read at all.
  pub record Gives (n address : ℕ) (process : api.SBProcess) (o : Option (List ℕ)) : Type 0 where
    pub region : RegionInfo
    pub found : api.memory_region_info address process ≡ some region
    pub readable : region.is_readable ≡ true
    pub reads : api.read_memory address (min n (region.region_end - address)) process ≡ o

  -- A response for `n` bytes at an address: the bytes that liblldb gives, which end within the region
  -- and within the `n`, and the number of those that are missing; or no bytes at all, where there is
  -- no region, or one that cannot be read, or where liblldb fails the read.
  abbrev pub AccountsFor : ℕ → ℕ → api.SBProcess → ReadMemoryResponseBody → Type 0
  AccountsFor n address process r =
      (r.address ≡ address_text address)
      × (((bytes : List ℕ) × (missing : ℕ) × (g : Gives n address process (some bytes)) × (r.bytes
              ≡ some (api.encode bytes))
            × (r.unreadable_bytes ≡ some (pos missing))
            × (length bytes + missing ≡ n)
            × (address + length bytes ≤ g.region.region_end))
          ⊎ (((api.memory_region_info address process ≡ none)
                ⊎ (((region : RegionInfo) × (api.memory_region_info address process ≡ some region)
                      × (region.is_readable ≡ false))
                    ⊎ Gives n address process none))
              × (r.bytes ≡ none)
              × (r.unreadable_bytes ≡ some (pos n))))

  read_response-AccountsFor :
      (n address : ℕ) (process : api.SBProcess) (region : RegionInfo) (o : Option (List ℕ))
      → IsSound process
      → n < 2 ^ 63
      → api.memory_region_info address process ≡ some region
      → region.is_readable ≡ true
      → api.read_memory address (min n (sub_u64 region.region_end address)) process ≡ o
      → AccountsFor n address process (read_response api address (pos n) o)
  read_response-AccountsFor n address process region none s small e readable r =
      let (inside, bounded) = s.region_contains address region e in
      let left : sub_u64 region.region_end address ≡ region.region_end - address = omega arith in
      (
        refl,
        inr (
          inr (
              inr
                (record { region = region; found = e; readable = readable; reads = rw left at r })),
          refl,
          refl,
        ),
      )
  read_response-AccountsFor n address process region (some bytes) s small e readable r =
      let (inside, bounded) = s.region_contains address region e in
      let most = s.reads_at_most address (min n (sub_u64 region.region_end address)) bytes r in
      let left : sub_u64 region.region_end address ≡ region.region_end - address = omega arith in
      let count : as_u64 (pos n) ≡ n = omega arith in
      let missing : sub_u64 (as_u64 (pos n)) (length bytes) ≡ n - length bytes = ground arith in
      (
        refl,
        inl (
          bytes,
          n - length bytes,
          record { region = region; found = e; readable = readable; reads = rw left at r },
          refl,
          rw missing (ap some (wrap_i64_id (pos (n - length bytes)) (omega arith) (omega arith))),
          ground arith,
          ground arith,
        ),
      )

  read_readable-AccountsFor :
      (n address : ℕ) (process : api.SBProcess) (region : RegionInfo) (b : Bool)
      → IsSound process
      → n < 2 ^ 63
      → api.memory_region_info address process ≡ some region
      → region.is_readable ≡ b
      → AccountsFor n address process (
          if b
          then read_response api address (pos n) (
              api.read_memory address
                (min (as_u64 (pos n)) (sub_u64 region.region_end address))
                process)
          else unreadable api address (pos n))
  read_readable-AccountsFor n address process region false s small e closed =
      (refl, inr (inr (inl (region, e, closed)), refl, refl))
  read_readable-AccountsFor n address process region true s small e readable =
      let as_count : as_u64 (pos n) ≡ n = omega arith in
      read_response-AccountsFor n address process region
        (api.read_memory address (min (as_u64 (pos n)) (sub_u64 region.region_end address)) process)
        s small e readable
        (ap (λ k. api.read_memory address (min k (sub_u64 region.region_end address)) process)
          (sym as_count))

  read_region-AccountsFor :
      (n address : ℕ) (process : api.SBProcess) (o : Option RegionInfo)
      → IsSound process
      → n < 2 ^ 63
      → api.memory_region_info address process ≡ o
      → AccountsFor n address process (read_region api address (pos n) o process)
  read_region-AccountsFor n address process none s small e = (refl, inr (inl e, refl, refl))
  read_region-AccountsFor n address process (some region) s small e =
      read_readable-AccountsFor n address process region region.is_readable s small e refl

  -- A read of `n` bytes, from memory that liblldb describes soundly, succeeds, with the address asked
  -- for. It gives the bytes that liblldb reads from that address on, up to the `n` or the end of
  -- the memory region there, and the number of those that are missing from `n`; only where
  -- there is no region, where it cannot be read, or where liblldb fails that read does it give no bytes
  -- and say that all `n` are missing.
  pub handle_read_memory_lem :
      (args : ReadMemoryArguments) (mem_ref : ℤ) (n : ℕ) (process : api.SBProcess)
      → IsSound process
      → api.parse_i64 args.memory_reference ≡ some mem_ref
      → args.count ≡ pos n
      → n < 2 ^ 63
      → (r : ReadMemoryResponseBody) × (handle_read_memory api args process ≡ ok r)
        × AccountsFor n (address_of mem_ref args.offset) process r
  unfolding handle_read_memory
  handle_read_memory_lem args mem_ref n process s parsed counted small =
      let address = address_of mem_ref args.offset in
      (
        read_region api address (pos n) (api.memory_region_info address process) process,
        rw (parsed, counted) refl,
        read_region-AccountsFor n address process (api.memory_region_info address process) s small
            refl,
      )
