-- ===== src/Session/Memory/Writes.antt =====
-- Writes of memory: when one is tried, and what the answer is.
use vscode_lldb.Common.{
  ℕ, ◌+◌, ◌-◌, ◌^◌, ◌≤◌, ◌<◌, ◌≡◌, ◌⊎◌, inl, inr, refl, sym, ap, subst, ◌∙◌, Bool, true, false,
  Option, none, some, List, length, arith, Bool-cases,
}
use vscode_lldb.Common.Int.{ℤ}
use vscode_lldb.Common.Outcome.{Outcome, ok, err}
use vscode_lldb.Session.Memory.{
  RegionInfo, MemoryApi, WriteMemoryArguments, address_of, or_false, refusal, write_bytes, sub_u64,
  is_allowed, not_written, written, handle_write_memory,
}
use vscode_lldb.Session.Memory.Access.{IsSound}

module _ (api : MemoryApi) where
  -- the answer to a write of so many bytes of which none has been written
  abbrev pub IsRefusal : Bool → ℕ → ℕ → Outcome ℕ → Type 0
  IsRefusal partial n address o =
      (partial ≡ true → o ≡ ok 0) × (partial ≡ false → o ≡ err (refusal api n address))

  -- liblldb has been handed all the bytes, and its count is the answer, if it gives one.
  pub record Tried (partial : Bool) (bytes : List ℕ) (address : ℕ) (process : api.SBProcess)
      (o : Outcome ℕ) (process' : api.SBProcess) : Type 0 where
    pub region : RegionInfo
    pub found : api.memory_region_info address process ≡ some region
    pub writable : region.is_writable ≡ true
    pub fits : partial ≡ false → address + length bytes ≤ region.region_end
    pub effect : process' ≡ (api.write_memory address bytes process).1
    pub counted : (m : ℕ) → (api.write_memory address bytes process).0 ≡ some m → o ≡ ok m
    pub refused :
        (api.write_memory address bytes process).0 ≡ none
        → IsRefusal partial (length bytes) address o

  -- There is nowhere to write to, or not enough room.
  pub record NotTried (partial : Bool) (bytes : List ℕ) (address : ℕ) (process : api.SBProcess)
      (o : Outcome ℕ) (process' : api.SBProcess) : Type 0 where
    pub reason :
        (region : RegionInfo)
        → api.memory_region_info address process ≡ some region
        → region.is_writable ≡ true
        → (partial ≡ false) × (region.region_end < address + length bytes)
    pub same : process' ≡ process
    pub refused : IsRefusal partial (length bytes) address o

  not_written-IsRefusal :
      (partial : Bool) (n address : ℕ)
      → IsRefusal partial n address (not_written api partial n address)
  not_written-IsRefusal true n address = (λ e. refl, λ e. cc e)
  not_written-IsRefusal false n address = (λ e. cc e, λ e. refl)

  written-Tried :
      (partial : Bool) (bytes : List ℕ) (address : ℕ) (process : api.SBProcess)
      (region : RegionInfo) (result : Option ℕ)
      → api.memory_region_info address process ≡ some region
      → region.is_writable ≡ true
      → (partial ≡ false → address + length bytes ≤ region.region_end)
      → (api.write_memory address bytes process).0 ≡ result
      → Tried partial bytes address process
          (written api partial (length bytes) address result)
          (api.write_memory address bytes process).1
  written-Tried partial bytes address process region none found writable fits e = record {
    region = region;
    found = found;
    writable = writable;
    fits = fits;
    effect = refl;
    counted = λ m h. cc (e, h);
    refused = λ h. not_written-IsRefusal partial (length bytes) address;
  }
  written-Tried partial bytes address process region (some k) found writable fits e = record {
    region = region;
    found = found;
    writable = writable;
    fits = fits;
    effect = refl;
    counted = λ m h. cc (e, h);
    refused = λ h. cc (e, h);
  }

  -- whether a write is tried, of a region in which the address lies
  is_allowed-lem :
      (partial : Bool) (n address : ℕ) (region : RegionInfo)
      → address < region.region_end
      → region.region_end < 2 ^ 64
      → (is_allowed api partial n address (some region) ≡ true
          → (region.is_writable ≡ true) × (partial ≡ false → address + n ≤ region.region_end))
        × (is_allowed api partial n address (some region) ≡ false
            → region.is_writable ≡ true
            → (partial ≡ false) × (region.region_end < address + n))
  is_allowed-lem partial n address region inside bounded =
      let left : sub_u64 region.region_end address ≡ region.region_end - address = omega arith in
      (
        λ h. (ground (arith, h), λ p. ground (arith, h, p, left)),
        λ h w. (ground (arith, h, w), ground (arith, h, w, left)),
      )

  write_bytes-lem :
      (partial : Bool) (bytes : List ℕ) (address : ℕ) (process : api.SBProcess)
      (o : Option RegionInfo)
      → IsSound api process
      → api.memory_region_info address process ≡ o
      → let done = write_bytes api partial bytes address process in
        Tried partial bytes address process done.0 done.1
        ⊎ NotTried partial bytes address process done.0 done.1
  unfolding write_bytes
  write_bytes-lem partial bytes address process none s e = rw e (
      inr (record {
        reason = λ region found. cc (e, found);
        same = refl;
        refused = not_written-IsRefusal partial (length bytes) address;
      }))
  write_bytes-lem partial bytes address process (some region) s e =
      let (inside, bounded) = s.region_contains address region e in
      let (tried, not_tried) =
        is_allowed-lem partial (length bytes) address region inside bounded in
      let now : is_allowed api partial (length bytes) address
            (api.memory_region_info address process)
          ≡ is_allowed api partial (length bytes) address (some region) =
        ap (is_allowed api partial (length bytes) address) e in
      elim (Bool-cases (is_allowed api partial (length bytes) address (some region))) [
        | inl yes' ↦
            let (writable, fits) = tried yes' in
            rw (now ∙ yes') (
              inl (
                written-Tried partial bytes address process region
                  (api.write_memory address bytes process).0 e writable fits refl))
        | inr no' ↦ rw (now ∙ no') (
            inr (record {
              reason = λ other found w.
                  let same : region ≡ other = cc (e, found) in
                  subst
                    (λ (x : RegionInfo).
                      (partial ≡ false) × (x.region_end < address + length bytes))
                    same
                    (not_tried no' (subst (λ (x : RegionInfo). x.is_writable ≡ true) (sym same) w));
              same = refl;
              refused = not_written-IsRefusal partial (length bytes) address;
            }))
      ]

  -- A write, to memory that liblldb describes soundly, is tried exactly where the address lies in a
  -- writable region, and without `allow_partial` only where all the bytes fit into it. If it is tried,
  -- all the bytes are handed to liblldb, with `allow_partial` also those that lie behind the region's
  -- end, and the number that liblldb reports is the answer. If it is not tried the process is as it
  -- was. If it is not tried or liblldb fails it, the answer is an error without `allow_partial`, and
  -- with it success with no bytes written.
  pub handle_write_memory_lem :
      (args : WriteMemoryArguments) (mem_ref : ℤ) (bytes : List ℕ) (process : api.SBProcess)
      → IsSound api process
      → api.parse_i64 args.memory_reference ≡ some mem_ref
      → api.decode args.bytes ≡ some bytes
      → let address = address_of mem_ref args.offset in
        let partial = or_false args.allow_partial in
        let done = handle_write_memory api args process in
        Tried partial bytes address process done.0 done.1
        ⊎ NotTried partial bytes address process done.0 done.1
  unfolding handle_write_memory
  handle_write_memory_lem args mem_ref bytes process s parsed decoded =
      let address = address_of mem_ref args.offset in
      rw (parsed, decoded)
        (write_bytes-lem (or_false args.allow_partial) bytes address process
          (api.memory_region_info address process) s refl)
