-- ===== src/Disassembly/Lines.antt =====
-- Line numbers of a listing: addresses to lines and back, and lines restored from `AdapterData`.
use vscode_lldb.Common.{
  ℕ, zero, suc, ◌+◌, ◌-◌, ◌%◌, ◌^◌, ◌≤◌, ◌<◌, ◌≡◌, ◌⊎◌, ◌↔◌, refl, ap, true, false, none, some,
  List, [], ◌∷◌, ◌++◌, arith, ltb, length, get_elem?, partition_point, partition_point-le,
  replicate,
}
use vscode_lldb.Common.Outcome.{ok, panic}
use vscode_lldb.Disassembly.{
  DisasmApi, DisassembledRange, window_offsets, scan_offsets, lines_from_adapter_data,
  line_num_by_address, address_by_line_num, or_panic, adapter_data,
}

-- Ascending addresses of 64 bits, each less than 2 ^ 32 above the one before.
abbrev pub IsAscending : ℕ → List ℕ → Type 0
IsAscending a [] = a < 2 ^ 64
IsAscending a (b ∷ rest) = (a < b) × (b < a + 2 ^ 32) × IsAscending b rest

ascending_lt : (a : ℕ) (rest : List ℕ) → IsAscending a rest → a < 2 ^ 64
ascending_lt a [] h = h
ascending_lt a (b ∷ rest) h = omega (arith, ascending_lt b rest h.2)

-- one address, restored from the one before
restored :
    (a b : ℕ)
    → a < b
    → b < a + 2 ^ 32
    → b < 2 ^ 64
    → (a + (b + 2 ^ 64 - a) % 2 ^ 64 % 2 ^ 32) % 2 ^ 64 ≡ b
restored a b h k l = omega arith

scan-window :
    (a : ℕ) (rest : List ℕ) → IsAscending a rest → scan_offsets a (window_offsets (a ∷ rest)) ≡ rest
unfolding scan_offsets window_offsets
scan-window a [] h = refl
scan-window a (b ∷ rest) h =
    let e = restored a b h.0 h.1 (ascending_lt b rest h.2) in rw (e, scan-window b rest h.2) refl

ascending_above :
    (a : ℕ) (rest : List ℕ) (i x : ℕ) → IsAscending a rest → get_elem? rest i ≡ some x → a < x
ascending_above a [] i x h k = cc
ascending_above a (b ∷ rest) zero x h k = ground arith
ascending_above a (b ∷ rest) (suc i) x h k = omega (arith, ascending_above b rest i x h.2 k)

partition_point-ascending :
    (a : ℕ) (rest : List ℕ) (i x : ℕ)
    → IsAscending a rest
    → get_elem? (a ∷ rest) i ≡ some x
    → partition_point (λ addr. ltb addr x) (a ∷ rest) ≡ i
unfolding partition_point
partition_point-ascending a rest zero x h k = ground arith
partition_point-ascending a [] (suc i) x h k = cc
partition_point-ascending a (b ∷ rest) (suc i) x h k =
    let above = ascending_above a (b ∷ rest) i x h k in
    let below : ltb a x ≡ true = ground arith in
    rw below (ap suc (partition_point-ascending b rest i x h.2 k))

get_elem?-none : (xs : List ℕ) (i : ℕ) → (get_elem? xs i ≡ none) ↔ (length xs ≤ i)
get_elem?-none [] i = ground arith
get_elem?-none (x ∷ xs) zero = ground arith
get_elem?-none (x ∷ xs) (suc i) = ground (arith, get_elem?-none xs i)

module _ {api : DisasmApi} where
  -- The instructions of a range have ascending addresses from the start of the range on.
  pub record IsListing (d : DisassembledRange api) (rest : List ℕ) : Type 0 where
    pub first : d.instruction_addresses ≡ d.load_range.start ∷ rest
    pub ascending : IsAscending d.load_range.start rest
    pub fits : length d.instruction_addresses + 3 < 2 ^ 32

  restored_lines :
      (d : DisassembledRange api) (rest : List ℕ)
      → IsListing d rest
      → lines_from_adapter_data (adapter_data api d) ≡ replicate 4 d.load_range.start ++ rest
  unfolding lines_from_adapter_data adapter_data
  restored_lines d rest h = rw h.first (
      ap (λ t. replicate 4 d.load_range.start ++ t)
        (scan-window d.load_range.start rest h.ascending))

  -- A line of an earlier session has the address that its range gives it: the lines restored from
  -- what `adapter_data` saves agree with `address_by_line_num`, from the first instruction's line on.
  pub lines-adapter_data :
      (d : DisassembledRange api) (rest : List ℕ) (line : ℕ)
      → IsListing d rest
      → 3 ≤ line
      → or_panic api (get_elem? (lines_from_adapter_data (adapter_data api d)) line)
        ≡ address_by_line_num api d line
  unfolding address_by_line_num
  lines-adapter_data d rest zero h k = absurd (omega arith)
  lines-adapter_data d rest (suc zero) h k = absurd (omega arith)
  lines-adapter_data d rest (suc (suc zero)) h k = absurd (omega arith)
  lines-adapter_data d rest (suc (suc (suc n))) h k =
      let e : suc (suc (suc n)) - 3 ≡ n = omega arith in
      let below : ltb (suc (suc (suc n))) 3 ≡ false = ground arith in
      rw (restored_lines d rest h, below, e, h.first) refl

  -- A position in a listing has line `position + 3`, both ways: that is the line of its address, and
  -- the line's address is the one at the position.
  pub line_of_position :
      (d : DisassembledRange api) (rest : List ℕ) (i a : ℕ)
      → IsListing d rest
      → get_elem? d.instruction_addresses i ≡ some a
      → (line_num_by_address api d a ≡ i + 3) × (address_by_line_num api d (i + 3) ≡ ok a)
  unfolding line_num_by_address address_by_line_num partition_point
  line_of_position d rest i a h k =
      let e : i + 3 - 3 ≡ i = omega arith in
      let below : ltb (i + 3) 3 ≡ false = ground arith in
      let p : partition_point (λ addr. ltb addr a) d.instruction_addresses ≡ i =
        rw h.first
          (partition_point-ascending d.load_range.start rest i a h.ascending (rw h.first at k)) in
      let small = partition_point-le (λ addr. ltb addr a) d.instruction_addresses in
      let fits = h.fits in (omega (arith, p, small, fits), rw (below, e, k) refl)

  -- Exactly the two header lines, line 0 and the lines behind the listing have no address: there
  -- the lookup panics.
  pub address_by_line_num-panics :
      (d : DisassembledRange api) (line : ℕ)
      → (address_by_line_num api d line ≡ panic)
        ↔ ((line < 3) ⊎ (length d.instruction_addresses + 3 ≤ line))
  unfolding address_by_line_num
  address_by_line_num-panics d line =
      ground (arith, get_elem?-none d.instruction_addresses (line - 3))
