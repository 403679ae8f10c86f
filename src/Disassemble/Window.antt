-- ===== src/Disassemble/Window.antt =====
-- The window of `handle_disassemble`: which of the decoded entries are returned, and the padding.
use vscode_lldb.Common.{
  ℕ, zero, suc, ◌+◌, ◌-◌, ◌%◌, ◌^◌, ◌≤◌, ◌<◌, ◌≡◌, refl, ap, ◌∙◌, false, some, List, [], ◌∷◌, ◌++◌,
  map, append-nil, arith, ltb, if◌then◌else◌, length, length-append, length-map, length-take,
  length-drop, take, drop, get_elem?, inl, inr, ◌⊎◌, get_elem?-append_right, get_elem?-map,
  get_elem?-take, get_elem?-drop,
}
use vscode_lldb.Common.Int.{
  ℤ, pos, negsuc, ◌+ℤ◌, pos_part, neg_part, as_u64, ltb_ℤ, wrap_i64, wrap_i64_id, +ℤ_parts,
  +ℤ_bounds, pos_or_neg, as_u64_pos, as_u64_neg,
}
use vscode_lldb.Common.Outcome.{Outcome, ok, panic, ◌>>=◌}
use vscode_lldb.Disassembly.{AddressRange}
use vscode_lldb.Disassemble.{Decoded, Shown, shown, invalid_memory}

-- `for i in start_idx..0`, with `n` = -start_idx rounds left
pub pad_before : {I : Type 0} → ℕ → ℕ → List (Shown I)
pad_before start_addr zero = []
pad_before start_addr (suc n) =
    invalid_memory ((start_addr + as_u64 (negsuc n)) % 2 ^ 64) ∷ pad_before start_addr n

-- `for i in 0..n`, from `i` on with `n` rounds left
pub pad_after : {I : Type 0} → ℕ → ℕ → ℕ → List (Shown I)
pad_after end_addr i zero = []
pad_after end_addr i (suc n) =
    invalid_memory ((end_addr + i) % 2 ^ 64) ∷ pad_after end_addr (i + 1) n

-- `&xs[from..to]`
unfoldable pub slice : {A : Type 0} → ℕ → ℕ → List A → Outcome (List A)
slice from to xs =
    if ltb to from
    then panic
    else if ltb (length xs) to
    then panic
    else ok (take (to - from) (drop from xs))

slice-inside :
    {A : Type 0} (from to : ℕ) (xs : List A)
    → from ≤ to
    → to ≤ length xs
    → slice from to xs ≡ ok (take (to - from) (drop from xs))
unfolding slice
slice-inside from to xs h k = ground arith

slice-outside : {A : Type 0} (from to : ℕ) (xs : List A) → length xs < to → slice from to xs ≡ panic
unfolding slice
slice-outside from to xs h = ground arith

length-pad_before : (I : Type 0) (a n : ℕ) → length (pad_before {I = I} a n) ≡ n
unfolding pad_before
length-pad_before I a zero = refl
length-pad_before I a (suc n) = ap suc (length-pad_before I a n)

module _ {I : Type 0} where
  abbrev pub show_entry : AddressRange × Decoded I → Shown I
  show_entry (range, d) = shown range d

  unfoldable pub window :
      ℕ → ℕ → List (AddressRange × Decoded I) → ℕ → ℤ → ℤ → Outcome (List (Shown I))
  unfolding pad_before pad_after slice
  window start_addr end_addr instructions base_index instruction_offset instruction_count =
      let start_idx = wrap_i64 (pos base_index +ℤ instruction_offset) in
      let end_idx = wrap_i64 (start_idx +ℤ instruction_count) in
      let before = pad_before start_addr (neg_part start_idx) in
      let instr_count = length instructions in
      let after =
        if ltb_ℤ (pos instr_count) end_idx
        then pad_after end_addr 0 (pos_part end_idx - instr_count)
        else [] in
      do
        entries ← slice (pos_part start_idx) (as_u64 end_idx) instructions
        ok (before ++ (map show_entry entries ++ after))

  -- Numbers that stay in `i64` through the computation.
  pub record AreSmall (instructions : List (AddressRange × Decoded I)) (base_index : ℕ)
      (instruction_offset instruction_count : ℤ) : Type 0 where
    pub base : base_index < length instructions
    pub count : length instructions < 2 ^ 61
    pub offset_above : pos_part instruction_offset < 2 ^ 61
    pub offset_below : neg_part instruction_offset < 2 ^ 61
    pub requested : pos_part instruction_count < 2 ^ 61
    pub nonneg : neg_part instruction_count ≡ 0

  module _ (is : List (AddressRange × Decoded I)) (base_index : ℕ) (off n : ℤ)
      (s : AreSmall is base_index off n) where
    abbrev start : ℤ
    start = pos base_index +ℤ off

    abbrev end : ℤ
    end = start +ℤ n

    start_bounds : (pos_part start < 2 ^ 62) × (neg_part start < 2 ^ 61)
    start_bounds =
        omega
          (arith, +ℤ_bounds (pos base_index) off, s.base, s.count, s.offset_above, s.offset_below)

    end_bounds : (pos_part end < 2 ^ 63) × (neg_part end < 2 ^ 61)
    end_bounds = omega (arith, +ℤ_bounds start n, start_bounds, s.requested, s.nonneg)

    wrap_start : wrap_i64 start ≡ start
    wrap_start = wrap_i64_id start (omega (arith, start_bounds)) (omega (arith, start_bounds))

    wrap_end : wrap_i64 end ≡ end
    wrap_end = wrap_i64_id end (omega (arith, end_bounds)) (omega (arith, end_bounds))

    -- `slice` and the padding, on numbers that have not wrapped
    window_steps :
        (a b : ℕ)
        → window a b is base_index off n ≡ (
            slice (pos_part start) (as_u64 end) is >>= λ entries. ok (
              pad_before a (neg_part start)
              ++ (map show_entry entries
                  ++ (if ltb_ℤ (pos (length is)) end
                      then pad_after b 0 (pos_part end - length is)
                      else []))))
    unfolding window
    window_steps a b = rw wrap_start (rw wrap_end refl)

    parts :
        (pos_part start + neg_part off ≡ neg_part start + base_index + pos_part off)
        × (pos_part end + neg_part start ≡ neg_part end + pos_part start + pos_part n)
    parts = omega (arith, +ℤ_parts (pos base_index) off, +ℤ_parts start n, s.nonneg)

    -- the entries that are returned when the window ends within the list
    inside : ℕ → List (Shown I)
    inside a =
        pad_before a (neg_part start)
        ++ map show_entry (take (pos_part end - pos_part start) (drop (pos_part start) is))

    ends_behind_start : neg_part end ≡ 0 → pos_part start ≤ pos_part end
    ends_behind_start h = elim (pos_or_neg start) [
      | inl below ↦ omega (arith, below)
      | inr above ↦ omega (arith, above, parts, h)
    ]

    window-inside :
        (a b : ℕ)
        → neg_part end ≡ 0
        → pos_part end ≤ length is
        → window a b is base_index off n ≡ ok (inside a)
    unfolding inside
    window-inside a b h k =
        let to = as_u64_pos end h (omega (arith, end_bounds)) in
        let cut = slice-inside (pos_part start) (pos_part end) is (ends_behind_start h) k in
        let no_padding : ltb_ℤ (pos (length is)) end ≡ false = ground (arith, h, k) in
        window_steps a b ∙ rw (to, cut, no_padding, append-nil) refl

    length-inside :
        (a : ℕ) → neg_part end ≡ 0 → pos_part end ≤ length is → length (inside a) ≡ pos_part n
    unfolding inside
    length-inside a h k =
        let xs = drop (pos_part start) is in
        let m = pos_part end - pos_part start in
        let shown = map show_entry (take m xs) in
        omega (
          arith,
          length-append (pad_before {I = I} a (neg_part start)) shown,
          length-pad_before I a (neg_part start),
          length-map (take m xs) show_entry,
          length-take m xs,
          length-drop (pos_part start) is,
          parts,
          h,
          k,
          ends_behind_start h,
        )

    base-inside :
        (a : ℕ) {x : AddressRange × Decoded I}
        → pos_part off ≡ 0
        → neg_part off < pos_part n
        → neg_part end ≡ 0
        → get_elem? is base_index ≡ some x
        → get_elem? (inside a) (neg_part off) ≡ some (show_entry x)
    unfolding inside
    base-inside a z lt h found =
        let p = pos_part start in
        let m = pos_part end - p in
        let i = neg_part off - neg_part start in
        let position : (neg_part start + i ≡ neg_part off) × (p + i ≡ base_index) × (i < m) =
          elim (pos_or_neg start) [
            | inl below ↦ omega (arith, below, parts, h, z, lt)
            | inr above ↦ omega (arith, above, parts, h, z, lt)
          ] in
        get_elem?-append_right (pad_before {I = I} a (neg_part start))
          (map show_entry (take m (drop p is))) i (neg_part off)
          (omega (arith, length-pad_before I a (neg_part start), position))
        ∙ get_elem?-map show_entry (take m (drop p is)) i (
            get_elem?-take (drop p is) m i position.2
            ∙ get_elem?-drop is p i base_index position.1
            ∙ found)

    -- A window that ends within the list is returned whole: it has as many entries as were asked
    -- for, and the base instruction stands where the instruction offset says, if it is in the window.
    pub window_returns :
        (a b : ℕ) {x : AddressRange × Decoded I}
        → neg_part end ≡ 0
        → pos_part end ≤ length is
        → get_elem? is base_index ≡ some x
        → (shown : List (Shown I)) × (window a b is base_index off n ≡ ok shown)
          × (length shown ≡ pos_part n)
          × (pos_part off ≡ 0
              → neg_part off < pos_part n
              → get_elem? shown (neg_part off) ≡ some (show_entry x))
    window_returns a b h k found =
        (inside a, window-inside a b h k, length-inside a h k, λ z lt. base-inside a z lt h found)

    -- A window that ends behind the list or in front of it panics: the padding that the code adds
    -- behind the list is never returned.
    pub window_panics :
        (a b : ℕ)
        → (length is < pos_part end) ⊎ (0 < neg_part end)
        → window a b is base_index off n ≡ panic
    window_panics a b h =
        window_steps a b ∙ rw (slice-outside (pos_part start) (as_u64 end) is outside) refl
      where
        outside : length is < as_u64 end
        outside = elim h [
          | inl behind ↦ elim (pos_or_neg end) [
            | inl z ↦ absurd (omega (arith, z, behind))
            | inr z ↦ omega (arith, as_u64_pos end z (omega (arith, end_bounds)), behind)
          ]
          | inr before ↦ omega (arith, as_u64_neg end before (omega (arith, end_bounds)), s.count)
        ]
