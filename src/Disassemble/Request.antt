-- ===== src/Disassemble/Request.antt =====
-- What a successful `disassemble` request returns.
use vscode_lldb.Common.{
  ℕ, zero, suc, ◌+◌, ◌-◌, ◌*◌, ◌%◌, ◌^◌, ◌≤◌, ◌<◌, ◌≡◌, refl, ap, ◌∙◌, ltb, subst, ◌⊎◌, Bool,
  Option, none, some, List, [], ◌∷◌, arith, ◌==◌, ==_iff, length, length-drop, get_elem?, drop, inl,
  inr, Option-cases, Bool-cases,
}
use Prim.Native.Nat.{min}
use mathlib.Core.Option
use vscode_lldb.Common.Int.{ℤ, pos, ◌+ℤ◌, pos_part, neg_part, wrap_i64, ltb_ℤ}
use vscode_lldb.Common.Outcome.{ok, ◌>>=◌, bind-eq-ok}
use vscode_lldb.Disassembly.{AddressRange}
use vscode_lldb.Disassemble.{
  DisassembleApi, DisassembleArguments, Instructions, Decoded, instruction, byte, Shown, shown,
  invalid_memory, u64_max, read_memory, max_instruction_bytes,
}
use vscode_lldb.Disassemble.Bytes.{Tiles, DecodesWithin, disassemble_bytes-Tiles}
use vscode_lldb.Disassemble.Render.{
  DisassembledInstruction, Stream, position, find_stream, render, respond, handle_disassemble,
  disassemble_at, memory_range, or_true, or_failed, or_zero, offset_base, address_text,
}
use vscode_lldb.Disassemble.Window.{AreSmall, window_returns, window_panics}

-- the index that `position` returns is that of an entry at the address
position_lem :
    {I : Type 0} (a i : ℕ) (is : List (AddressRange × Decoded I))
    → position a is ≡ some i
    → (x : AddressRange × Decoded I) × (get_elem? is i ≡ some x) × (x.0.start ≡ a) × (i < length is)
unfolding position
position_lem a i [] h = cc
position_lem a i ((range, d) ∷ is) h = elim (Bool-cases (range.start == a)) [
  | inl here ↦
      let z : i ≡ 0 = ground arith in
      ((range, d), rw z refl, (==_iff range.start a).0 here, omega arith)
  | inr later ↦ elim (Option-cases (position a is)) [
    | inl missing ↦ absurd (ground arith)
    | inr (j, found) ↦
        let (x, g, s, l) = position_lem a j is found in
        let z : i ≡ suc j = ground arith in (x, rw z g, s, omega arith)
  ]
]

module _ (api : DisassembleApi) where
  length-render :
      (resolve : Bool) (start : ℕ) (buffer : List ℕ) (last : Option api.LineEntry)
      (xs : List (Shown api.SBInstruction))
      → length (render api resolve start buffer last xs) ≡ length xs
  unfolding render
  length-render resolve start buffer last [] = refl
  length-render resolve start buffer last (invalid_memory a ∷ xs) =
      ap suc (length-render resolve start buffer last xs)
  length-render resolve start buffer last (shown range (byte b) ∷ xs) =
      ap suc (length-render resolve start buffer none xs)
  length-render resolve start buffer last (shown range (instruction i) ∷ xs) =
      ap suc (length-render resolve start buffer (api.line_entry i) xs)

  -- an entry of the response shows an address
  pub ShowsAddress : Option DisassembledInstruction → ℕ → Type 0
  ShowsAddress o a =
      Option.map (λ (d : DisassembledInstruction). d.address) o ≡ some (address_text a)

  render-address :
      (resolve : Bool) (start : ℕ) (buffer : List ℕ) (last : Option api.LineEntry)
      (xs : List (Shown api.SBInstruction)) (k : ℕ) (range : AddressRange)
      (d : Decoded api.SBInstruction)
      → get_elem? xs k ≡ some (shown range d)
      → ShowsAddress (get_elem? (render api resolve start buffer last xs) k) range.start
  unfolding ShowsAddress render
  render-address resolve start buffer last [] k range d h = cc
  render-address resolve start buffer last (invalid_memory a ∷ xs) zero range d h = cc
  render-address resolve start buffer last (shown r (byte b) ∷ xs) zero range d h = cc
  render-address resolve start buffer last (shown r (instruction i) ∷ xs) zero range d h = cc
  render-address resolve start buffer last (invalid_memory a ∷ xs) (suc k) range d h =
      render-address resolve start buffer last xs k range d h
  render-address resolve start buffer last (shown r (byte b) ∷ xs) (suc k) range d h =
      render-address resolve start buffer none xs k range d h
  render-address resolve start buffer last (shown r (instruction i) ∷ xs) (suc k) range d h =
      render-address resolve start buffer (api.line_entry i) xs k range d h

  -- A stream that the search returns: its entry with index `base_index` starts at the base.
  pub record Found (base_addr : ℕ) (s : Stream api) : Type 0 where
    pub entry : AddressRange × Decoded api.SBInstruction
    pub at_index : get_elem? s.instructions s.base_index ≡ some entry
    pub at_base : entry.0.start ≡ base_addr
    pub in_list : s.base_index < length s.instructions
    pub short : length s.instructions < 2 ^ 61

  length-Tiles : (b e : ℕ) (xs : Instructions api) → Tiles api b xs e → b + length xs ≤ e
  length-Tiles b e [] h = omega arith
  length-Tiles b e ((r, d) ∷ xs) h = omega (arith, length-Tiles r.end e xs h.2, h.1)

  module _ (decodes : DecodesWithin api) where
    find_stream-Found :
        (n i base_addr start : ℕ) (buffer : List ℕ) (s : Stream api)
        → i + n ≤ length buffer
        → start + length buffer < 2 ^ 64
        → length buffer < 2 ^ 61
        → find_stream api n i base_addr start buffer ≡ ok (some s)
        → Found base_addr s
    unfolding find_stream
    find_stream-Found zero i base_addr start buffer s le fits small h = cc
    find_stream-Found (suc n) i base_addr start buffer s le fits small h =
        let at = (start + i) % 2 ^ 64 in
        let cut = length-drop i buffer in
        let (entries, runs, tiles) =
          disassemble_bytes-Tiles api decodes at (drop i buffer) (omega (arith, cut)) in
        let many = length-Tiles at (at + length (drop i buffer)) entries tiles in
        elim (Option-cases (position base_addr entries)) [
          | inl missing ↦
              find_stream-Found n (i + 1) base_addr start buffer s (omega arith) fits small
                (ground (arith, runs, missing))
          | inr (j, found) ↦
              let (x, g, e, l) = position_lem base_addr j entries found in
              let same : record {
                start_addr = at;
                buffer = drop i buffer;
                instructions = entries;
                base_index = j;
              }
                  ≡ s =
                ground (arith, runs, found) in
              subst (Found base_addr) same (record {
                entry = x;
                at_index = g;
                at_base = e;
                in_list = l;
                short = omega (arith, many, cut);
              })
        ]

    -- what the request promises of its answer `r`
    abbrev pub Answers : ℤ → ℤ → ℕ → List DisassembledInstruction → Type 0
    Answers off n base_addr r =
        (length r ≡ pos_part n)
        × (pos_part off ≡ 0
            → neg_part off < pos_part n
            → ShowsAddress (get_elem? r (neg_part off)) base_addr)

    module _ (resolve : Bool) (off n : ℤ) (base_addr : ℕ) (s : Stream api)
        (r : List DisassembledInstruction) (f : Found base_addr s)
        (small : AreSmall s.instructions s.base_index off n)
        (h : respond api resolve off n s ≡ ok r) where
      abbrev start : ℕ
      start = s.start_addr

      abbrev end : ℕ
      end = (s.start_addr + length s.buffer) % 2 ^ 64

      not_outside :
          (length s.instructions < pos_part (pos s.base_index +ℤ off +ℤ n))
            ⊎ (0 < neg_part (pos s.base_index +ℤ off +ℤ n))
          → ⊥
      unfolding respond
      not_outside out =
          let p = window_panics s.instructions s.base_index off n small start end out in cc (p, h)

      respond_lem : Answers off n base_addr r
      unfolding respond
      respond_lem =
          let nonneg : neg_part (pos s.base_index +ℤ off +ℤ n) ≡ 0 =
            elim (Bool-cases (ltb 0 (neg_part (pos s.base_index +ℤ off +ℤ n)))) [
              | inl below ↦ absurd (not_outside (inr (ground arith)))
              | inr not_below ↦ ground arith
            ] in
          let within : pos_part (pos s.base_index +ℤ off +ℤ n) ≤ length s.instructions =
            elim (Bool-cases
              (ltb (length s.instructions) (pos_part (pos s.base_index +ℤ off +ℤ n)))) [
                | inl behind ↦ absurd (not_outside (inl (ground arith)))
                | inr not_behind ↦ ground arith
              ] in
          let (entries, e, len, place) =
            window_returns s.instructions s.base_index off n small start end nonneg within
              f.at_index in
          let same : render api resolve start s.buffer none entries ≡ r = cc (e, h) in
          subst (Answers off n base_addr) same (
            length-render resolve start s.buffer none entries ∙ len,
            λ z lt. subst (ShowsAddress _) f.at_base (
                render-address resolve start s.buffer none entries (neg_part off) f.entry.0
                  f.entry.1 (place z lt)),
          )

    -- LLDB reads at most what it is asked for, and less than 2 ^ 61 bytes below the end of the
    -- address space.
    pub record ReadsSmall : Type 0 where
      pub below_end :
          (a n : ℕ)
          → a + n < 2 ^ 64
          → (read_memory api a n).0 + length (read_memory api a n).1 < 2 ^ 64
      pub short : (a n : ℕ) → length (read_memory api a n).1 < 2 ^ 61

    -- Offsets and counts far from the ends of `i64`.
    pub record AreModest (args : DisassembleArguments) : Type 0 where
      pub offset_above : pos_part (or_zero api args.instruction_offset) < 2 ^ 61
      pub offset_below : neg_part (or_zero api args.instruction_offset) < 2 ^ 61
      pub requested : pos_part args.instruction_count < 2 ^ 61

    memory_range_fits :
        (base_addr : ℕ) (off n : ℤ)
        → base_addr < 2 ^ 64
        → (memory_range api base_addr off n).start
            + ((memory_range api base_addr off n).end - (memory_range api base_addr off n).start)
          < 2 ^ 64
    unfolding memory_range
    memory_range_fits base_addr off n h =
        let size = max_instruction_bytes api.triple in
        between (base_addr - neg_part off * size % 2 ^ 64)
          (base_addr + pos_part (wrap_i64 (n +ℤ off)) * size % 2 ^ 64) (omega arith)
      where
        between : (a e : ℕ) → a < 2 ^ 64 → a + (min u64_max e - a) < 2 ^ 64
        between a e l = omega arith

    offset_base-lt :
        (o : Option ℤ) (parsed : ℕ) → parsed < 2 ^ 64 → offset_base api o parsed < 2 ^ 64
    offset_base-lt none parsed h = h
    offset_base-lt (some off) parsed h = omega arith

    disassemble_at_lem :
        (resolve : Bool) (off n : ℤ) (base_addr : ℕ) (r : List DisassembledInstruction)
        → ReadsSmall
        → base_addr < 2 ^ 64
        → pos_part off < 2 ^ 61
        → neg_part off < 2 ^ 61
        → pos_part n < 2 ^ 61
        → neg_part n ≡ 0
        → disassemble_at api resolve off n base_addr ≡ ok r
        → Answers off n base_addr r
    unfolding disassemble_at
    disassemble_at_lem resolve off n base_addr r reads address above below requested nonneg h =
        let range = memory_range api base_addr off n in
        let (start, buffer) = read_memory api range.start (range.end - range.start) in
        let rounds = min (max_instruction_bytes api.triple) (length buffer) in
        let (found, searched, h') =
          bind-eq-ok (find_stream api rounds 0 base_addr start buffer)
            (λ found. or_failed api base_addr found >>= respond api resolve off n) h in
        let (s, is_some, answered) =
          bind-eq-ok (or_failed api base_addr found) (respond api resolve off n) h' in
        let same : found ≡ some s = or_failed-ok found is_some in
        let f =
          find_stream-Found rounds 0 base_addr start buffer s (omega arith)
            (reads.below_end range.start (range.end - range.start)
              (memory_range_fits base_addr off n address))
            (reads.short range.start (range.end - range.start)) (rw same at searched) in
        respond_lem resolve off n base_addr s r f
          (record {
            base = f.in_list;
            count = f.short;
            offset_above = above;
            offset_below = below;
            requested = requested;
            nonneg = nonneg;
          })
          answered
      where
        or_failed-ok :
            {s : Stream api} (found : Option (Stream api))
            → or_failed api base_addr found ≡ ok s
            → found ≡ some s
        or_failed-ok none e = cc
        or_failed-ok (some t) e = cc

    -- A request that succeeds returns as many instructions as were asked for; and if the base lies in
    -- the window and not in front of it, the entry for the base is where the instruction offset
    -- says. This is for modest arguments, an LLDB that decodes within its buffer, and small reads.
    pub handle_disassemble_lem :
        (args : DisassembleArguments) (parsed : ℕ) (r : List DisassembledInstruction)
        → ReadsSmall
        → AreModest args
        → api.parse_u64 args.memory_reference ≡ some parsed
        → parsed < 2 ^ 64
        → handle_disassemble api args ≡ ok r
        → Answers
            (or_zero api args.instruction_offset)
            args.instruction_count
            (offset_base api args.offset parsed)
            r
    unfolding handle_disassemble
    handle_disassemble_lem args parsed r reads modest e address h =
        elim (Bool-cases (ltb_ℤ args.instruction_count (pos 0))) [
          | inl negative ↦ absurd (ground (arith, e, negative))
          | inr nonneg ↦
              disassemble_at_lem (or_true api args.resolve_symbols)
                (or_zero api args.instruction_offset) args.instruction_count
                (offset_base api args.offset parsed) r reads
                (offset_base-lt args.offset parsed address) modest.offset_above modest.offset_below
                modest.requested (ground arith) (ground (arith, e, nonneg))
        ]
