-- ===== src/Disassemble/Bytes.antt =====
-- `disassemble_bytes` covers its buffer, whatever decodes in it.
use vscode_lldb.Common.{
  ℕ, zero, suc, ◌+◌, ◌%◌, ◌^◌, ◌≤◌, ◌<◌, ◌≡◌, refl, false, List, [], ◌∷◌, ◌++◌, arith, ltb, All,
  length, drop, length-drop,
}
use vscode_lldb.Common.Outcome.{Outcome, ok}
use vscode_lldb.Disassemble.{
  DisassembleApi, Instructions, instruction, byte, push_all, decode_round, decode_loop,
  disassemble_bytes,
}

module _ (api : DisassembleApi) where
  -- The entries follow one another without gap or overlap, from `base` to `end`.
  abbrev pub Tiles : ℕ → Instructions api → ℕ → Type 0
  Tiles base [] end = base ≡ end
  Tiles base ((r, d) ∷ rest) end = (r.start ≡ base) × (base < r.end) × Tiles r.end rest end

  Tiles-append :
      (b m e : ℕ) (xs ys : Instructions api) → Tiles b xs m → Tiles m ys e → Tiles b (xs ++ ys) e
  Tiles-append b m e [] ys h k = rw h k
  Tiles-append b m e ((r, d) ∷ xs) ys h k = (h.0, h.1, Tiles-append r.end m e xs ys h.2 k)

  abbrev pub total_size : List api.SBInstruction → ℕ
  total_size [] = 0
  total_size (i ∷ is) = api.byte_size i + total_size is

  -- LLDB decodes within the buffer that it is given, and an instruction has at least one byte.
  pub record DecodesWithin : Type 0 where
    pub positive :
        (base : ℕ) (buffer : List ℕ)
        → All (λ i. 0 < api.byte_size i) (api.get_instructions base buffer)
    pub within :
        (base : ℕ) (buffer : List ℕ) → total_size (api.get_instructions base buffer) ≤ length buffer

  -- what one call of LLDB adds to the list
  pub record Pushed (is : List api.SBInstruction) (base : ℕ) (buffer : List ℕ) : Type 0 where
    pub entries : Instructions api
    pub behind : ℕ
    pub left : List ℕ
    pub runs : push_all api is base buffer ≡ ok (entries, behind, left)
    pub tiles : Tiles base entries behind
    pub same_end : behind + length left ≡ base + length buffer
    pub shorter : length left + total_size is ≡ length buffer

  push_all-cons :
      (i : api.SBInstruction) (is : List api.SBInstruction) (base next : ℕ) (buffer : List ℕ)
      {entries : Instructions api} {behind : ℕ} {left : List ℕ}
      → (base + api.byte_size i) % 2 ^ 64 ≡ next
      → ltb (length buffer) (api.byte_size i) ≡ false
      → push_all api is next (drop (api.byte_size i) buffer) ≡ ok (entries, behind, left)
      → push_all api (i ∷ is) base buffer
        ≡ ok ((record { start = base; end = next }, instruction i) ∷ entries, behind, left)
  unfolding push_all
  push_all-cons i is base next buffer e fits runs = rw (fits, e, runs) refl

  push_all_lem :
      (is : List api.SBInstruction) (base : ℕ) (buffer : List ℕ)
      → All (λ i. 0 < api.byte_size i) is
      → total_size is ≤ length buffer
      → base + length buffer < 2 ^ 64
      → Pushed is base buffer
  push_all_lem [] base buffer p w h = record {
    entries = [];
    behind = base;
    left = buffer;
    runs = unfold push_all in refl;
    tiles = refl;
    same_end = refl;
    shorter = omega arith;
  }
  push_all_lem (i ∷ is) base buffer p w h =
      let size = api.byte_size i in
      let cut = length-drop size buffer in
      let rest =
        push_all_lem is (base + size) (drop size buffer) p.1 (omega (arith, cut))
          (omega (arith, cut)) in
      record {
        entries = (record { start = base; end = base + size }, instruction i) ∷ rest.entries;
        behind = rest.behind;
        left = rest.left;
        runs = push_all-cons i is base (base + size) buffer (omega arith) (ground arith) rest.runs;
        tiles = (refl, omega (arith, p.0), rest.tiles);
        same_end = omega (arith, rest.same_end, cut);
        shorter = omega (arith, rest.shorter, cut);
      }

  -- the entries for `buffer`, which the loop returns
  pub record Covered (loop : ℕ → List ℕ → Outcome (Instructions api)) (base : ℕ) (buffer : List ℕ)
      : Type 0 where
    pub entries : Instructions api
    pub runs : loop base buffer ≡ ok entries
    pub tiles : Tiles base entries (base + length buffer)

  module _ (loop : ℕ → List ℕ → Outcome (Instructions api)) (base b : ℕ) (bytes : List ℕ)
      (h : base + length (b ∷ bytes) < 2 ^ 64) where
    Covered-byte :
        Covered loop (base + 1) bytes
        → Covered (λ base' buffer. decode_round api loop [] base b bytes) base (b ∷ bytes)
    unfolding decode_round
    Covered-byte rest =
        let next : (base + 1) % 2 ^ 64 ≡ base + 1 = omega arith in
        let end : base + 1 + length bytes ≡ base + suc (length bytes) = omega arith in
        record {
          entries = (record { start = base; end = base + 1 }, byte b) ∷ rest.entries;
          runs = rw next (rw rest.runs refl);
          tiles = (refl, omega arith, rw end at rest.tiles);
        }

    Covered-Pushed :
        (i : api.SBInstruction) (is : List api.SBInstruction)
        (pushed : Pushed (i ∷ is) base (b ∷ bytes))
        → Covered loop pushed.behind pushed.left
        → Covered (λ base' buffer. decode_round api loop (i ∷ is) base b bytes) base (b ∷ bytes)
    unfolding decode_round
    Covered-Pushed i is pushed rest = record {
      entries = pushed.entries ++ rest.entries;
      runs = rw pushed.runs (rw rest.runs refl);
      tiles =
          Tiles-append base pushed.behind _ pushed.entries rest.entries pushed.tiles
            (rw pushed.same_end at rest.tiles);
    }

  module _ (decodes : DecodesWithin) where
    round :
        (loop : ℕ → List ℕ → Outcome (Instructions api)) (is : List api.SBInstruction) (base b : ℕ)
        (bytes : List ℕ)
        → base + length (b ∷ bytes) < 2 ^ 64
        → All (λ i. 0 < api.byte_size i) is
        → total_size is ≤ length (b ∷ bytes)
        → ((base' : ℕ) (buffer : List ℕ)
            → length buffer ≤ length bytes
            → base' + length buffer ≡ base + length (b ∷ bytes)
            → Covered loop base' buffer)
        → Covered (λ base' buffer. decode_round api loop is base b bytes) base (b ∷ bytes)
    round loop [] base b bytes h p w again =
        Covered-byte loop base b bytes h (again (base + 1) bytes (omega arith) (omega arith))
    round loop (i ∷ is) base b bytes h p w again =
        let pushed = push_all_lem (i ∷ is) base (b ∷ bytes) p w h in
        let positive = p.0 in
        let shorter = pushed.shorter in
        Covered-Pushed loop base b bytes h i is pushed
          (again pushed.behind pushed.left (omega arith) pushed.same_end)

    decode_loop_lem :
        (fuel base : ℕ) (buffer : List ℕ)
        → length buffer ≤ fuel
        → base + length buffer < 2 ^ 64
        → Covered (decode_loop api fuel) base buffer
    unfolding decode_loop
    decode_loop_lem zero base [] f h = record { entries = []; runs = refl; tiles = omega arith }
    decode_loop_lem (suc fuel) base [] f h = record {
      entries = [];
      runs = refl;
      tiles = omega arith;
    }
    decode_loop_lem zero base (b ∷ bytes) f h = absurd (omega arith)
    decode_loop_lem (suc fuel) base (b ∷ bytes) f h =
        let covered =
          round (decode_loop api fuel) (api.get_instructions base (b ∷ bytes)) base b bytes h
            (decodes.positive base (b ∷ bytes)) (decodes.within base (b ∷ bytes))
            (λ base' buffer le e. decode_loop_lem fuel base' buffer (omega arith) (omega arith)) in
        record { entries = covered.entries; runs = covered.runs; tiles = covered.tiles }

    -- On a buffer below the end of the address space the loop ends without a panic, and its entries
    -- follow one another without gap or overlap from the buffer's address to its end.
    pub disassemble_bytes-Tiles :
        (base : ℕ) (buffer : List ℕ)
        → base + length buffer < 2 ^ 64
        → (entries : Instructions api) × (disassemble_bytes api base buffer ≡ ok entries)
          × Tiles base entries (base + length buffer)
    unfolding disassemble_bytes
    disassemble_bytes-Tiles base buffer h =
        let covered = decode_loop_lem (length buffer) base buffer (omega arith) h in
        (covered.entries, covered.runs, covered.tiles)
