-- ===== src/Disassemble/Memory.antt =====
-- `read_memory` where the range begins with unreadable addresses.
use vscode_lldb.Common.{
  ℕ, ◌+◌, ◌-◌, ◌%◌, ◌^◌, ◌≤◌, ◌<◌, ◌≡◌, ◌≢◌, refl, true, false, Option, none, some, List, arith,
  inl, inr, ltb, Bool-cases,
}
use vscode_lldb.Disassembly.{AddressRange}
use vscode_lldb.Disassemble.{DisassembleApi, is_none, partition_point, read_memory}
use vscode_lldb.Disassemble.Partition.{partition_point-IsBoundary}

is_none-some {ℓ} : {A : Type ℓ} (o : Option A) → o ≢ none → is_none o ≡ false
is_none-some none h = absurd (h refl)
is_none-some (some a) h = refl

module _ (api : DisassembleApi) where
  -- From `b` on the addresses up to `end` can be read, and none of those before it.
  pub record IsReadableFrom (start b end : ℕ) : Type 0 where
    pub above_start : start ≤ b
    pub below_end : b ≤ end
    pub unreadable : (a : ℕ) → start ≤ a → a < b → api.read_memory a 1 ≡ none
    pub readable : (a : ℕ) → b ≤ a → a < end → api.read_memory a 1 ≢ none

  first_readable :
      (start b end : ℕ)
      → end < 2 ^ 64
      → IsReadableFrom start b end
      → partition_point (record { start = start; end = end }) (λ a. is_none (api.read_memory a 1))
        ≡ b
  first_readable start b end h m =
      let range : AddressRange = record { start = start; end = end } in
      let pred = λ (a : ℕ). is_none (api.read_memory a 1) in
      let found =
        partition_point-IsBoundary range pred (omega (arith, m.above_start, m.below_end)) h
          (λ x y p q k t. elim (Bool-cases (ltb y b)) [
            | inl before ↦ rw (m.unreadable x p (ground arith)) refl
            | inr behind ↦ let ne = is_none-some _ (m.readable y (ground arith) k) in cc (t, ne)
          ]) in
      elim (Bool-cases (ltb (partition_point range pred) b)) [
        | inl before ↦
            let r = partition_point range pred in
            let fails = found.fails_at (ground (arith, m.below_end)) in
            let e = m.unreadable r found.above_low (ground arith) in
            let holds : pred r ≡ true = rw e refl in cc (holds, fails)
        | inr not_before ↦ elim (Bool-cases (ltb b (partition_point range pred))) [
          | inl behind ↦
              let holds = found.holds_below b m.above_start (ground arith) in
              let below = found.below_high in
              let ne = is_none-some _ (m.readable b (omega arith) (ground (arith, below))) in
              cc (holds, ne)
          | inr not_behind ↦ ground arith
        ]
      ]

  -- If LLDB refuses to read the whole range, and its addresses are unreadable up to some point and
  -- readable from there on, then `read_memory` returns that point and what LLDB reads from it.
  pub read_memory_partial :
      (start count b : ℕ) (bytes : List ℕ)
      → start + count < 2 ^ 64
      → api.read_memory start count ≡ none
      → IsReadableFrom start b (start + count)
      → api.read_memory b (start + count - b) ≡ some bytes
      → read_memory api start count ≡ (b, bytes)
  unfolding read_memory
  read_memory_partial start count b bytes h refused m e =
      let wrap : (start + count) % 2 ^ 64 ≡ start + count = omega arith in
      let below = m.below_end in
      let size : (start + count + 2 ^ 64 - b) % 2 ^ 64 ≡ start + count - b = omega arith in
      rw (refused, read_memory)
        (rw (wrap, first_readable start b (start + count) h m, size, e) refl)
