-- ===== src/Disassemble/Partition.antt =====
-- What the binary search of `partition_point` finds.
use vscode_lldb.Common.{
  ℕ, zero, suc, ◌+◌, ◌-◌, ◌*◌, ◌/◌, ◌^◌, ◌≤◌, ◌<◌, ◌≡◌, Bool, true, false, arith, inl, inr, ltb,
  Bool-cases,
}
use native.Mathlib.Nat.{two-pow-succ}
use vscode_lldb.Disassembly.{AddressRange}
use vscode_lldb.Disassemble.{bisect, partition_point}

-- `r` is where the test, which holds up to some point of the interval and fails from there on,
-- first fails.
pub record IsBoundary (pred : ℕ → Bool) (low high r : ℕ) : Type 0 where
  pub above_low : low ≤ r
  pub below_high : r ≤ high
  pub holds_below : (a : ℕ) → low ≤ a → a < r → pred a ≡ true
  pub fails_at : r < high → pred r ≡ false

abbrev pub IsDownward : (ℕ → Bool) → ℕ → ℕ → Type 0
IsDownward pred low high = (a b : ℕ) → low ≤ a → a ≤ b → b < high → pred b ≡ true → pred a ≡ true

half : (x y : ℕ) → x < 2 * y → 0 < x → (x / 2 < y) × (x - x / 2 - 1 < y)
half x y h k = omega arith

IsBoundary-right :
    (pred : ℕ → Bool) (low mid high : ℕ) {r : ℕ}
    → low ≤ mid
    → mid < high
    → pred mid ≡ true
    → IsDownward pred low high
    → IsBoundary pred (mid + 1) high r
    → IsBoundary pred low high r
IsBoundary-right pred low mid high {r} h k t d b = record {
  above_low = omega (arith, b.above_low);
  below_high = b.below_high;
  holds_below = λ a p q. elim (Bool-cases (ltb mid a)) [
    | inl behind ↦ b.holds_below a (ground arith) q
    | inr up_to ↦ d a mid p (ground arith) k t
  ];
  fails_at = b.fails_at;
}

IsBoundary-left :
    (pred : ℕ → Bool) (low mid high : ℕ) {r : ℕ}
    → mid < high
    → pred mid ≡ false
    → IsBoundary pred low mid r
    → IsBoundary pred low high r
IsBoundary-left pred low mid high {r} k f b = record {
  above_low = b.above_low;
  below_high = omega (arith, b.below_high);
  holds_below = b.holds_below;
  fails_at = λ p. elim (Bool-cases (ltb r mid)) [
    | inl before ↦ b.fails_at (ground arith)
    | inr not_before ↦ let below = b.below_high in let same : mid ≡ r = ground arith in rw same at f
  ];
}

bisect-IsBoundary :
    (fuel : ℕ) (pred : ℕ → Bool) (low high : ℕ)
    → low ≤ high
    → high - low < 2 ^ fuel
    → IsDownward pred low high
    → IsBoundary pred low high (bisect fuel pred low high)
unfolding bisect
bisect-IsBoundary zero pred low high k h d = record {
  above_low = omega arith;
  below_high = k;
  holds_below = λ a p q. absurd (omega arith);
  fails_at = λ p. absurd (omega (arith, small));
}
  where
    small : high - low < 1
    small = h
bisect-IsBoundary (suc fuel) pred low high k h d = elim (Bool-cases (ltb low high)) [
  | inr empty ↦ rw empty (record {
    above_low = omega arith;
    below_high = k;
    holds_below = λ a p q. absurd (omega arith);
    fails_at = λ p. absurd (ground arith);
  })
  | inl some_left ↦
      let mid : ℕ = low + (high - low) / 2 in
      let lt : low < high = ground arith in
      let size : high - low < 2 * 2 ^ fuel = omega (arith, two-pow-succ fuel) in
      let parts = half (high - low) (2 ^ fuel) size (omega arith) in
      elim (Bool-cases (pred mid)) [
        | inl holds ↦
            rw (some_left, holds)
              (IsBoundary-right pred low mid high (omega arith) (omega arith) holds d (
                bisect-IsBoundary fuel pred (mid + 1) high (omega arith) (omega (arith, parts))
                  λ a b p q l t. d a b (omega arith) q l t))
        | inr fails ↦
            rw (some_left, fails)
              (IsBoundary-left pred low mid high (omega arith) fails (
                bisect-IsBoundary fuel pred low mid (omega arith) (omega (arith, parts))
                  λ a b p q l t. d a b p q (omega arith) t))
      ]
]

-- On a range of 64-bit addresses and a test that holds for the lower part of it, `partition_point`
-- ends and returns the first address of the rest, or the end of the range.
pub partition_point-IsBoundary :
    (range : AddressRange) (pred : ℕ → Bool)
    → range.start ≤ range.end
    → range.end < 2 ^ 64
    → IsDownward pred range.start range.end
    → IsBoundary pred range.start range.end (partition_point range pred)
unfolding partition_point
partition_point-IsBoundary range pred h k d =
    bisect-IsBoundary 64 pred range.start range.end h (omega arith) d
