-- ===== src/Common/Decimal.antt =====
-- `str::parse::<u64>`, and that it reads what `{}` has written.
use mathlib.Core.Path.{◌≡◌, refl, ◌∙◌}
use mathlib.Core.Logic.{inl, inr}
use mathlib.Core.Bool.{Bool, true, false, ◌&&◌}
use mathlib.Core.Option.{Option, none, some}
use mathlib.Core.List.{[], ◌∷◌}
use Prim.Native.Nat.{ℕ, zero, suc, ◌+◌, ◌-◌, ◌*◌, ◌/◌, ◌%◌, ◌^◌, ◌≤◌, ◌<◌}
use native.Mathlib.Omega.{arith}
use native.Mathlib.Nat.{pow-succ'}
use vscode_lldb.Common.Tests.{ltb, leb, ◌==◌, if◌then◌else◌, Bool-cases}
use vscode_lldb.Common.Lists.{length, All}
use vscode_lldb.Common.Text.{Text, hex_digit, digits_onto, decimal}

abbrev pub is_digit : ℕ → Bool
is_digit c = leb 48 c && ltb c 58

unfoldable pub from_digits : ℕ → Text → Option ℕ
from_digits acc [] = some acc
from_digits acc (c ∷ cs) =
    let rest = from_digits (acc * 10 + (c - 48)) cs in
    if is_digit c && ltb (acc * 10 + (c - 48)) (2 ^ 64) then rest else none

abbrev some_digits : Text → Option ℕ
some_digits [] = none
some_digits (c ∷ cs) = from_digits 0 (c ∷ cs)

unfoldable pub parse_u64 : Text → Option ℕ
unfolding from_digits
parse_u64 [] = none
parse_u64 (c ∷ cs) = if c == b'+' then some_digits cs else some_digits (c ∷ cs)

push_digit :
    (acc n : ℕ) (rest : Text)
    → acc ≡ n / 10
    → n < 2 ^ 64
    → from_digits acc (hex_digit false (n % 10) ∷ rest) ≡ from_digits n rest
unfolding from_digits hex_digit
push_digit acc n rest e bound =
    let digit : is_digit (hex_digit false (n % 10)) ≡ true = ground arith in
    let value : acc * 10 + (hex_digit false (n % 10) - 48) ≡ n = ground (arith, e) in
    let fits : ltb n (2 ^ 64) ≡ true = ground arith in rw (value, digit, fits) refl

from_digits-digits_onto :
    (fuel n : ℕ) (rest : Text)
    → n < 10 ^ fuel
    → n < 2 ^ 64
    → from_digits 0 (digits_onto 10 fuel false n rest) ≡ from_digits n rest
unfolding digits_onto
from_digits-digits_onto zero n rest small bound = let e : n ≡ 0 = omega arith in rw e refl
from_digits-digits_onto (suc fuel) n rest small bound = elim (Bool-cases (n / 10 == 0)) [
  | inl last ↦ rw last (push_digit 0 n rest (ground (arith, last)) bound)
  | inr more ↦ rw more (
      from_digits-digits_onto fuel (n / 10) (hex_digit false (n % 10) ∷ rest)
        (omega (arith, small, pow-succ' 10 fuel)) (omega (arith, bound))
      ∙ push_digit (n / 10) n rest refl bound)
]

pub IsDigits-digits_onto :
    (fuel n : ℕ) (rest : Text)
    → All (λ c. is_digit c ≡ true) rest
    → All (λ c. is_digit c ≡ true) (digits_onto 10 fuel false n rest)
unfolding digits_onto hex_digit
IsDigits-digits_onto zero n rest h = h
IsDigits-digits_onto (suc fuel) n rest h =
    let digit : is_digit (hex_digit false (n % 10)) ≡ true = ground arith in
    elim (Bool-cases (n / 10 == 0)) [
      | inl last ↦ rw last (digit, h)
      | inr more ↦
          rw more (IsDigits-digits_onto fuel (n / 10) (hex_digit false (n % 10) ∷ rest) (digit, h))
    ]

length-digits_onto :
    (fuel n : ℕ) (rest : Text) → length rest ≤ length (digits_onto 10 fuel false n rest)
unfolding digits_onto
length-digits_onto zero n rest = omega arith
length-digits_onto (suc fuel) n rest = elim (Bool-cases (n / 10 == 0)) [
  | inl last ↦ rw last (omega arith)
  | inr more ↦
      rw more (omega (arith, length-digits_onto fuel (n / 10) (hex_digit false (n % 10) ∷ rest)))
]

parse_u64-digits :
    (s : Text) → 0 < length s → All (λ c. is_digit c ≡ true) s → parse_u64 s ≡ from_digits 0 s
unfolding parse_u64
parse_u64-digits [] positive h = absurd (omega (arith, positive))
parse_u64-digits (c ∷ cs) positive h =
    let no_plus : (c == b'+') ≡ false = ground (arith, h.0) in rw no_plus refl

pub IsDigits-decimal : (n : ℕ) → All (λ c. is_digit c ≡ true) (decimal n)
unfolding decimal
IsDigits-decimal n = IsDigits-digits_onto 20 n [] tt

length-decimal : (n : ℕ) → 0 < length (decimal n)
unfolding decimal digits_onto
length-decimal n = elim (Bool-cases (n / 10 == 0)) [
  | inl last ↦ rw last (omega arith)
  | inr more ↦
      rw more (omega (arith, length-digits_onto 19 (n / 10) (hex_digit false (n % 10) ∷ [])))
]

pub parse_u64-decimal : (n : ℕ) → n < 2 ^ 64 → parse_u64 (decimal n) ≡ some n
unfolding decimal from_digits
parse_u64-decimal n bound =
    parse_u64-digits (decimal n) (length-decimal n) (IsDigits-decimal n)
    ∙ from_digits-digits_onto 20 n [] (omega (arith, bound)) bound
