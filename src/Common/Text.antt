-- ===== src/Common/Text.antt =====
-- Text as a list of code points, with what the adapter uses of Rust's `str` and `format!`.
use Prim.Native.Char.{code}
use Prim.Native.Nat.{ℕ, zero, suc, ◌+◌, ◌-◌, ◌/◌, ◌%◌}
use Prim.Native.String.{String}
use mathlib.Core.Path.{◌≡◌, refl}
use mathlib.Core.Logic.{◌↔◌, ◌≢◌, inl, inr}
use mathlib.Core.Bool.{Bool, true, false, ◌&&◌}
use mathlib.Core.Option.{Option, none, some}
use mathlib.Core.List.{List, [], ◌∷◌, ◌++◌}
use native.Mathlib.Omega.{arith}
use vscode_lldb.Common.Tests.{ltb, ◌==◌, if◌then◌else◌, Bool-cases}
use vscode_lldb.Common.Lists.{length, replicate, All}

abbrev pub Text : Type 0
Text = List ℕ

abbrev pub codes : String → Text
codes String.[] = []
codes (String.◌∷◌ c s) = code c ∷ codes s

unfoldable pub text_eq : Text → Text → Bool
text_eq [] [] = true
text_eq (x ∷ xs) (y ∷ ys) = x == y && text_eq xs ys
text_eq _ _ = false

pub text_eq_iff : (a b : Text) → (text_eq a b ≡ true) ↔ (a ≡ b)
unfolding text_eq
text_eq_iff (x ∷ a) (y ∷ b) = ground (arith, text_eq_iff a b)
text_eq_iff _ _ = ground arith

pub text_eq_refl : (a : Text) → text_eq a a ≡ true
text_eq_refl a = (text_eq_iff a a).1 refl

-- `strip_prefix`: the rest behind a prefix.
unfoldable pub strip_prefix : Text → Text → Option Text
strip_prefix [] s = some s
strip_prefix (p ∷ ps) [] = none
strip_prefix (p ∷ ps) (c ∷ cs) = if p == c then strip_prefix ps cs else none

pub strip_prefix-append : (p s : Text) → strip_prefix p (p ++ s) ≡ some s
unfolding strip_prefix
strip_prefix-append [] s = refl
strip_prefix-append (c ∷ p) s = ground (arith, strip_prefix-append p s)

-- One digit of base 16; the flag asks for upper case.
unfoldable pub hex_digit : Bool → ℕ → ℕ
hex_digit upper d =
    if ltb d 10 then b'0' + d else if upper then b'A' + (d - 10) else b'a' + (d - 10)

-- The digits of a number below base ^ fuel, in front of `rest`.
unfoldable pub digits_onto : ℕ → ℕ → Bool → ℕ → Text → Text
digits_onto base zero upper n rest = rest
digits_onto base (suc fuel) upper n rest =
    let more = digits_onto base fuel upper (n / base) (hex_digit upper (n % base) ∷ rest) in
    if n / base == 0 then hex_digit upper (n % base) ∷ rest else more

-- `{:x}` and `{:X}` of a 64-bit number, which has at most 16 digits.
unfoldable pub hex : Bool → ℕ → Text
unfolding digits_onto hex_digit
hex upper n = digits_onto 16 16 upper n []

-- `{}` of a 64-bit number, which has at most 20 digits.
unfoldable pub decimal : ℕ → Text
unfolding digits_onto hex_digit
decimal n = digits_onto 10 20 false n []

-- `{:0w}` and `{:<w}`
unfoldable pub pad_zero : ℕ → Text → Text
pad_zero w s = replicate (w - length s) b'0' ++ s

unfoldable pub pad_right : ℕ → Text → Text
pad_right w s = s ++ replicate (w - length s) b' '

-- `str::lines`, on text of which each line ends in a newline
unfoldable pub lines : Text → List Text
lines [] = []
lines (c ∷ cs) =
    if c == b'\n'
    then [] ∷ lines cs
    else (elim (lines cs) [ [] ↦ (c ∷ []) ∷ [] | l ∷ ls ↦ (c ∷ l) ∷ ls ])

-- One line of text.
abbrev pub IsPlain : Text → Type 0
IsPlain s = All (λ c. c ≢ b'\n') s

pub lines-append : (s rest : Text) → IsPlain s → lines (s ++ b'\n' ∷ rest) ≡ s ∷ lines rest
unfolding lines
lines-append [] rest h = refl
lines-append (c ∷ s) rest h = ground (arith, h.0, lines-append s rest h.1)

pub IsPlain-append : (s t : Text) → IsPlain s → IsPlain t → IsPlain (s ++ t)
IsPlain-append [] t h k = k
IsPlain-append (c ∷ s) t h k = (h.0, IsPlain-append s t h.1 k)

IsPlain-replicate : (n c : ℕ) → c ≢ b'\n' → IsPlain (replicate n c)
IsPlain-replicate zero c h = tt
IsPlain-replicate (suc n) c h = (h, IsPlain-replicate n c h)

hex_digit-ne : (upper : Bool) (d : ℕ) → hex_digit upper d ≢ b'\n'
unfolding hex_digit
hex_digit-ne upper d = ground arith

IsPlain-digits_onto :
    (base fuel : ℕ) (upper : Bool) (n : ℕ) (rest : Text)
    → IsPlain rest
    → IsPlain (digits_onto base fuel upper n rest)
unfolding digits_onto
IsPlain-digits_onto base zero upper n rest h = h
IsPlain-digits_onto base (suc fuel) upper n rest h = elim (Bool-cases (n / base == 0)) [
  | inl last ↦ rw last (hex_digit-ne upper (n % base), h)
  | inr more ↦ rw more (
      IsPlain-digits_onto base fuel upper (n / base) (hex_digit upper (n % base) ∷ rest)
        (hex_digit-ne upper (n % base), h))
]

pub IsPlain-hex : (upper : Bool) (n : ℕ) → IsPlain (hex upper n)
unfolding hex
IsPlain-hex upper n = IsPlain-digits_onto 16 16 upper n [] tt

pub IsPlain-decimal : (n : ℕ) → IsPlain (decimal n)
unfolding decimal
IsPlain-decimal n = IsPlain-digits_onto 10 20 false n [] tt

pub IsPlain-pad_zero : (w : ℕ) (s : Text) → IsPlain s → IsPlain (pad_zero w s)
unfolding pad_zero
IsPlain-pad_zero w s h =
    IsPlain-append (replicate (w - length s) b'0') s (IsPlain-replicate _ b'0' (omega arith)) h

pub IsPlain-pad_right : (w : ℕ) (s : Text) → IsPlain s → IsPlain (pad_right w s)
unfolding pad_right
IsPlain-pad_right w s h =
    IsPlain-append s (replicate (w - length s) b' ') h (IsPlain-replicate _ b' ' (omega arith))

hex_runs : hex true 48879 ≡ codes "BEEF"
unfolding hex
hex_runs = refl

unfoldable pub starts_with : Text → Text → Bool
starts_with [] s = true
starts_with (p ∷ ps) [] = false
starts_with (p ∷ ps) (c ∷ cs) = p == c && starts_with ps cs

-- `str::contains`
unfoldable pub str_contains : Text → Text → Bool
unfolding starts_with
str_contains p [] = starts_with p []
str_contains p (c ∷ s) = let rest = str_contains p s in if starts_with p (c ∷ s) then true else rest
