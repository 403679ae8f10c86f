-- ===== src/Strings/Filling.antt =====
-- Texts arrive whole.
use vscode_lldb.Common.{
  ℕ, zero, suc, ◌+◌, ◌-◌, ◌*◌, ◌^◌, ◌≤◌, ◌<◌, ◌≡◌, ◌⊎◌, inl, inr, refl, ap, ◌∙◌, true, false, List,
  [], ◌∷◌, ◌++◌, ltb, leb, ◌==◌, length, take, arith, Bool-cases,
}
use Prim.Native.Nat.{min}
use native.Mathlib.Nat.{two-pow-succ}
use vscode_lldb.Common.Outcome.{Outcome, ok, panic}
use vscode_lldb.Strings.{
  FillApi, until_nul, has_nul, with_cstr, taken, fill_loop, next_capacity, get_cstring,
}

until_nul-whole : (bytes : List ℕ) → has_nul bytes ≡ false → until_nul (bytes ++ 0 ∷ []) ≡ bytes
unfolding until_nul has_nul
until_nul-whole [] h = refl
until_nul-whole (b ∷ bytes) h = elim (Bool-cases (b == 0)) [
  | inl nul ↦ cc (rw nul at h)
  | inr other ↦ rw other (ap (λ bs. b ∷ bs) (until_nul-whole bytes (rw other at h)))
]

-- A text without a NUL arrives whole, however long it is. One with a NUL is cut there if it is
-- shorter than 256 bytes, and panics otherwise.
pub with_cstr_lem :
    (bytes : List ℕ)
    → (has_nul bytes ≡ false → with_cstr bytes ≡ ok bytes)
      × (has_nul bytes ≡ true
          → length bytes < 256
          → with_cstr bytes ≡ ok (until_nul (bytes ++ 0 ∷ [])))
      × (has_nul bytes ≡ true → 256 ≤ length bytes → with_cstr bytes ≡ panic)
unfolding with_cstr
with_cstr_lem bytes = (
  λ h. ground (arith, h, until_nul-whole bytes h),
  λ h le. ground (arith, h, le),
  λ h le. ground (arith, h, le),
)

take-all : (n : ℕ) (s : List ℕ) → length s ≤ n → take n s ≡ s
take-all zero [] h = refl
take-all zero (x ∷ s) h = absurd (omega (arith, h))
take-all (suc n) [] h = refl
take-all (suc n) (x ∷ s) h = ap (λ t. x ∷ t) (take-all n s (omega (arith, h)))

-- The function stores the text, or as much of it as fits with its NUL, and reports the length of the
-- text or of what it has stored, each with or without the NUL.
pub record Fills (api : FillApi) (s : List ℕ) : Type 0 where
  pub stores : (room : ℕ) → 0 < room → until_nul (api.fill room).0 ≡ take (room - 1) s
  pub reports :
      (room : ℕ)
      → (d : ℕ) × (d ≤ 1)
        × (((api.fill room).1 ≡ length s + d) ⊎ ((api.fill room).1 ≡ min (length s) (room - 1) + d))
  pub has_capacity : (n : ℕ) → n ≤ api.capacity n

module _ (api : FillApi) (s : List ℕ) (f : Fills api s) where
  -- If a call does not end the matter, the buffer was too small.
  taken-whole :
      (room : ℕ) (otherwise : Outcome (List ℕ))
      → 0 < room
      → length s < 2 ^ 62
      → (room ≤ length s + 2 → otherwise ≡ ok s)
      → taken api room (api.fill room) otherwise ≡ ok s
  taken-whole room otherwise positive short later =
      let (d, small, which) = f.reports room in
      let size = (api.fill room).1 in
      let no_panic : leb (2 ^ 63) size ≡ false = elim which [
        | inl e ↦ ground (arith, e)
        | inr e ↦ ground (arith, e)
      ] in
      elim (Bool-cases (ltb size (room - 1))) [
        | inl fits ↦
            let enough : length s ≤ room - 1 = elim which [
              | inl e ↦ ground (arith, e, fits)
              | inr e ↦ ground (arith, e, fits)
            ] in
            rw (no_panic, fits) (ap ok (f.stores room positive ∙ take-all (room - 1) s enough))
        | inr full ↦
            let small_buffer : room ≤ length s + 2 = elim which [
              | inl e ↦ ground (arith, e, full)
              | inr e ↦ ground (arith, e, full)
            ] in
            rw (no_panic, full) (later small_buffer)
      ]

  fill_loop-whole :
      (n k room : ℕ)
      → length s < 2 ^ 62
      → 2 ^ k ≤ room
      → 0 < room
      → length s + 2 < 2 ^ (k + n)
      → fill_loop api (suc n) room ≡ ok s
  unfolding fill_loop
  fill_loop-whole zero k room short le positive bound =
      let same : 2 ^ (k + 0) ≡ 2 ^ k = ap (λ m. 2 ^ m) (omega arith) in
      taken-whole room _ positive short (λ small. absurd (omega (arith, small, le, bound, same)))
  fill_loop-whole (suc n) k room short le positive bound =
      let grown = f.has_capacity (room * 2) in
      let same : 2 ^ (suc k + n) ≡ 2 ^ (k + suc n) = ap (λ m. 2 ^ m) (omega arith) in
      taken-whole room _ positive short (λ small.
        fill_loop-whole n (suc k) (api.capacity (room * 2)) short
          (omega (arith, two-pow-succ k, le, grown)) (omega (arith, grown, positive))
          (omega (arith, bound, same)))

  -- A text of fewer than 2 ^ 62 bytes, from a function that stores as much of it as fits and reports
  -- its length or the length of what it has stored, with or without the NUL, is returned whole: the
  -- loop ends, with a buffer that is large enough.
  pub get_cstring_lem : length s < 2 ^ 62 → get_cstring api ≡ ok s
  unfolding get_cstring
  get_cstring_lem short =
      let room = next_capacity api (api.fill 1024).1 in
      let grown = f.has_capacity room in
      let large : 1024 ≤ room = ground arith in
      taken-whole 1024 _ (omega arith) short (λ small.
        fill_loop-whole 63 10 (api.capacity room) short (omega (arith, grown, large))
          (omega (arith, grown, large)) (omega (arith, short)))
