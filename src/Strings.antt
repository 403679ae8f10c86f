-- ===== src/Strings.antt =====
-- src/lldb/src/strings.rs: texts that go to liblldb and come from it. A text is the list of its
-- bytes; the function that is called with a pointer is a parameter.
pub mod Filling
mod Tests
use vscode_lldb.Common.{
  ℕ, zero, suc, ◌+◌, ◌-◌, ◌*◌, ◌^◌, Bool, true, false, List, [], ◌∷◌, ◌++◌, ltb, leb, ◌==◌,
  if◌then◌else◌, length,
}
use vscode_lldb.Common.Outcome.{Outcome, ok, panic, out_of_fuel}

-- the bytes at a pointer, up to the first NUL
unfoldable pub until_nul : List ℕ → List ℕ
until_nul [] = []
until_nul (b ∷ bytes) = let rest = until_nul bytes in if b == 0 then [] else b ∷ rest

unfoldable pub has_nul : List ℕ → Bool
has_nul [] = false
has_nul (b ∷ bytes) = let rest = has_nul bytes in if b == 0 then true else rest

-- what the function sees: a short text is copied to the stack, a longer one to a `CString`, whose
-- `new` refuses a NUL inside
unfoldable pub with_cstr : List ℕ → Outcome (List ℕ)
unfolding until_nul has_nul
with_cstr bytes =
    if ltb (length bytes) 256
    then ok (until_nul (bytes ++ 0 ∷ []))
    else if has_nul bytes
    then panic
    else ok (until_nul (bytes ++ 0 ∷ []))

pub record FillApi : Type 0 where
  -- what is stored in a buffer of that capacity, and the size that is reported
  pub fill : ℕ → List ℕ × ℕ
  -- the capacity that a vector has that was asked for that much
  pub capacity : ℕ → ℕ

module _ (api : FillApi) where
  -- `size as isize` is negative, and the assertion fails, from 2 ^ 63 on.
  abbrev pub taken : ℕ → List ℕ × ℕ → Outcome (List ℕ) → Outcome (List ℕ)
  taken room (bytes, size) otherwise =
      if leb (2 ^ 63) size
      then panic
      else if ltb size (room - 1)
      then ok (until_nul bytes)
      else otherwise

  unfoldable pub fill_loop : ℕ → ℕ → Outcome (List ℕ)
  unfolding until_nul
  fill_loop zero room = out_of_fuel
  fill_loop (suc fuel) room =
      let rest = fill_loop fuel (api.capacity (room * 2)) in taken room (api.fill room) rest

  abbrev pub next_capacity : ℕ → ℕ
  next_capacity size = if ltb 1024 size then size + 2 else 2048

  unfoldable pub get_cstring : Outcome (List ℕ)
  unfolding fill_loop
  get_cstring =
      taken 1024 (api.fill 1024) (fill_loop 64 (api.capacity (next_capacity (api.fill 1024).1)))
