-- ===== src/Strings/Tests.antt =====
-- A function that reports the length of what it has stored, and instances.
use vscode_lldb.Common.{
  ℕ, zero, suc, ◌+◌, ◌-◌, ◌≤◌, ◌<◌, ◌≡◌, inr, refl, true, false, List, [], ◌∷◌, ◌++◌, take, arith,
}
use Prim.Native.Nat.{min}
use vscode_lldb.Common.Outcome.{ok, panic}
use vscode_lldb.Strings.{FillApi, until_nul, has_nul, with_cstr, get_cstring}
use vscode_lldb.Strings.Filling.{with_cstr_lem, Fills, get_cstring_lem}

abbrev greeting : List ℕ
greeting = 104 ∷ 105 ∷ []

abbrev storing : FillApi
storing = record {
  fill = λ room. (take (room - 1) greeting ++ 0 ∷ [], min 2 (room - 1) + 1);
  capacity = λ n. n;
}

stored : (n : ℕ) → until_nul (take n greeting ++ 0 ∷ []) ≡ take n greeting
unfolding until_nul
stored zero = refl
stored (suc zero) = refl
stored (suc (suc zero)) = refl
stored (suc (suc (suc n))) = refl

storing-Fills : Fills storing greeting
storing-Fills = record {
  stores = λ room positive. stored (room - 1);
  reports = λ room. (1, omega arith, inr refl);
  has_capacity = λ n. omega arith;
}

get_cstring_lem_example : get_cstring storing ≡ ok greeting
get_cstring_lem_example = get_cstring_lem storing greeting storing-Fills (omega arith)

with_cstr_lem_example :
    (has_nul (104 ∷ 0 ∷ 105 ∷ []) ≡ false
      → with_cstr (104 ∷ 0 ∷ 105 ∷ []) ≡ ok (104 ∷ 0 ∷ 105 ∷ []))
    × (has_nul (104 ∷ 0 ∷ 105 ∷ []) ≡ true
        → 3 < 256
        → with_cstr (104 ∷ 0 ∷ 105 ∷ []) ≡ ok (104 ∷ []))
    × (has_nul (104 ∷ 0 ∷ 105 ∷ []) ≡ true → 256 ≤ 3 → with_cstr (104 ∷ 0 ∷ 105 ∷ []) ≡ panic)
unfolding until_nul
with_cstr_lem_example = with_cstr_lem (104 ∷ 0 ∷ 105 ∷ [])
