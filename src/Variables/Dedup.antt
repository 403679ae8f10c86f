-- ===== src/Variables/Dedup.antt =====
-- What the conversion of a scope's values gives: with the index by names, against a list without one.
use vscode_lldb.Common.{
  ℕ, zero, suc, ◌+◌, ◌<◌, ◌≤◌, ◌≡◌, refl, sym, ◌∙◌, true, Option, none, some, List, [], ◌∷◌, ◌++◌,
  length, set, ltb, lt→ltb, if◌then◌else◌, arith,
}
use vscode_lldb.Common.Map.{Map, get, insert, get-insert, Text_eq}
use vscode_lldb.Common.Outcome.{ok}
use vscode_lldb.Common.Text.{Text, text_eq, text_eq_iff}
use vscode_lldb.Variables.Variable.{Variable, place, place_at}

-- Without an index: a variable replaces the one of its name, or comes last.
abbrev pub merge : Variable → List Variable → List Variable
merge v [] = v ∷ []
merge v (x ∷ xs) = let rest = merge v xs in if text_eq v.name x.name then v ∷ xs else x ∷ rest

abbrev suc? : Option ℕ → Option ℕ
suc? none = none
suc? (some i) = some (suc i)

-- where the name stands
abbrev position : Text → List Variable → Option ℕ
position n [] = none
position n (x ∷ xs) = let rest = suc? (position n xs) in if text_eq n x.name then some 0 else rest

-- The index has every name's place.
abbrev pub IsIndex : Map Text ℕ → List Variable → Type 0
IsIndex idx vs = (n : Text) → get n idx ≡ position n vs

position-some :
    (v : Variable) (vs : List Variable) (i : ℕ)
    → position v.name vs ≡ some i
    → (i < length vs) × (set vs i v ≡ merge v vs)
position-some v [] i h = cc
position-some v (x ∷ xs) zero h = ground (arith, position-some v xs zero)
position-some v (x ∷ xs) (suc i) h = ground (arith, position-some v xs i)

position-none :
    (v : Variable) (vs : List Variable) → position v.name vs ≡ none → vs ++ v ∷ [] ≡ merge v vs
position-none v [] h = refl
position-none v (x ∷ xs) h = ground (arith, position-none v xs)

position-merge :
    (v : Variable) (n : Text) (vs : List Variable)
    → position n (merge v vs) ≡ elim (position v.name vs) [
      | none ↦ if text_eq n v.name then some (length vs) else position n vs
      | some i ↦ position n vs
    ]
position-merge v n [] = refl
position-merge v n (x ∷ xs) = ground (
  arith,
  position-merge v n xs,
  text_eq_iff n v.name,
  text_eq_iff v.name x.name,
  text_eq_iff n x.name,
)

pub place_at-merge :
    (v : Variable) (vs : List Variable) (idx : Map Text ℕ)
    → IsIndex idx vs
    → (o : Option ℕ) → position v.name vs ≡ o
    → (idx' : Map Text ℕ) × (place_at o v vs idx ≡ ok (merge v vs, idx'))
      × IsIndex idx' (merge v vs)
place_at-merge v vs idx ix none new = (
  insert v.name (length vs) idx,
  rw (position-none v vs new) refl,
  λ n. get-insert n v.name (length vs) idx ∙ rw (ix n, position-merge v n vs, new) refl,
)
place_at-merge v vs idx ix (some i) old =
    let found = position-some v vs i old in
    (
      idx,
      rw (lt→ltb i (length vs) found.0, found.1) refl,
      λ n. ix n ∙ rw (position-merge v n vs, old) refl,
    )

pub place-merge :
    (v : Variable) (vs : List Variable) (idx : Map Text ℕ)
    → IsIndex idx vs
    → (idx' : Map Text ℕ) × (place true v vs idx ≡ ok (merge v vs, idx'))
      × IsIndex idx' (merge v vs)
unfolding place
place-merge v vs idx ix = place_at-merge v vs idx ix (get v.name idx) (sym (ix v.name))

-- the entry of a name
abbrev pub find_name : Text → List Variable → Option Variable
find_name n [] = none
find_name n (x ∷ xs) = let rest = find_name n xs in if text_eq n x.name then some x else rest

abbrev pub count_name : Text → List Variable → ℕ
count_name n [] = 0
count_name n (x ∷ xs) = (if text_eq n x.name then 1 else 0) + count_name n xs

-- the last of a name, or the default
abbrev pub last_or : Option Variable → Text → List Variable → Option Variable
last_or d n [] = d
last_or d n (x ∷ xs) = last_or (if text_eq n x.name then some x else d) n xs

abbrev pub merge_all : List Variable → List Variable → List Variable
merge_all out [] = out
merge_all out (v ∷ vs) = merge_all (merge v out) vs

find_name-merge :
    (v : Variable) (n : Text) (vs : List Variable)
    → find_name n (merge v vs) ≡ (if text_eq n v.name then some v else find_name n vs)
find_name-merge v n [] = refl
find_name-merge v n (x ∷ xs) = ground (
  arith,
  find_name-merge v n xs,
  text_eq_iff n v.name,
  text_eq_iff v.name x.name,
  text_eq_iff n x.name,
)

count_name-merge :
    (v : Variable) (n : Text) (vs : List Variable)
    → count_name n (merge v vs) ≡ (
        if text_eq n v.name
        then (if ltb 0 (count_name n vs) then count_name n vs else 1)
        else count_name n vs)
count_name-merge v n [] = ground arith
count_name-merge v n (x ∷ xs) = ground (
  arith,
  count_name-merge v n xs,
  text_eq_iff n v.name,
  text_eq_iff v.name x.name,
  text_eq_iff n x.name,
)

pub find_name-merge_all :
    (n : Text) (out vs : List Variable)
    → find_name n (merge_all out vs) ≡ last_or (find_name n out) n vs
find_name-merge_all n out [] = refl
find_name-merge_all n out (v ∷ vs) =
    find_name-merge_all n (merge v out) vs ∙ rw (find_name-merge v n out) refl

pub count_name-merge_all :
    (n : Text) (out vs : List Variable) → count_name n out ≤ 1 → count_name n (merge_all out vs) ≤ 1
count_name-merge_all n out [] h = h
count_name-merge_all n out (v ∷ vs) h =
    count_name-merge_all n (merge v out) vs (ground (arith, count_name-merge v n out, h))
