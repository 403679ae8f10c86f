-- ===== src/Variables/Expansion.antt =====
-- How `convert_scope_values` ends: at the end of the values, cancelled, or out of time.
use vscode_lldb.Common.{
  ℕ, zero, suc, ◌+◌, ◌<◌, ◌≤◌, ◌≡◌, refl, sym, ap, ◌∙◌, Bool, true, false, ◌||◌, Option, none, List,
  [], ◌∷◌, ◌++◌, length, take, ltb, if◌then◌else◌, arith, Bool-cases, inl, inr,
}
use vscode_lldb.Common.Map.{Map, get, Text_eq}
use vscode_lldb.Common.Outcome.{Outcome, ok, err}
use vscode_lldb.Common.Text.{Text, codes}
use vscode_lldb.Variables.{VariableApi}
use vscode_lldb.Variables.Variable.{Variable, timed_out_variable, var_to_variable, place}
use vscode_lldb.Variables.Scope.{Expansion, View, go_on, convert_from, convert_scope_values}
use vscode_lldb.Variables.Dedup.{
  merge, merge_all, IsIndex, place-merge, find_name, last_or, count_name, find_name-merge_all,
  count_name-merge_all,
}

-- Without an index: one more variable.
abbrev add : Bool → Variable → List Variable → List Variable
add true v out = merge v out
add false v out = out ++ v ∷ []

abbrev pub collect : Bool → List Variable → List Variable → List Variable
collect d out [] = out
collect d out (v ∷ vs) = collect d (add d v out) vs

abbrev Fits : Bool → Map Text ℕ → List Variable → Type 0
Fits true idx out = IsIndex idx out
Fits false idx out = Unit

Fits-nil : (d : Bool) → Fits d [] []
unfolding get
Fits-nil true = λ n. refl
Fits-nil false = tt

place-add :
    (d : Bool) (v : Variable) (out : List Variable) (idx : Map Text ℕ)
    → Fits d idx out
    → (idx' : Map Text ℕ) × (place d v out idx ≡ ok (add d v out, idx')) × Fits d idx' (add d v out)
unfolding place
place-add true v out idx fits = place-merge v out idx fits
place-add false v out idx fits = (idx, refl, tt)

module _ (api : VariableApi) (view : View api) (prefix : Text) (container : Option ℕ)
    (d : Bool) where
  -- the variables of all the values, in their order
  abbrev pub variables_from : ℕ → api.VarRefs → List api.SBValue → List Variable
  variables_from i refs [] = []
  variables_from i refs (c ∷ cs) =
      let made =
        var_to_variable api view.settings view.global_format (view.summary_clock i) c prefix
          container refs in
      made.0 ∷ variables_from (suc i) made.1 cs

  abbrev pub stops : ℕ → Bool
  stops i = view.clock.is_cancelled i || view.clock.timed_out i

  -- what comes of it when the loop stops behind the value number k
  abbrev pub ended : ℕ → ℕ → List Variable → List Variable → Outcome (List Variable)
  ended i k out vs =
      if ltb k (length vs)
      then (if view.clock.is_cancelled (i + k)
          then err (codes "<cancelled>")
          else ok (collect d out (take (suc k) vs) ++ timed_out_variable ∷ []))
      else ok (collect d out vs)

  length-variables_from :
      (i : ℕ) (refs : api.VarRefs) (cs : List api.SBValue)
      → length (variables_from i refs cs) ≡ length cs
  length-variables_from i refs [] = refl
  length-variables_from i refs (c ∷ cs) =
      let made =
        var_to_variable api view.settings view.global_format (view.summary_clock i) c prefix
          container refs in
      ap suc (length-variables_from (suc i) made.1 cs)

  ended-suc :
      (i k : ℕ) (v : Variable) (out vs : List Variable)
      → ended (suc i) k (add d v out) vs ≡ ended i (suc k) out (v ∷ vs)
  ended-suc i k v out vs =
      let number : suc i + k ≡ i + suc k = omega arith in
      let shorter : ltb (suc k) (length (v ∷ vs)) ≡ ltb k (length vs) = ground arith in
      rw (number, shorter) refl

  ended-zero :
      (i : ℕ) (v : Variable) (out vs : List Variable)
      → ended i 0 out (v ∷ vs) ≡ (
          if view.clock.is_cancelled i
          then err (codes "<cancelled>")
          else ok (add d v out ++ timed_out_variable ∷ []))
  ended-zero i v out vs =
      let number : i + 0 ≡ i = omega arith in
      let shorter : ltb 0 (length (v ∷ vs)) ≡ true = ground arith in rw (number, shorter) refl

  ended-end : (i k : ℕ) (out : List Variable) → k ≤ 0 → ended i k out [] ≡ ok out
  ended-end i k out le = let over : ltb k 0 ≡ false = ground arith in rw over refl

  go_on-stops :
      (i : ℕ) (again : List Variable × Map Text ℕ → Outcome (List Variable) × Expansion api)
      (e : Expansion api) {o : Outcome (List Variable × Map Text ℕ)} {out : List Variable}
      {idx : Map Text ℕ}
      → o ≡ ok (out, idx)
      → stops i ≡ true
      → (go_on api view i again e o).0 ≡ (
          if view.clock.is_cancelled i
          then err (codes "<cancelled>")
          else ok (out ++ timed_out_variable ∷ []))
  go_on-stops i again e h stop = elim (Bool-cases (view.clock.is_cancelled i)) [
    | inl cancelled ↦ rw (h, cancelled) refl
    | inr other ↦
        let late : view.clock.timed_out i ≡ true = ground (arith, stop, other) in
        rw (h, other, late) refl
  ]

  go_on-on :
      (i : ℕ) (again : List Variable × Map Text ℕ → Outcome (List Variable) × Expansion api)
      (e : Expansion api) {o : Outcome (List Variable × Map Text ℕ)} {out : List Variable}
      {idx : Map Text ℕ}
      → o ≡ ok (out, idx)
      → stops i ≡ false
      → (go_on api view i again e o).0 ≡ (again (out, idx)).0
  go_on-on i again e h on =
      let other : view.clock.is_cancelled i ≡ false = ground (arith, on) in
      let early : view.clock.timed_out i ≡ false = ground (arith, on) in rw (h, other, early) refl

  stops-eq : {i j : ℕ} {b : Bool} → i ≡ j → stops i ≡ b → stops j ≡ b
  stops-eq p h = rw (sym p) h

  -- the rest of the loop
  abbrev again :
      ℕ
      → api.VarRefs
      → List Text
      → List api.SBValue
      → List Variable × Map Text ℕ
      → Outcome (List Variable) × Expansion api
  again i refs console cs placed =
      convert_from api view (suc i) prefix container d placed.0 placed.1
        (record { var_refs = refs; console = console }) cs

  convert_from-ended :
      (cs : List api.SBValue) (i k : ℕ) (out : List Variable) (idx : Map Text ℕ) (e : Expansion api)
      → Fits d idx out
      → k ≤ length cs
      → ((j : ℕ) → j < k → stops (i + j) ≡ false)
      → (k < length cs → stops (i + k) ≡ true)
      → (convert_from api view i prefix container d out idx e cs).0
        ≡ ended i k out (variables_from i e.var_refs cs)
  unfolding convert_from
  convert_from-ended [] i k out idx e fits le before at = sym (ended-end i k out le)
  convert_from-ended (c ∷ cs) i zero out idx e fits le before at =
      let made =
        var_to_variable api view.settings view.global_format (view.summary_clock i) c prefix
          container e.var_refs in
      let fit = place-add d made.0 out idx fits in
      go_on-stops i (again i made.1 e.console cs)
        (record { var_refs = made.1; console = e.console }) fit.1
        (stops-eq (omega arith) (at (omega arith)))
      ∙ sym (ended-zero i made.0 out (variables_from (suc i) made.1 cs))
  convert_from-ended (c ∷ cs) i (suc k) out idx e fits le before at =
      let made =
        var_to_variable api view.settings view.global_format (view.summary_clock i) c prefix
          container e.var_refs in
      let fit = place-add d made.0 out idx fits in
      let e' : Expansion api = record { var_refs = made.1; console = e.console } in
      go_on-on i (again i made.1 e.console cs) e' fit.1
        (stops-eq (omega arith) (before 0 (omega arith)))
      ∙ convert_from-ended cs (suc i) k (add d made.0 out) fit.0 e' fit.2 (omega arith)
          (λ j lt. stops-eq (omega arith) (before (suc j) (omega arith)))
          (λ lt. stops-eq (omega arith) (at (omega arith)))
      ∙ ended-suc i k made.0 out (variables_from (suc i) made.1 cs)

  -- The conversion of a scope's values looks behind each value whether the request is cancelled or
  -- the time is up. If the value number k is the first behind which one of them holds (or k is the
  -- number of the values), then the result is an error where the request is cancelled, the variables
  -- up to that one and an entry "[timed out]" where it is late, and the variables of all the values
  -- otherwise. Where names are to be unique, a variable has the place of the first of its name in the
  -- list, as if there were no index; otherwise the list has every variable. It never panics.
  pub convert_scope_values_lem :
      (vars : List api.SBValue) (e : Expansion api) (k : ℕ)
      → k ≤ length vars
      → ((j : ℕ) → j < k → stops j ≡ false)
      → (k < length vars → stops k ≡ true)
      → (convert_scope_values api view vars prefix container d e).0
        ≡ ended 0 k [] (variables_from 0 e.var_refs vars)
  unfolding convert_scope_values
  convert_scope_values_lem vars e k le before at =
      convert_from-ended vars 0 k [] [] e (Fits-nil d) le
        (λ j lt. stops-eq (omega arith) (before j lt)) (λ lt. stops-eq (omega arith) (at lt))

collect-true : (out vs : List Variable) → collect true out vs ≡ merge_all out vs
collect-true out [] = refl
collect-true out (v ∷ vs) = collect-true (merge v out) vs

-- A scope that is converted with unique names to its end has one variable for each name of its
-- values: the last one with that name.
pub convert_scope_values_unique :
    (api : VariableApi) (view : View api) (prefix : Text) (container : Option ℕ)
    (vars : List api.SBValue) (e : Expansion api)
    → ((j : ℕ) → j < length vars → stops api view prefix container true j ≡ false)
    → (out : List Variable) × ((convert_scope_values api view vars prefix container true e).0
        ≡ ok out)
      × ((n : Text)
          → (find_name n out
              ≡ last_or none n (variables_from api view prefix container true 0 e.var_refs vars))
            × (count_name n out ≤ 1))
convert_scope_values_unique api view prefix container vars e clear =
    let made = variables_from api view prefix container true 0 e.var_refs vars in
    let over : ltb (length vars) (length made) ≡ false =
      ground (arith, length-variables_from api view prefix container true 0 e.var_refs vars) in
    (
      merge_all [] made,
      convert_scope_values_lem api view prefix container true vars e (length vars) (omega arith)
            clear (λ lt. absurd (omega arith))
          ∙ rw over (ap ok (collect-true [] made)),
      λ n. (find_name-merge_all n [] made, count_name-merge_all n [] made (omega arith)),
    )
