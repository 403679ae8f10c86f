-- ===== src/Variables/Scope.antt =====
-- `handle_scopes`, `handle_variables` and `convert_scope_values`.
use vscode_lldb.Common.{
  ℕ, suc, Bool, true, false, Option, none, some, List, [], ◌∷◌, ◌++◌, length, if◌then◌else◌,
}
use vscode_lldb.Common.Map.{Map}
use vscode_lldb.Common.Outcome.{Outcome, ok, err, panic, out_of_fuel}
use vscode_lldb.Common.Text.{Text, codes, decimal}
use vscode_lldb.Variables.{
  ValueType, static_value, global_value, Container, stack_frame, locals, statics, globals,
  registers, sb_value, VariableApi,
}
use vscode_lldb.Variables.Names.{compose_container_eval_name}
use vscode_lldb.Variables.Summary.{Clock, Settings}
use vscode_lldb.Variables.Variable.{
  Variable, timed_out_variable, read_only_virtual, unwrap_or, place, var_to_variable,
}

pub record Scope : Type 0 where
  pub name : Text
  pub variables_reference : ℕ

abbrev pub is_static : ValueType → Bool
is_static static_value = true
is_static _ = false

abbrev pub is_global : ValueType → Bool
is_global global_value = true
is_global _ = false

abbrev pub filter {ℓ} : {A : Type ℓ} → (A → Bool) → List A → List A
filter p [] = []
filter p (x ∷ xs) = let rest = filter p xs in if p x then x ∷ rest else rest

module _ (api : VariableApi) where
  -- what the requests change: the handles, and the messages to the console
  pub record Expansion : Type 0 where
    pub var_refs : api.VarRefs
    pub console : List Text

  -- what stays the same during a request, with what is seen of the time: the clock of the loop over
  -- the variables, and that of the summary of each of them
  pub record View : Type 0 where
    pub settings : Settings
    pub global_format : api.Format
    pub clock : Clock
    pub summary_clock : ℕ → Clock

  abbrev pub timed_out_message : Text
  timed_out_message = codes "Child list expansion has timed out."

  -- behind the conversion of one variable
  abbrev pub go_on :
      View
      → ℕ
      → (List Variable × Map Text ℕ → Outcome (List Variable) × Expansion)
      → Expansion
      → Outcome (List Variable × Map Text ℕ)
      → Outcome (List Variable) × Expansion
  go_on view i again e (ok (out, idx)) =
      let rest = again (out, idx) in
      if view.clock.is_cancelled i
      then (err (codes "<cancelled>"), e)
      else if view.clock.timed_out i
      then (
        ok (out ++ timed_out_variable ∷ []),
        record { var_refs = e.var_refs; console = e.console ++ timed_out_message ∷ [] },
      )
      else rest
  go_on view i again e (err m) = (err m, e)
  go_on view i again e panic = (panic, e)
  go_on view i again e out_of_fuel = (out_of_fuel, e)

  unfoldable pub convert_from :
      View
      → ℕ
      → Text
      → Option ℕ
      → Bool
      → List Variable
      → Map Text ℕ
      → Expansion
      → List api.SBValue
      → Outcome (List Variable) × Expansion
  unfolding var_to_variable place
  convert_from view i prefix container deduplicate out idx e [] = (ok out, e)
  convert_from view i prefix container deduplicate out idx e (var ∷ vars) =
      let made =
        var_to_variable api view.settings view.global_format (view.summary_clock i) var prefix
          container e.var_refs in
      let e' : Expansion = record { var_refs = made.1; console = e.console } in
      go_on view i
        (λ placed. convert_from view (suc i) prefix container deduplicate placed.0 placed.1 e' vars)
        e' (place deduplicate made.0 out idx)

  unfoldable pub convert_scope_values :
      View
      → List api.SBValue
      → Text
      → Option ℕ
      → Bool
      → Expansion
      → Outcome (List Variable) × Expansion
  unfolding convert_from
  convert_scope_values view vars prefix container deduplicate e =
      convert_from view 0 prefix container deduplicate [] [] e vars

  -- the four scopes of a frame
  abbrev scope_of : Text → ℕ → Scope
  scope_of name handle = record { name = name; variables_reference = handle }

  abbrev scopes_of :
      ℕ
      → Option (Container api.SBFrame api.SBValue)
      → api.VarRefs
      → Outcome (List Scope) × api.VarRefs
  scopes_of frame_id (some (stack_frame frame)) refs =
      let l = api.create (some frame_id) (codes "[locs]") (locals frame) refs in
      let s = api.create (some frame_id) (codes "[stat]") (statics frame) l.1 in
      let g = api.create (some frame_id) (codes "[glob]") (globals frame) s.1 in
      let r = api.create (some frame_id) (codes "[regs]") (registers frame) g.1 in
      (
        ok (
            scope_of (codes "Local") l.0
            ∷ scope_of (codes "Static") s.0
            ∷ scope_of (codes "Global") g.0
            ∷ scope_of (codes "Registers") r.0
            ∷ []),
        r.1,
      )
  scopes_of frame_id _ refs = (err (codes "Invalid frame reference: " ++ decimal frame_id), refs)

  unfoldable pub handle_scopes : ℕ → api.VarRefs → Outcome (List Scope) × api.VarRefs
  unfolding decimal
  handle_scopes frame_id refs = scopes_of frame_id (api.get_container frame_id refs) refs

  -- The value that the last function returned stands before the locals, under a name of its own.
  abbrev with_return_value :
      View
      → ℕ
      → ℕ
      → Option api.SBValue
      → Outcome (List Variable) × Expansion
      → Outcome (List Variable) × Expansion
  with_return_value view h n (some ret_val) (ok variables, e) =
      let made =
        var_to_variable api view.settings view.global_format (view.summary_clock n) ret_val []
          (some h) e.var_refs in
      let v = made.0 in
      (
        ok (
            record {
              name = codes "[return value]";
              value = v.value;
              type_ = v.type_;
              variables_reference = v.variables_reference;
              evaluate_name = v.evaluate_name;
              memory_reference = v.memory_reference;
              presentation_hint = v.presentation_hint;
            }
            ∷ variables),
        record { var_refs = made.1; console = e.console },
      )
  with_return_value view h n _ result = result

  -- behind the children of a value that something synthesizes, the value as it is
  abbrev with_raw :
      ℕ
      → api.SBValue
      → Bool
      → Outcome (List Variable) × Expansion
      → Outcome (List Variable) × Expansion
  with_raw h var true (ok variables, e) =
      let created =
        api.create (some h) (codes "[raw]") (sb_value (api.non_synthetic_value var)) e.var_refs in
      (
        ok (
            variables
            ++ record {
              name = codes "[raw]";
              value = unwrap_or [] (api.type_name var);
              type_ = none;
              variables_reference = created.0;
              evaluate_name = none;
              memory_reference = none;
              presentation_hint = some read_only_virtual;
            }
              ∷ []),
        record { var_refs = created.1; console = e.console },
      )
  with_raw h var _ result = result

  abbrev children_of :
      View → ℕ → api.SBValue → Expansion → Outcome Text → Outcome (List Variable) × Expansion
  children_of view h var e (ok prefix) =
      with_raw h var (api.is_synthetic var)
        (convert_scope_values view (api.children var) prefix (some h) false e)
  children_of view h var e (err m) = (err m, e)
  children_of view h var e panic = (panic, e)
  children_of view h var e out_of_fuel = (out_of_fuel, e)

  abbrev pub variables_of :
      View
      → ℕ
      → ℕ
      → Option (Container api.SBFrame api.SBValue)
      → Expansion
      → Outcome (List Variable) × Expansion
  variables_of view fuel h none e = (err (codes "Invalid variabes reference"), e)
  variables_of view fuel h (some (locals frame)) e =
      let vars = api.variables true true false true frame in
      with_return_value view h (length vars) (api.stop_return_value frame)
        (convert_scope_values view vars [] (some h) true e)
  variables_of view fuel h (some (statics frame)) e =
      convert_scope_values view
        (filter (λ v. is_static (api.value_type v)) (api.variables false false true true frame)) []
        (some h) false e
  variables_of view fuel h (some (globals frame)) e =
      convert_scope_values view
        (filter (λ v. is_global (api.value_type v)) (api.variables false false true true frame)) []
        (some h) false e
  variables_of view fuel h (some (registers frame)) e =
      convert_scope_values view (api.frame_registers frame) [] (some h) false e
  variables_of view fuel h (some (sb_value var)) e =
      children_of view h var e (compose_container_eval_name api fuel e.var_refs h)
  variables_of view fuel h (some (stack_frame frame)) e = (ok [], e)

  unfoldable pub handle_variables : View → ℕ → ℕ → Expansion → Outcome (List Variable) × Expansion
  unfolding convert_scope_values compose_container_eval_name
  handle_variables view fuel h e = variables_of view fuel h (api.get_container h e.var_refs) e
