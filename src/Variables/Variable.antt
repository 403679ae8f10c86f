-- ===== src/Variables/Variable.antt =====
-- `var_to_variable` and what it takes from a value: the texts of the variable, its handle and its
-- memory reference; and the place it gets in a list.
use vscode_lldb.Common.{
  ℕ, ◌-◌, ◌^◌, Bool, true, false, ◌||◌, not, Option, none, some, List, [], ◌∷◌, ◌++◌, length, set,
  ◌==◌, ltb, if◌then◌else◌,
}
use vscode_lldb.Common.Map.{Map, get, insert, Text_eq}
use vscode_lldb.Common.Outcome.{Outcome, ok, panic}
use vscode_lldb.Common.Text.{Text, codes, hex}
use vscode_lldb.Variables
use vscode_lldb.Variables.{
  BasicType, ValueType, register_value, static_value, global_value, Container, stack_frame, locals,
  statics, globals, registers, sb_value, VariableApi,
}
use vscode_lldb.Variables.Names.{compose_eval_name}
use vscode_lldb.Variables.Summary.{Clock, Settings, get_var_summary}

pub record Variable : Type 0 where
  pub name : Text
  pub value : Text
  pub type_ : Option Text
  pub variables_reference : ℕ
  pub evaluate_name : Option Text
  pub memory_reference : Option Text
  -- the attributes of the presentation hint
  pub presentation_hint : Option (List Text)

abbrev read_only : List Text
read_only = codes "readOnly" ∷ []

abbrev pub read_only_virtual : List Text
read_only_virtual = codes "readOnly" ∷ codes "virtual" ∷ []

unfoldable pub is_settable : BasicType → Bool
is_settable Variables.invalid_type = false
is_settable Variables.void = false
is_settable Variables.other_type = false
is_settable _ = true

abbrev pub unwrap_or {ℓ} : {A : Type ℓ} → A → Option A → A
unwrap_or d none = d
unwrap_or d (some a) = a

abbrev pub timed_out_variable : Variable
timed_out_variable = record {
  name = codes "[timed out]";
  value = [];
  type_ = some (codes "Expansion of this list has timed out.");
  variables_reference = 0;
  evaluate_name = none;
  memory_reference = none;
  presentation_hint = some read_only_virtual;
}

-- A variable takes the place of one of its name, which the index finds; an index outside of the
-- vector panics.
abbrev pub place_at :
    Option ℕ → Variable → List Variable → Map Text ℕ → Outcome (List Variable × Map Text ℕ)
place_at none v vs idx = ok (vs ++ v ∷ [], insert v.name (length vs) idx)
place_at (some i) v vs idx = if ltb i (length vs) then ok (set vs i v, idx) else panic

unfoldable pub place :
    Bool → Variable → List Variable → Map Text ℕ → Outcome (List Variable × Map Text ℕ)
unfolding get insert
place false v vs idx = ok (vs ++ v ∷ [], idx)
place true v vs idx = place_at (get v.name idx) v vs idx

module _ (api : VariableApi) where
  abbrev reference_of : ValueType → api.SBValue → Text
  reference_of register_value var = codes "0x" ++ hex true (api.value_as_unsigned var)
  reference_of _ var =
      codes "0x"
      ++ hex true
          (if api.is_pointer_type var then api.value_as_unsigned var else api.load_address var)

  abbrev is_register : ValueType → Bool
  is_register register_value = true
  is_register _ = false

  abbrev mem_ref_of : Option Bool → api.SBValue → Option Text
  mem_ref_of (some true) var =
      if is_register (api.value_type var)
        || (api.is_pointer_type var || not (api.load_address var == 2 ^ 64 - 1))
      then some (reference_of (api.value_type var) var)
      else none
  mem_ref_of _ var = none

  unfoldable pub get_mem_ref_for_var : Settings → api.SBValue → Option Text
  unfolding hex
  get_mem_ref_for_var s var = mem_ref_of s.supports_memory_references var

  unfoldable pub get_var_handle :
      Option ℕ → Text → api.SBValue → api.VarRefs → Option ℕ × api.VarRefs
  get_var_handle parent key var refs =
      let created = api.create parent key (sb_value var) refs in
      if ltb 0 (api.num_children var) || api.is_synthetic var
      then (some created.0, created.1)
      else (none, refs)

  abbrev native_name : Option Text → Option Text
  native_name none = none
  native_name (some path) = some (codes "/nat " ++ path)

  -- the variable under the session's format
  abbrev formatted : api.Format → api.SBValue → api.SBValue
  formatted global_format var =
      if api.is_default global_format then var else api.set_format global_format var

  unfoldable pub var_to_variable :
      Settings
      → api.Format
      → Clock
      → api.SBValue
      → Text
      → Option ℕ
      → api.VarRefs
      → Variable × api.VarRefs
  unfolding compose_eval_name get_var_summary get_var_handle get_mem_ref_for_var is_settable
  var_to_variable s global_format clock var container_eval_name container_handle refs =
      let name = unwrap_or [] (api.name var) in
      let var' = formatted global_format var in
      let handle = get_var_handle container_handle name var' refs in
      (
        record {
          name = name;
          value = get_var_summary api s clock var' false;
          type_ = api.display_type_name var;
          variables_reference = unwrap_or 0 handle.0;
          evaluate_name =
              if api.prefer_synthetic_value var'
              then some (compose_eval_name container_eval_name name)
              else native_name (api.expression_path var');
          memory_reference = get_mem_ref_for_var s var';
          presentation_hint = if is_settable (api.basic_type var') then none else some read_only;
        },
        handle.1,
      )
