-- ===== src/Variables/SetVariable.antt =====
-- `handle_set_variable`.
use vscode_lldb.Common.{ℕ, false, Option, none, some, []}
use vscode_lldb.Common.Text.{Text, codes}
use vscode_lldb.Errors.{str_error, Result, ok, err, blame_user}
use vscode_lldb.Variables.{
  Container, stack_frame, locals, statics, globals, registers, sb_value, VariableApi,
}
use vscode_lldb.Variables.Summary.{get_var_summary}
use vscode_lldb.Variables.Variable.{unwrap_or, get_var_handle}
use vscode_lldb.Variables.Evaluate.{EvaluateApi, EvalView, SetVariableResponseBody}

module _ (api : VariableApi) (eval : EvaluateApi api) where
  abbrev child_of :
      Text → Option (Container api.SBFrame api.SBValue) → Result eval.Future (Option api.SBValue)
  child_of name none = err (str_error (codes "Invalid variables reference"))
  child_of name (some (sb_value container)) = ok (eval.child_member_with_name name container)
  child_of name (some (locals frame)) = ok (eval.find_variable name frame)
  child_of name (some (globals frame)) = ok (eval.find_variable name frame)
  child_of name (some (statics frame)) = ok (eval.find_variable name frame)
  child_of name (some (registers frame)) = ok none
  child_of name (some (stack_frame frame)) = ok none

  abbrev Answer : Type 0
  Answer = Result eval.Future SetVariableResponseBody × api.VarRefs

  -- `child` is the variable with its new value.
  abbrev show_child : EvalView api eval → ℕ → api.VarRefs → Result eval.Future api.SBValue → Answer
  show_child view h refs (err e) = (err (blame_user e), refs)
  show_child view h refs (ok child) =
      let handle = get_var_handle api (some h) (unwrap_or [] (api.name child)) child refs in
      (
        ok (record {
          value = get_var_summary api view.settings view.clock child false;
          type_ = api.type_name child;
          variables_reference = handle.0;
        }),
        handle.1,
      )

  abbrev set_child :
      EvalView api eval → ℕ → Text → api.VarRefs → Result eval.Future (Option api.SBValue) → Answer
  set_child view h value refs (err e) = (err e, refs)
  set_child view h value refs (ok none) =
      (err (blame_user (str_error (codes "Could not set variable value."))), refs)
  set_child view h value refs (ok (some child)) =
      show_child view h refs (eval.set_value value child)

  unfoldable pub handle_set_variable : EvalView api eval → ℕ → Text → Text → api.VarRefs → Answer
  unfolding get_var_handle get_var_summary
  handle_set_variable view h name value refs =
      set_child view h value refs (child_of name (api.get_container h refs))
