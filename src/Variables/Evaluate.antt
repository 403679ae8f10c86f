-- ===== src/Variables/Evaluate.antt =====
-- `handle_evaluate`: which text is evaluated as an expression, and which is executed as a command.
use vscode_lldb.Common.{
  ◌⊎◌, inl, inr, ℕ, Bool, true, false, Option, none, some, List, [], ◌∷◌, drop, ◌==◌, ◌&&◌, ◌||◌,
  leb, if◌then◌else◌,
}
use vscode_lldb.Common.Text.{Text, codes, starts_with}
use vscode_lldb.Expressions.{
  Expressions, PreparedExpression, native, simple, python, EvalContext, simple_expression,
  python_expression, FormatSpec, Grammars, prepare_with_format,
}
use vscode_lldb.Errors.{
  str_error, Result, ok, err, map_err, blame_user, blame_nobody, async_response, ◌>>=◌,
}
use vscode_lldb.Variables.{Container, stack_frame, VariableApi}
use vscode_lldb.Variables.Summary.{Settings, Clock, get_var_summary}
use vscode_lldb.Variables.Variable.{unwrap_or, get_var_handle, get_mem_ref_for_var}

pub data ConsoleMode : Type 0 where
  commands split evaluate : ConsoleMode

pub record CommandReturn : Type 0 where
  pub succeeded : Bool
  pub output : List ℕ
  pub error : List ℕ

pub record EvaluateResponseBody : Type 0 where
  pub result : Text
  pub type_ : Option Text
  pub variables_reference : ℕ
  pub memory_reference : Option Text

pub record SetVariableResponseBody : Type 0 where
  pub value : Text
  pub type_ : Option Text
  pub variables_reference : Option ℕ

pub data Context : Type 0 where
  repl clipboard hover command_context other_context : Context

-- what is done with the text of a request; the flag asks for the whole text of a value, or for the
-- output of a command
pub data Action : Type 0 where
  evaluate_expression execute_command : Text → Bool → Action

abbrev pub route_console : ConsoleMode → Text → Action
route_console commands text =
    if starts_with (codes "?") text
    then evaluate_expression (drop 1 text) false
    else execute_command text false
route_console _ text =
    if starts_with (codes "`") text
    then execute_command (drop 1 text) false
    else if starts_with (codes "/cmd ") text
    then execute_command (drop 5 text) false
    else evaluate_expression text false

abbrev pub route : Bool → ConsoleMode → Context → Text → Option Action
route hovers mode repl text = some (route_console mode text)
route hovers mode clipboard text = some (evaluate_expression text true)
route hovers mode hover text = if hovers then some (evaluate_expression text false) else none
route hovers mode command_context text = some (execute_command text true)
route hovers mode other_context text = some (evaluate_expression text false)

-- `trim_end`, on texts of ASCII
abbrev is_space : ℕ → Bool
is_space c = c == b' ' || (leb 9 c && leb c 13)

abbrev cons_trimmed : ℕ → Text → Text
cons_trimmed c [] = if is_space c then [] else c ∷ []
cons_trimmed c (d ∷ t) = c ∷ d ∷ t

unfoldable pub trim_end : Text → Text
trim_end [] = []
trim_end (c ∷ t) = cons_trimmed c (trim_end t)

-- What the evaluation uses besides: frames, the command interpreter, the Python interpreter, the
-- preparation of expressions, and the arrays of liblldb.
pub record EvaluateApi (api : VariableApi) : Type 1 where
  pub Future : Type 0
  pub Debugger : Type 0
  pub PyObject : Type 0
  pub SBType : Type 0
  pub SBAddress : Type 0
  pub ready : Result Future EvaluateResponseBody → Future
  pub selected_frame : api.SBFrame → api.SBFrame
  pub clone_console_pipe : Debugger → Result Future Unit
  pub handle_command : Text → Option api.SBFrame → Debugger → CommandReturn × Debugger
  pub frame_evaluate : api.SBFrame → Text → Result Future api.SBValue
  pub target_evaluate : Text → Result Future api.SBValue
  pub compile_code : Text → Result Future PyObject
  pub python_evaluate : PyObject → Option api.SBFrame → EvalContext → Result Future api.SBValue
  pub grammars : Grammars api.Format
  pub is_array : api.SBValue → Bool
  -- an array of so many: of what the value points to, of its elements, of itself
  pub pointee_array_type : ℕ → api.SBValue → SBType
  pub element_array_type : ℕ → api.SBValue → SBType
  pub array_type : ℕ → api.SBValue → SBType
  pub dereference_result : api.SBValue → Result Future api.SBValue
  pub address : api.SBValue → Option SBAddress
  pub create_value_from_address : api.SBValue → Text → SBAddress → SBType → api.SBValue
  pub child_member_with_name : Text → api.SBValue → Option api.SBValue
  pub find_variable : Text → api.SBFrame → Option api.SBValue
  pub set_value : Text → api.SBValue → Result Future api.SBValue

module _ (api : VariableApi) (eval : EvaluateApi api) where
  -- the session, as far as evaluation reads it
  pub record EvalView : Type 0 where
    pub settings : Settings
    pub global_format : api.Format
    pub clock : Clock
    pub console_mode : ConsoleMode
    pub selected_frame_changed : Bool
    pub evaluate_for_hovers : Bool
    pub default_expr_type : Expressions
    pub has_python : Bool

  pub record EvalState : Type 0 where
    pub var_refs : api.VarRefs
    pub debugger : eval.Debugger

  abbrev Answer : Type 0
  Answer = Result eval.Future EvaluateResponseBody

  abbrev frame_of : EvalView → Option (Container api.SBFrame api.SBValue) → Option api.SBFrame
  frame_of view (some (stack_frame frame)) =
      some (if view.selected_frame_changed then eval.selected_frame frame else frame)
  frame_of view _ = none

  unfoldable pub evaluation_frame : EvalView → api.VarRefs → Option ℕ → Option api.SBFrame
  evaluation_frame view refs none = none
  evaluation_frame view refs (some frame_id) = frame_of view (api.get_container frame_id refs)

  abbrev command_answer : Bool → CommandReturn → Answer
  command_answer return_output r =
      if r.succeeded
      then ok (record {
        result = if return_output then trim_end (api.lossy r.output) else [];
        type_ = none;
        variables_reference = 0;
        memory_reference = none;
      })
      else err (blame_user (str_error (trim_end (api.lossy r.error))))

  abbrev with_pipe :
      Result eval.Future Unit → Text → Option api.SBFrame → Bool → EvalState → Answer × EvalState
  with_pipe (err e) command frame return_output s = (err e, s)
  with_pipe (ok u) command frame return_output s =
      let done = eval.handle_command command frame s.debugger in
      (command_answer return_output done.0, record { var_refs = s.var_refs; debugger = done.1 })

  unfoldable pub handle_execute_command :
      Text → Option api.SBFrame → Bool → EvalState → Answer × EvalState
  unfolding trim_end
  handle_execute_command command frame return_output s =
      with_pipe (eval.clone_console_pipe s.debugger) command frame return_output s

  abbrev native_evaluate : Text → Option api.SBFrame → Result eval.Future api.SBValue
  native_evaluate text none = eval.target_evaluate text
  native_evaluate text (some frame) = eval.frame_evaluate frame text

  abbrev run_python : Text → Option api.SBFrame → EvalContext → Result eval.Future api.SBValue
  run_python text frame context = map_err blame_user (eval.compile_code text) >>= λ code.
      map_err blame_user (eval.python_evaluate code frame context)

  abbrev no_python : Result eval.Future api.SBValue
  no_python = err (blame_user (str_error (codes "Python expressions are disabled.")))

  unfoldable pub evaluate_expr_in_frame :
      EvalView → PreparedExpression → Option api.SBFrame → Result eval.Future api.SBValue
  evaluate_expr_in_frame view (native text) frame = map_err blame_user (native_evaluate text frame)
  evaluate_expr_in_frame view (python text) frame =
      if view.has_python then run_python text frame python_expression else no_python
  evaluate_expr_in_frame view (simple text) frame =
      if view.has_python then run_python text frame simple_expression else no_python

  abbrev or_no_address : Option eval.SBAddress → Result eval.Future eval.SBAddress
  or_no_address none = err (str_error (codes "No address"))
  or_no_address (some a) = ok a

  abbrev at_address :
      api.SBValue → eval.SBType → Option eval.SBAddress → Result eval.Future api.SBValue
  at_address sbval ty a = or_no_address a >>= λ addr.
      ok (eval.create_value_from_address sbval (codes "(as array)") addr ty)

  abbrev as_array : Option ℕ → api.SBValue → Result eval.Future api.SBValue
  as_array none sbval = ok sbval
  as_array (some size) sbval =
      if api.is_pointer_or_reference sbval
      then (eval.dereference_result sbval >>= λ pointee.
          at_address sbval (eval.pointee_array_type size sbval) (eval.address pointee))
      else if eval.is_array sbval
      then at_address sbval (eval.element_array_type size sbval) (eval.address sbval)
      else at_address sbval (eval.array_type size sbval) (eval.address sbval)

  unfoldable pub apply_format_spec :
      EvalView → api.SBValue → FormatSpec api.Format → Result eval.Future api.SBValue
  apply_format_spec view sbval spec = as_array spec.array sbval >>= λ v.
      ok (api.set_format (unwrap_or view.global_format spec.format) v)

  -- the answer for a value, and its handle
  abbrev show_value :
      EvalView → Text → Bool → EvalState → Result eval.Future api.SBValue → Answer × EvalState
  show_value view expression for_clipboard s (err e) = (err e, s)
  show_value view expression for_clipboard s (ok sbval) =
      let handle = get_var_handle api none expression sbval s.var_refs in
      (
        ok (record {
          result = get_var_summary api view.settings view.clock sbval for_clipboard;
          type_ = api.display_type_name sbval;
          variables_reference = unwrap_or 0 handle.0;
          memory_reference = get_mem_ref_for_var api view.settings sbval;
        }),
        record { var_refs = handle.1; debugger = s.debugger },
      )

  abbrev or_blame_user : {A : Type 0} → Text ⊎ A → Result eval.Future A
  or_blame_user (inl e) = err (blame_user (str_error e))
  or_blame_user (inr a) = ok a

  abbrev value_of :
      EvalView
      → Option api.SBFrame
      → PreparedExpression × FormatSpec api.Format
      → Result eval.Future api.SBValue
  value_of view frame prepared = evaluate_expr_in_frame view prepared.0 frame >>= λ sbval.
      map_err blame_user (apply_format_spec view sbval prepared.1)

  unfoldable pub handle_evaluate_expression :
      EvalView → Text → Option api.SBFrame → Bool → EvalState → Answer × EvalState
  unfolding prepare_with_format evaluate_expr_in_frame apply_format_spec get_var_handle
      get_var_summary get_mem_ref_for_var
  handle_evaluate_expression view expression frame for_clipboard s =
      show_value view expression for_clipboard s (
        or_blame_user (prepare_with_format eval.grammars expression view.default_expr_type)
        >>= value_of view frame)

  abbrev pub perform :
      EvalView → Option api.SBFrame → Option Action → EvalState → Answer × EvalState
  perform view frame none s = (err (str_error (codes "Hovers are disabled.")), s)
  perform view frame (some (evaluate_expression text for_clipboard)) s =
      handle_evaluate_expression view text frame for_clipboard s
  perform view frame (some (execute_command text return_output)) s =
      handle_execute_command text frame return_output s

  -- an error on a hover is nobody's; that hovers are off is answered at once
  abbrev pub asynchronous : Context → Bool → Answer × EvalState → Answer × EvalState
  asynchronous hover false (answer, s) = (answer, s)
  asynchronous hover true (answer, s) =
      (err (async_response (eval.ready (map_err blame_nobody answer))), s)
  asynchronous _ hovers (answer, s) = (err (async_response (eval.ready answer)), s)

  unfoldable pub handle_evaluate :
      EvalView → Context → Text → Option ℕ → EvalState → Answer × EvalState
  unfolding handle_evaluate_expression handle_execute_command evaluation_frame
  handle_evaluate view context text frame_id s = asynchronous context view.evaluate_for_hovers (
      perform view (evaluation_frame view s.var_refs frame_id)
        (route view.evaluate_for_hovers view.console_mode context text) s)
