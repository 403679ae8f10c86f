-- ===== src/Variables/Answers.antt =====
-- How a request to evaluate is answered.
use vscode_lldb.Common.{ℕ, ◌≡◌, refl, ap, subst, true, Option}
use vscode_lldb.Common.Text.{Text}
use vscode_lldb.Errors.{
  nobody, Error, async_response, Result, ok, err, map_err, blame_nobody, from_error,
}
use vscode_lldb.Variables.{VariableApi}
use vscode_lldb.Variables.Evaluate.{
  EvaluateApi, EvalView, EvalState, EvaluateResponseBody, hover, route, perform, asynchronous,
  evaluation_frame, handle_evaluate,
}

err_inj :
    {Future A : Type 0} {x y : Error Future} → ◌≡◌ {A = Result Future A} (err x) (err y) → x ≡ y
err_inj h = cc

nobodys :
    {Future A : Type 0} (r : Result Future A) (e : Error Future)
    → map_err blame_nobody r ≡ err e
    → (from_error e).blame ≡ nobody
nobodys (ok a) e h = cc
nobodys {Future} (err m) e h = subst (λ x. (from_error x).blame ≡ nobody) (err_inj h) refl

module _ (api : VariableApi) (eval : EvaluateApi api) where
  -- With hovers enabled, a hover is answered by a future that is ready; its error, if it has one, is
  -- nobody's, whoever was to blame for it: so it is neither shown nor logged as an error.
  pub handle_evaluate-hover :
      (view : EvalView api eval) (text : Text) (frame_id : Option ℕ) (s : EvalState api eval)
      → view.evaluate_for_hovers ≡ true
      → (answer : Result eval.Future EvaluateResponseBody) × ((handle_evaluate api eval view hover
            text frame_id s).0
          ≡ err (async_response (eval.ready answer)))
        × ((e : Error eval.Future) → answer ≡ err e → (from_error e).blame ≡ nobody)
  unfolding handle_evaluate
  handle_evaluate-hover view text frame_id s on =
      let done =
        perform api eval view (evaluation_frame api eval view s.var_refs frame_id)
          (route view.evaluate_for_hovers view.console_mode hover text) s in
      (
        map_err blame_nobody done.0,
        ap (λ b. (asynchronous api eval hover b done).0) on,
        nobodys done.0,
      )
