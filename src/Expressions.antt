-- ===== src/Expressions.antt =====
-- src/codelldb/src/expressions/mod.rs: in which language an expression is, and its preparation. The
-- grammars, which are built of the combinators of the library nom, are the parameter `Grammars`.
use vscode_lldb.Common.{ℕ, Option, ◌⊎◌, inl, inr, drop, if◌then◌else◌}
use vscode_lldb.Common.Text.{Text, codes, starts_with}

pub data Expressions : Type 0 where
  native_type simple_type python_type : Expressions

pub data PreparedExpression : Type 0 where
  native simple python : Text → PreparedExpression

-- what Python is asked for
pub data EvalContext : Type 0 where
  simple_expression python_expression : EvalContext

pub record FormatSpec (Format : Type 0) : Type 0 where
  pub format : Option Format
  pub array : Option ℕ

unfoldable pub get_expression_type : Text → Expressions → Text × Expressions
unfolding starts_with
get_expression_type expr default_type =
    if starts_with (codes "/nat ") expr
    then (drop 5 expr, native_type)
    else if starts_with (codes "/py ") expr
    then (drop 4 expr, python_type)
    else if starts_with (codes "/se ") expr
    then (drop 4 expr, simple_type)
    else (expr, default_type)

-- each gives an error's text or its result
pub record Grammars (Format : Type 0) : Type 0 where
  pub preprocess_simple_expr : Text → Text ⊎ Text
  pub preprocess_python_expr : Text → Text ⊎ Text
  pub get_expression_format : Text → Text ⊎ (Text × FormatSpec Format)

abbrev bind {ℓ κ} : {A : Type ℓ} {B : Type κ} → Text ⊎ A → (A → Text ⊎ B) → Text ⊎ B
bind (inl e) f = inl e
bind (inr a) f = f a

module _ {Format : Type 0} (grammars : Grammars Format) where
  abbrev preprocess : Text → Expressions → Text ⊎ PreparedExpression
  preprocess expr native_type = inr (native expr)
  preprocess expr simple_type = bind (grammars.preprocess_simple_expr expr) (λ e. inr (simple e))
  preprocess expr python_type = bind (grammars.preprocess_python_expr expr) (λ e. inr (python e))

  unfoldable pub prepare : Text → Expressions → Text ⊎ PreparedExpression
  unfolding get_expression_type
  prepare expression default_type =
      let typed = get_expression_type expression default_type in preprocess typed.0 typed.1

  unfoldable pub prepare_with_format :
      Text → Expressions → Text ⊎ (PreparedExpression × FormatSpec Format)
  unfolding get_expression_type
  prepare_with_format expression default_type =
      let typed = get_expression_type expression default_type in
      bind (grammars.get_expression_format typed.0)
        (λ spec. bind (preprocess spec.0 typed.1) (λ pp_expr. inr (pp_expr, spec.1)))
