-- ===== src/Variables/Names.antt =====
-- `compose_eval_name` and `compose_container_eval_name`: the expression by which the client can ask
-- for a variable again.
use vscode_lldb.Common.{
  ℕ, zero, suc, ◌≡◌, refl, Bool, true, false, Option, none, some, [], ◌∷◌, ◌++◌, append_assoc, ◌==◌,
  if◌then◌else◌, Bool-cases, inl, inr,
}
use vscode_lldb.Common.Outcome.{Outcome, ok, panic, out_of_fuel}
use vscode_lldb.Common.Text.{Text}
use vscode_lldb.Variables.{ValueType, register_set, Container, sb_value, VariableApi}

-- an index has no dot before it
abbrev pub join : Text → Text → Text
join prefix [] = prefix
join prefix (c ∷ suffix) = if c == b'[' then prefix ++ c ∷ suffix else prefix ++ (b'.' ∷ c ∷ suffix)

unfoldable pub compose_eval_name : Text → Text → Text
compose_eval_name [] suffix = suffix
compose_eval_name (p ∷ prefix) suffix = join (p ∷ prefix) suffix

-- Names are composed in whatever order.
pub compose_eval_name_assoc :
    (a b c : Text)
    → compose_eval_name (compose_eval_name a b) c ≡ compose_eval_name a (compose_eval_name b c)
unfolding compose_eval_name
compose_eval_name_assoc [] b c = refl
compose_eval_name_assoc (x ∷ a) [] c = refl
compose_eval_name_assoc (x ∷ a) (y ∷ b) [] = elim (Bool-cases (y == b'[')) [
  | inl index ↦ rw index refl
  | inr field ↦ rw field refl
]
compose_eval_name_assoc (x ∷ a) (y ∷ b) (z ∷ c) = elim (Bool-cases (y == b'[')) [
  | inl y_index ↦ elim (Bool-cases (z == b'[')) [
    | inl z_index ↦ rw (y_index, z_index, y_index, append_assoc) refl
    | inr z_field ↦ rw (y_index, z_field, y_index, append_assoc) refl
  ]
  | inr y_field ↦ elim (Bool-cases (z == b'[')) [
    | inl z_index ↦ rw (y_field, z_index, y_field, append_assoc) refl
    | inr z_field ↦ rw (y_field, z_field, y_field, append_assoc) refl
  ]
]

module _ (api : VariableApi) where
  abbrev pub is_register_set : ValueType → Bool
  is_register_set register_set = true
  is_register_set _ = false

  abbrev pub walk :
      (Option ℕ → Text → Outcome Text)
      → Text
      → Option (Option ℕ × Text × Container api.SBFrame api.SBValue)
      → Outcome Text
  walk again eval_name none = panic
  walk again eval_name (some (parent, key, sb_value var)) =
      if is_register_set (api.value_type var)
      then ok eval_name
      else again parent (compose_eval_name key eval_name)
  walk again eval_name (some (parent, key, _)) = ok eval_name

  -- the loop, from a handle up to the scope that holds it
  unfoldable pub walk_up : ℕ → api.VarRefs → Option ℕ → Text → Outcome Text
  unfolding compose_eval_name
  walk_up fuel refs none eval_name = ok eval_name
  walk_up zero refs (some h) eval_name = out_of_fuel
  walk_up (suc fuel) refs (some h) eval_name =
      walk (walk_up fuel refs) eval_name (api.get_full_info h refs)

  unfoldable pub compose_container_eval_name : ℕ → api.VarRefs → ℕ → Outcome Text
  unfolding walk_up
  compose_container_eval_name fuel refs h = walk_up fuel refs (some h) []
