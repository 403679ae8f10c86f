-- ===== src/Variables/Path.antt =====
-- The names of `compose_container_eval_name`, against their composition from the scope downwards.
use vscode_lldb.Common.{
  ℕ, zero, suc, ◌+◌, ◌<◌, ◌≡◌, ◌≢◌, refl, sym, ◌∙◌, ap, Bool, true, false, Option, none, some, List,
  [], ◌∷◌, length, arith, Bool-cases, inl, inr,
}
use vscode_lldb.Common.Outcome.{Outcome, ok}
use vscode_lldb.Common.Text.{Text}
use vscode_lldb.Variables.{
  Container, stack_frame, locals, statics, globals, registers, sb_value, VariableApi,
}
use vscode_lldb.Variables.Names.{
  compose_eval_name, compose_eval_name_assoc, is_register_set, walk, walk_up,
  compose_container_eval_name,
}

compose_eval_name-nil : (a : Text) → compose_eval_name a [] ≡ a
unfolding compose_eval_name
compose_eval_name-nil [] = refl
compose_eval_name-nil (x ∷ a) = refl

-- The name of a variable, from the keys on the way up to its scope.
abbrev pub path_name : List Text → Text
path_name [] = []
path_name (key ∷ outer) = compose_eval_name (path_name outer) key

module _ (api : VariableApi) where
  abbrev Info : Type 0
  Info = Option ℕ × Text × Container api.SBFrame api.SBValue

  -- a variable that the walk goes on from
  unfoldable pub is_member : Container api.SBFrame api.SBValue → Bool
  is_member (sb_value var) = elim (is_register_set api (api.value_type var)) [
    | true ↦ false
    | false ↦ true
  ]
  is_member _ = false

  -- The keys from a handle up to what holds it: a scope, a set of registers, or nothing.
  pub data IsPath (refs : api.VarRefs) : Option ℕ → List Text → Type 0 where
    outermost : IsPath refs none []
    scope :
        {h : ℕ} {parent : Option ℕ} {key : Text} {c : Container api.SBFrame api.SBValue}
        → api.get_full_info h refs ≡ some (parent, key, c)
        → is_member c ≡ false
        → IsPath refs (some h) []
    member :
        {h : ℕ} {parent : Option ℕ} {key : Text} {c : Container api.SBFrame api.SBValue}
        {keys : List Text}
        → api.get_full_info h refs ≡ some (parent, key, c)
        → is_member c ≡ true
        → IsPath refs parent keys
        → IsPath refs (some h) (key ∷ keys)

  -- Each handle's parent is an older handle, and is there.
  abbrev pub IsTree : api.VarRefs → Type 0
  IsTree refs =
      (h : ℕ) (parent : ℕ) (key : Text) (c : Container api.SBFrame api.SBValue)
      → api.get_full_info h refs ≡ some (some parent, key, c)
      → (parent < h) × (api.get_full_info parent refs ≢ none)

  walk-member :
      (again : Option ℕ → Text → Outcome Text) (rest : Text) (parent : Option ℕ) (key : Text)
      (c : Container api.SBFrame api.SBValue)
      → is_member c ≡ true
      → walk api again rest (some (parent, key, c)) ≡ again parent (compose_eval_name key rest)
  unfolding is_member
  walk-member again rest parent key (sb_value var) h =
      elim (Bool-cases (is_register_set api (api.value_type var))) [
        | inl set ↦ cc
        | inr other ↦ rw other refl
      ]
  walk-member again rest parent key (stack_frame f) h = cc
  walk-member again rest parent key (locals f) h = cc
  walk-member again rest parent key (statics f) h = cc
  walk-member again rest parent key (globals f) h = cc
  walk-member again rest parent key (registers f) h = cc

  walk-scope :
      (again : Option ℕ → Text → Outcome Text) (rest : Text) (parent : Option ℕ) (key : Text)
      (c : Container api.SBFrame api.SBValue)
      → is_member c ≡ false
      → walk api again rest (some (parent, key, c)) ≡ ok rest
  unfolding is_member
  walk-scope again rest parent key (sb_value var) h =
      elim (Bool-cases (is_register_set api (api.value_type var))) [
        | inl set ↦ rw set refl
        | inr other ↦ cc
      ]
  walk-scope again rest parent key (stack_frame f) h = refl
  walk-scope again rest parent key (locals f) h = refl
  walk-scope again rest parent key (statics f) h = refl
  walk-scope again rest parent key (globals f) h = refl
  walk-scope again rest parent key (registers f) h = refl

  walk_up-IsPath :
      (fuel : ℕ) (refs : api.VarRefs) (h : Option ℕ) (keys : List Text) (rest : Text)
      → IsPath refs h keys
      → length keys < fuel
      → walk_up api fuel refs h rest ≡ ok (compose_eval_name (path_name keys) rest)
  unfolding compose_eval_name walk_up
  walk_up-IsPath fuel refs none [] rest outermost le = refl
  walk_up-IsPath zero refs h keys rest p le = absurd (omega arith)
  walk_up-IsPath (suc fuel) refs none (key ∷ keys) rest p le = elim p [ ]
  walk_up-IsPath (suc fuel) refs (some h) [] rest (scope {parent} {key} {c} e m) le =
      rw e (walk-scope (walk_up api fuel refs) rest parent key c m)
  walk_up-IsPath (suc fuel) refs (some h) (key ∷ keys) rest (member {parent} {c} e m p) le =
      rw e (walk-member (walk_up api fuel refs) rest parent key c m)
      ∙ walk_up-IsPath fuel refs parent keys (compose_eval_name key rest) p (omega arith)
      ∙ ap ok (sym (compose_eval_name_assoc (path_name keys) key rest))

  -- Under the laws of the tree every handle has its path, which is not longer than its number.
  abbrev HasPath : api.VarRefs → ℕ → Type 0
  HasPath refs h = (keys : List Text) × IsPath refs (some h) keys × (length keys < h + 2)

  path_from :
      (refs : api.VarRefs) (h : ℕ)
      → IsTree refs
      → ((p : ℕ) → p < h → api.get_full_info p refs ≢ none → HasPath refs p)
      → (info : Option Info) → api.get_full_info h refs ≡ info
      → info ≢ none
      → HasPath refs h
  path_from refs h tree older none e there = absurd (there refl)
  path_from refs h tree older (some (none, key, c)) e there = elim (Bool-cases (is_member c)) [
    | inl m ↦ (key ∷ [], member e m outermost, omega arith)
    | inr m ↦ ([], scope e m, omega arith)
  ]
  path_from refs h tree older (some (some p, key, c)) e there = elim (Bool-cases (is_member c)) [
    | inl m ↦
        let law = tree h p key c e in
        let outer = older p law.0 law.1 in
        (key ∷ outer.0, member e m outer.1, omega (arith, law.0, outer.2))
    | inr m ↦ ([], scope e m, omega arith)
  ]

  path_of :
      (fuel : ℕ) (refs : api.VarRefs) (h : ℕ)
      → IsTree refs
      → h < fuel
      → api.get_full_info h refs ≢ none
      → HasPath refs h
  path_of zero refs h tree le there = absurd (omega arith)
  path_of (suc fuel) refs h tree le there =
      path_from refs h tree (λ p lt. path_of fuel refs p tree (omega arith))
        (api.get_full_info h refs) refl there

  -- In a tree of handles, the loop that composes the name of a variable that is there ends, without
  -- a panic, after at most one round for each handle up to its own. What it composes from the
  -- variable upwards is the name that its path from the scope has, composed downwards.
  pub compose_container_eval_name-IsPath :
      (refs : api.VarRefs) (h : ℕ)
      → IsTree refs
      → api.get_full_info h refs ≢ none
      → (keys : List Text) × IsPath refs (some h) keys
        × (compose_container_eval_name api (h + 2) refs h ≡ ok (path_name keys))
  unfolding compose_container_eval_name
  compose_container_eval_name-IsPath refs h tree there =
      let path = path_of (suc h) refs h tree (omega arith) there in
      (
        path.0,
        path.1,
        walk_up-IsPath (h + 2) refs (some h) path.0 [] path.1 path.2
            ∙ ap ok (compose_eval_name-nil (path_name path.0)),
      )
