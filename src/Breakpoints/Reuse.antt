-- ===== src/Breakpoints/Reuse.antt =====
-- What liblldb documents of its breakpoints, and the deletion of stale ones.
use vscode_lldb.Expressions.{EvalContext, PreparedExpression, native, simple, python}
use vscode_lldb.Common.{
  ℕ, ◌<◌, ◌≡◌, ◌≢◌, ◌⊎◌, refl, sym, ◌∙◌, inl, inr, true, false, Option, none, some, [], ◌∷◌, arith,
  Bool-cases, ==_iff,
}
use vscode_lldb.Common.Map.{Map, Eq, get, insert, contains_key, get-insert, beq_refl, nat_eq}
use vscode_lldb.Common.Text.{Text}
use vscode_lldb.Breakpoints.Setting.{
  TargetApi, Location, condition_actions, apply_condition, delete_stale,
}

-- Identifiers are given out in order and never again; a new breakpoint is found and does not touch
-- the others; a deleted one is not found; setting conditions, callbacks and names makes none.
pub record TargetLaws (api : TargetApi) : Type 0 where
  pub last_id : api.SBTarget → ℕ
  pub create_new : (l : Location) (t : api.SBTarget) → last_id t < (api.breakpoint_create l t).0
  pub create_last :
      (l : Location) (t : api.SBTarget)
      → last_id (api.breakpoint_create l t).1 ≡ (api.breakpoint_create l t).0
  pub create_found :
      (l : Location) (t : api.SBTarget)
      → api.find_breakpoint_by_id (api.breakpoint_create l t).0 (api.breakpoint_create l t).1 ≡ true
  pub create_other :
      (k : ℕ) (l : Location) (t : api.SBTarget)
      → k ≢ (api.breakpoint_create l t).0
      → api.find_breakpoint_by_id k (api.breakpoint_create l t).1 ≡ api.find_breakpoint_by_id k t
  pub delete_gone :
      (k : ℕ) (t : api.SBTarget) → api.find_breakpoint_by_id k (api.breakpoint_delete k t) ≡ false
  pub delete_other :
      (k j : ℕ) (t : api.SBTarget)
      → k ≢ j
      → api.find_breakpoint_by_id k (api.breakpoint_delete j t) ≡ api.find_breakpoint_by_id k t
  pub delete_last : (k : ℕ) (t : api.SBTarget) → last_id (api.breakpoint_delete k t) ≡ last_id t
  pub condition_find :
      (k j : ℕ) (c : Text) (t : api.SBTarget)
      → api.find_breakpoint_by_id k (api.set_condition j c t) ≡ api.find_breakpoint_by_id k t
  pub condition_last :
      (j : ℕ) (c : Text) (t : api.SBTarget) → last_id (api.set_condition j c t) ≡ last_id t
  pub callback_find :
      (k j : ℕ) (c : Option (api.PyObject × EvalContext)) (t : api.SBTarget)
      → api.find_breakpoint_by_id k (api.set_callback j c t) ≡ api.find_breakpoint_by_id k t
  pub name_last : (j : ℕ) (n : Text) (t : api.SBTarget) → last_id (api.add_name j n t) ≡ last_id t
  pub callback_last :
      (j : ℕ) (c : Option (api.PyObject × EvalContext)) (t : api.SBTarget)
      → last_id (api.set_callback j c t) ≡ last_id t

-- A map that holds each key once.
abbrev pub Unique : {K V : Type 0} ⦃e : Eq K⦄ → Map K V → Type 0
Unique [] = Unit
Unique ((k, v) ∷ m) = (get k m ≡ none) × Unique m

pub Unique-insert :
    {K V : Type 0} ⦃e : Eq K⦄ (k : K) (v : V) (m : Map K V) → Unique m → Unique (insert k v m)
unfolding insert get
Unique-insert k v [] u = (refl, tt)
Unique-insert ⦃e⦄ k v ((j, w) ∷ m) u = elim (Bool-cases (e.beq k j)) [
  | inl same ↦ let eq : k ≡ j = (e.beq_iff k j).0 same in rw (same, eq) u
  | inr other ↦ rw other (
    ground (arith, get-insert j k v m, e.beq_iff j k, e.beq_iff k j, u.0, other),
    Unique-insert k v m u.1,
  )
]

module _ (api : TargetApi) (laws : TargetLaws api) where
  abbrev pub Found : ℕ → api.SBTarget → Type 0
  Found id t = api.find_breakpoint_by_id id t ≡ true

  apply-same :
      (j k : ℕ) (e : Text ⊎ PreparedExpression) (t : api.SBTarget)
      → (api.find_breakpoint_by_id k (apply_condition api j e t) ≡ api.find_breakpoint_by_id k t)
        × (laws.last_id (apply_condition api j e t) ≡ laws.last_id t)
  unfolding apply_condition
  apply-same j k (inl m) t = (laws.callback_find k j _ t, laws.callback_last j _ t)
  apply-same j k (inr (native x)) t = (
    laws.callback_find k j _ _ ∙ laws.condition_find k j x t,
    laws.callback_last j _ _ ∙ laws.condition_last j x t,
  )
  apply-same j k (inr (simple x)) t = (laws.callback_find k j _ t, laws.callback_last j _ t)
  apply-same j k (inr (python x)) t = (laws.callback_find k j _ t, laws.callback_last j _ t)

  -- The actions of a breakpoint leave alone which breakpoints there are.
  pub actions-same :
      (j k : ℕ) (c : Option Text) (t : api.SBTarget)
      → (api.find_breakpoint_by_id k (condition_actions api j c t) ≡ api.find_breakpoint_by_id k t)
        × (laws.last_id (condition_actions api j c t) ≡ laws.last_id t)
  unfolding condition_actions
  actions-same j k none t = (laws.callback_find k j _ t, laws.callback_last j _ t)
  actions-same j k (some c) t = apply-same j k (api.prepare c) t

  module _ {K : Type 0} ⦃e : Eq K⦄ where
    pub delete_stale-last :
        (old new : Map K ℕ) (t : api.SBTarget)
        → laws.last_id (delete_stale api old new t) ≡ laws.last_id t
    unfolding delete_stale
    delete_stale-last [] new t = refl
    delete_stale-last ((k, j) ∷ old) new t =
        delete_stale-last old new _ ∙ ground (arith, laws.delete_last j t)

    -- what a stale entry of `old` is
    abbrev pub IsStale : Map K ℕ → Map K ℕ → ℕ → Type 0
    IsStale old new id = (k : K) × (get k old ≡ some id) × (contains_key k new ≡ false)

    stays_gone :
        (old new : Map K ℕ) (t : api.SBTarget) (id : ℕ)
        → api.find_breakpoint_by_id id t ≡ false
        → api.find_breakpoint_by_id id (delete_stale api old new t) ≡ false
    unfolding delete_stale
    stays_gone [] new t id h = h
    stays_gone ((k, j) ∷ old) new t id h =
        stays_gone old new _ id
          (ground (arith, laws.delete_gone j t, laws.delete_other id j t, ==_iff id j, h))

    pub tail-IsStale :
        (k : K) (j : ℕ) (old new : Map K ℕ) (id : ℕ)
        → Unique ((k, j) ∷ old)
        → IsStale old new id
        → IsStale ((k, j) ∷ old) new id
    unfolding get
    tail-IsStale k j old new id u (i, h, g) = (
      i,
      elim (Bool-cases (e.beq i k)) [
        | inl same ↦ let eq : i ≡ k = (e.beq_iff i k).0 same in absurd (cc (u.0, h, eq))
        | inr other ↦ rw other h
      ],
      g,
    )

    pub delete_stale-keeps :
        (old new : Map K ℕ) (t : api.SBTarget) (id : ℕ)
        → Unique old
        → ¬ IsStale old new id
        → api.find_breakpoint_by_id id (delete_stale api old new t) ≡ api.find_breakpoint_by_id id t
    unfolding delete_stale get
    delete_stale-keeps [] new t id u h = refl
    delete_stale-keeps ((k, j) ∷ old) new t id u h =
        delete_stale-keeps old new _ id u.1 (λ s. h (tail-IsStale k j old new id u s))
        ∙ elim (Bool-cases (contains_key k new)) [
          | inl kept ↦ rw kept refl
          | inr stale ↦
              rw stale (laws.delete_other id j t (λ eq. h (k, rw (beq_refl k, eq) refl, stale)))
        ]

    pub delete_stale-gone :
        (old new : Map K ℕ) (t : api.SBTarget) (id : ℕ)
        → IsStale old new id
        → api.find_breakpoint_by_id id (delete_stale api old new t) ≡ false
    unfolding delete_stale get
    delete_stale-gone [] new t id (k, h, g) = absurd (cc h)
    delete_stale-gone ((k, j) ∷ old) new t id (i, h, g) = elim (Bool-cases (e.beq i k)) [
      | inl same ↦
          let eq : i ≡ k = (e.beq_iff i k).0 same in
          let stale : contains_key k new ≡ false = rw (sym eq) g in
          let here : j ≡ id = ground (arith, h, same) in
          stays_gone old new _ id (rw (stale, here) (laws.delete_gone id t))
      | inr other ↦ delete_stale-gone old new _ id (i, rw other at h, g)
    ]
