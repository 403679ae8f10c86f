-- ===== src/Breakpoints/Stale.antt =====
-- What becomes untracked with the stale breakpoints of a file.
use vscode_lldb.Common.{
  ℕ, ◌≡◌, ◌≢◌, refl, sym, ◌∙◌, inl, inr, false, [], ◌∷◌, ◌==◌, arith, Bool-cases, if◌then◌else◌,
}
use vscode_lldb.Common.Int.{ℤ}
use vscode_lldb.Common.Map.{
  Map, get, remove, contains_key, contains_key-get, get-remove, nat_eq, Text_eq, beq_refl,
}
use vscode_lldb.Breakpoints.Exclusions.{Infos}
use vscode_lldb.Breakpoints.Setting.{TargetApi}
use vscode_lldb.Breakpoints.Reuse.{TargetLaws, Unique, IsStale, tail-IsStale}
use vscode_lldb.Breakpoints.Listings.{ℤ_eq}
use vscode_lldb.Breakpoints.Source.{remove_stale}

contains_key-remove :
    (id j : ℕ) (infos : Infos)
    → contains_key id (remove j infos) ≡ (if id == j then false else contains_key id infos)
contains_key-remove id j infos =
    ground (
      arith,
      contains_key-get id (remove j infos),
      contains_key-get id infos,
      get-remove id j infos,
    )

module _ (api : TargetApi) (laws : TargetLaws api) where
  removed_stays :
      (old new : Map ℤ ℕ) (infos : Infos) (id : ℕ)
      → contains_key id infos ≡ false
      → contains_key id (remove_stale old new infos) ≡ false
  unfolding remove_stale
  removed_stays [] new infos id h = h
  removed_stays ((k, j) ∷ old) new infos id h =
      removed_stays old new _ id (ground (arith, contains_key-remove id j infos, h))

  pub remove_stale-keeps :
      (old new : Map ℤ ℕ) (infos : Infos) (id : ℕ)
      → Unique old
      → ¬ IsStale api laws old new id
      → contains_key id (remove_stale old new infos) ≡ contains_key id infos
  unfolding remove_stale get
  remove_stale-keeps [] new infos id u h = refl
  remove_stale-keeps ((k, j) ∷ old) new infos id u h =
      remove_stale-keeps old new _ id u.1 (λ s. h (tail-IsStale api laws k j old new id u s))
      ∙ elim (Bool-cases (contains_key k new)) [
        | inl kept ↦ rw kept refl
        | inr stale ↦
            let other : id ≢ j = λ eq. h (k, rw (beq_refl k, eq) refl, stale) in
            rw stale (ground (arith, contains_key-remove id j infos, other))
      ]

  pub remove_stale-gone :
      (old new : Map ℤ ℕ) (infos : Infos) (id : ℕ)
      → IsStale api laws old new id
      → contains_key id (remove_stale old new infos) ≡ false
  unfolding remove_stale get
  remove_stale-gone [] new infos id (k, h, g) = absurd (cc h)
  remove_stale-gone ((k, j) ∷ old) new infos id (i, h, g) = elim (Bool-cases (ℤ_eq.beq i k)) [
    | inl same ↦
        let eq : i ≡ k = (ℤ_eq.beq_iff i k).0 same in
        let stale : contains_key k new ≡ false = rw (sym eq) g in
        let here : j ≡ id = ground (arith, h, same) in
        removed_stays old new _ id
          (rw (stale, here) (ground (arith, contains_key-remove id id infos)))
    | inr other ↦ remove_stale-gone old new _ id (i, rw other at h, g)
  ]
