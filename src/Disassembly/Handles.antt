-- ===== src/Disassembly/Handles.antt =====
-- Handles of disassembled ranges, which the client sends back as source references.
use vscode_lldb.Common.{
  ℕ, ◌+◌, ◌<◌, ◌≡◌, inl, inr, refl, ◌==◌, none, some, List, [], ◌∷◌, arith, if◌then◌else◌,
  Option-cases, length, All, All-imp,
}
use vscode_lldb.Common.Outcome.{Outcome, ok}
use vscode_lldb.Common.Map.{get-insert, length-insert_new, nat_eq}
use vscode_lldb.Disassembly.{
  DisasmApi, DisassembledRange, Ranges, find_by_handle, find_by_address, add, add_unless_empty,
  locate, from_address,
}
use vscode_lldb.Disassembly.Lookup.{
  All-place, find_in-All, from_address-found, from_address-missing,
}

module _ {api : DisasmApi} where
  -- Every registered handle is below the next one, and names a range that carries it.
  pub record HandlesInOrder (rs : Ranges api) : Type 0 where
    pub below :
        (h : ℕ) (d : DisassembledRange api)
        → find_by_handle api rs h ≡ some d
        → h < length rs.by_handle + 1000
    pub carried :
        (h : ℕ) (d : DisassembledRange api) → find_by_handle api rs h ≡ some d → d.handle ≡ h
    pub registered : All (λ d. find_by_handle api rs d.handle ≡ some d) rs.by_address

  -- `t` has all that `s` has.
  abbrev pub Keeps : Ranges api → Ranges api → Type 0
  Keeps s t =
      (h : ℕ) (d : DisassembledRange api)
      → find_by_handle api s h ≡ some d
      → find_by_handle api t h ≡ some d

  next_unused :
      (rs : Ranges api)
      → HandlesInOrder rs
      → find_by_handle api rs (length rs.by_handle + 1000) ≡ none
  next_unused rs v = elim (Option-cases (find_by_handle api rs (length rs.by_handle + 1000))) [
    | inl free ↦ free
    | inr (d, used) ↦ absurd (omega (arith, v.below _ d used))
  ]

  find_by_handle-add :
      (rs : Ranges api) (s e : api.SBAddress) (instructions : List api.SBInstruction) (h : ℕ)
      → find_by_handle api (add api rs s e instructions).1 h ≡ (
          if h == length rs.by_handle + 1000
          then some (add api rs s e instructions).0
          else find_by_handle api rs h)
  unfolding find_by_handle add
  find_by_handle-add rs s e instructions h = get-insert h _ _ rs.by_handle

  length-add :
      (rs : Ranges api) (s e : api.SBAddress) (instructions : List api.SBInstruction)
      → HandlesInOrder rs
      → length (add api rs s e instructions).1.by_handle ≡ length rs.by_handle + 1
  unfolding find_by_handle add
  length-add rs s e instructions v =
      length-insert_new _ _ rs.by_handle (unfold find_by_handle in next_unused rs v)

  handle-add :
      (rs : Ranges api) (s e : api.SBAddress) (instructions : List api.SBInstruction)
      → (add api rs s e instructions).0.handle ≡ length rs.by_handle + 1000
  unfolding add
  handle-add rs s e instructions = refl

  Keeps-add :
      (rs : Ranges api) (s e : api.SBAddress) (instructions : List api.SBInstruction)
      → HandlesInOrder rs
      → Keeps rs (add api rs s e instructions).1
  Keeps-add rs s e instructions v h d k =
      ground (arith, v.below h d, find_by_handle-add rs s e instructions h)

  find_by_handle-new :
      (rs : Ranges api) (s e : api.SBAddress) (instructions : List api.SBInstruction)
      → find_by_handle api (add api rs s e instructions).1 (add api rs s e instructions).0.handle
        ≡ some (add api rs s e instructions).0
  find_by_handle-new rs s e instructions = ground (
    arith,
    handle-add rs s e instructions,
    find_by_handle-add rs s e instructions (add api rs s e instructions).0.handle,
  )

  HandlesInOrder-add :
      (rs : Ranges api) (s e : api.SBAddress) (instructions : List api.SBInstruction)
      → HandlesInOrder rs
      → HandlesInOrder (add api rs s e instructions).1
  HandlesInOrder-add rs s e instructions v = record {
    below = λ h d k. ground (
      arith,
      length-add rs s e instructions v,
      v.below h d,
      find_by_handle-add rs s e instructions h,
    );
    carried = λ h d k. ground (
      arith,
      handle-add rs s e instructions,
      v.carried h d,
      find_by_handle-add rs s e instructions h,
    );
    registered =
        unfold add in
        All-place _ (add api rs s e instructions).0 rs.by_address
          (find_by_handle-new rs s e instructions)
          (All-imp (λ d. Keeps-add rs s e instructions v d.handle d) rs.by_address v.registered);
  }

  -- what a request for an address leaves and gives back
  abbrev pub Served : Ranges api → Outcome (DisassembledRange api) × Ranges api → Type 0
  Served rs (ok d, rs') =
      HandlesInOrder rs' × Keeps rs rs' × (find_by_handle api rs' d.handle ≡ some d)
  Served rs (_, rs') = rs' ≡ rs

  Served-add :
      (rs : Ranges api) (s e : api.SBAddress) (instructions : List api.SBInstruction)
      → HandlesInOrder rs
      → Served rs (add_unless_empty api rs (s, e, instructions))
  Served-add rs s e [] v = refl
  Served-add rs s e (i ∷ rest) v = (
    HandlesInOrder-add rs s e (i ∷ rest) v,
    Keeps-add rs s e (i ∷ rest) v,
    find_by_handle-new rs s e (i ∷ rest),
  )

  -- Handles are stable: after a request for an address every handle that was given out still names
  -- the same range, the range that the request returns can be found by its own handle, and the
  -- registry is as well-formed as before. A request that fails changes nothing.
  pub from_address-Served :
      (rs : Ranges api) (a : ℕ) → HandlesInOrder rs → Served rs (from_address api rs a)
  from_address-Served rs a v = elim (Option-cases (find_by_address api rs a)) [
    | inr (d, found) ↦
        rw (from_address-found rs a found) (
          v,
          λ h e k. k,
          unfold find_by_address in find_in-All _ rs.by_address a v.registered found,
        )
    | inl missing ↦
        let loc = locate api (api.from_load_address a) in
        rw (from_address-missing rs a missing) (Served-add rs loc.0 loc.1 loc.2 v)
  ]
