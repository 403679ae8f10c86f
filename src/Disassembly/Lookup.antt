-- ===== src/Disassembly/Lookup.antt =====
-- The binary search of `find_by_address` against a plain search over all ranges.
use vscode_lldb.Common.{
  ℕ, zero, suc, ◌-◌, ◌≤◌, ◌<◌, ◌≡◌, refl, ap, ◌∙◌, subst, ◌⊎◌, inl, inr, Bool, true, false, Option,
  none, some, List, [], ◌∷◌, arith, ltb, leb, if◌then◌else◌, Bool-cases, Option-cases, All,
  get_elem?, partition_point, insert_at,
}
use vscode_lldb.Common.Outcome.{ok}
use vscode_lldb.Disassembly.{
  DisasmApi, DisassembledRange, Ranges, AddressRange, contains, find_in, find_by_address,
  if_contains, add, add_unless_empty, locate, range_of, from_address,
}

-- One range ends where the next begins or before, and both hold at least one address.
pub record Before (r s : AddressRange) : Type 0 where
  pub left_nonempty : r.start < r.end
  pub right_nonempty : s.start < s.end
  pub ends_before : r.end ≤ s.start

pub record IsNonempty (r : AddressRange) : Type 0 where
  pub nonempty : r.start < r.end

-- No address lies in both ranges.
abbrev pub Disjoint : AddressRange → AddressRange → Type 0
Disjoint r s = (r.end ≤ s.start) ⊎ (s.end ≤ r.start)

module _ {api : DisasmApi} where
  -- In ascending order, disjoint and not empty.
  abbrev pub IsLaidOut : List (DisassembledRange api) → Type 0
  IsLaidOut [] = Unit
  IsLaidOut (d ∷ ds) =
      IsNonempty d.load_range × All (λ e. Before d.load_range e.load_range) ds × IsLaidOut ds

  -- the specification: the first range that holds the address
  abbrev pub covering : List (DisassembledRange api) → ℕ → Option (DisassembledRange api)
  covering [] a = none
  covering (d ∷ ds) a = if contains d.load_range a then some d else covering ds a

  none_above :
      (ds : List (DisassembledRange api)) (a : ℕ)
      → All (λ e. a < e.load_range.start) ds
      → (covering ds a ≡ none)
        × (partition_point (λ (d : DisassembledRange api). leb d.load_range.start a) ds ≡ 0)
  unfolding contains partition_point
  none_above [] a h = (refl, refl)
  none_above (d ∷ ds) a h = ground (arith, none_above ds a, h.0, h.1)

  -- the candidate behind `n` ranges that start at or below the address
  abbrev at_count : List (DisassembledRange api) → ℕ → ℕ → Option (DisassembledRange api)
  at_count ds a n = if ltb 0 n then if_contains api a (get_elem? ds (n - 1)) else none

  at_count-suc :
      (d : DisassembledRange api) (ds : List (DisassembledRange api)) (a n : ℕ)
      → at_count (d ∷ ds) a (suc (suc n)) ≡ at_count ds a (suc n)
  at_count-suc d ds a n =
      let e : suc (suc n) - 1 ≡ suc n = omega arith in
      let e' : suc n - 1 ≡ n = omega arith in
      ground (
        arith,
        ap (λ i. if_contains api a (get_elem? (d ∷ ds) i)) e,
        ap (λ i. if_contains api a (get_elem? ds i)) e',
      )

  abbrev starts_by : ℕ → DisassembledRange api → Bool
  starts_by a d = leb d.load_range.start a

  starts_above :
      (d : DisassembledRange api) (ds : List (DisassembledRange api)) (a : ℕ)
      → a < d.load_range.end
      → All (λ e. Before d.load_range e.load_range) ds
      → All (λ e. a < e.load_range.start) ds
  starts_above d [] a h b = tt
  starts_above d (e ∷ ds) a h b =
      let ends = b.0.ends_before in (omega arith, starts_above d ds a h b.1)

  find_in-next :
      (d e : DisassembledRange api) (ds : List (DisassembledRange api)) (a : ℕ)
      → starts_by a d ≡ true
      → starts_by a e ≡ true
      → find_in api (d ∷ e ∷ ds) a ≡ find_in api (e ∷ ds) a
  unfolding find_in partition_point
  find_in-next d e ds a h k =
      ground (arith, at_count-suc d (e ∷ ds) a (partition_point (starts_by a) ds))

  find_in-last :
      (d : DisassembledRange api) (ds : List (DisassembledRange api)) (a : ℕ)
      → starts_by a d ≡ true
      → All (λ e. a < e.load_range.start) ds
      → find_in api (d ∷ ds) a ≡ if_contains api a (some d)
  unfolding find_in partition_point
  find_in-last d ds a h k = ground (arith, none_above ds a k)

  all_above :
      (d : DisassembledRange api) (ds : List (DisassembledRange api)) (a : ℕ)
      → IsLaidOut (d ∷ ds)
      → starts_by a d ≡ false
      → All (λ e. a < e.load_range.start) (d ∷ ds)
  all_above d ds a h k =
      let above : a < d.load_range.start = ground arith in
      let nonempty = h.0.nonempty in (above, starts_above d ds a (omega arith) h.1)

  -- On ranges that are laid out, the binary search finds what a search through all of them finds.
  pub find_in-covering :
      (ds : List (DisassembledRange api)) (a : ℕ) → IsLaidOut ds → find_in api ds a ≡ covering ds a
  unfolding find_in contains partition_point
  find_in-covering [] a h = refl
  find_in-covering (d ∷ []) a h = ground arith
  find_in-covering (d ∷ e ∷ ds) a h = elim (Bool-cases (starts_by a d)) [
    | inr above ↦ ground (arith, none_above (d ∷ e ∷ ds) a (all_above d (e ∷ ds) a h above))
    | inl below ↦ elim (Bool-cases (starts_by a e)) [
      | inl more ↦
          find_in-next d e ds a below more
          ∙ find_in-covering (e ∷ ds) a h.2
          ∙ ground (arith, h.1.0.ends_before)
      | inr last ↦
          let above = all_above e ds a h.2 last in
          find_in-last d (e ∷ ds) a below above ∙ ground (arith, none_above (e ∷ ds) a above)
    ]
  ]

  if_contains-All :
      (P : DisassembledRange api → Type 0) (ds : List (DisassembledRange api)) (i a : ℕ)
      {d : DisassembledRange api}
      → All P ds
      → if_contains api a (get_elem? ds i) ≡ some d
      → P d
  if_contains-All P [] i a h k = cc
  if_contains-All P (e ∷ ds) zero a {d} h k = let same : e ≡ d = ground arith in subst P same h.0
  if_contains-All P (e ∷ ds) (suc i) a h k = if_contains-All P ds i a h.1 k

  pub find_in-All :
      (P : DisassembledRange api → Type 0) (ds : List (DisassembledRange api)) (a : ℕ)
      {d : DisassembledRange api}
      → All P ds
      → find_in api ds a ≡ some d
      → P d
  unfolding find_in
  find_in-All P ds a {d} h k =
      let idx = partition_point (starts_by a) ds in
      if_contains-All P ds (idx - 1) a h (ground arith)

  -- where `add` puts a range
  abbrev pub place :
      DisassembledRange api → List (DisassembledRange api) → List (DisassembledRange api)
  place d ds = insert_at (partition_point (λ e. ltb e.load_range.start d.load_range.start) ds) d ds

  abbrev pub DisjointFrom : AddressRange → List (DisassembledRange api) → Type 0
  DisjointFrom r ds = All (λ e. Disjoint r e.load_range) ds

  covering-place :
      (d : DisassembledRange api) (ds : List (DisassembledRange api)) (a : ℕ)
      → DisjointFrom d.load_range ds
      → covering (place d ds) a ≡ (if contains d.load_range a then some d else covering ds a)
  unfolding partition_point contains
  covering-place d [] a h = refl
  covering-place d (e ∷ ds) a h = ground (arith, h.0, covering-place d ds a h.1)

  pub All-place :
      (P : DisassembledRange api → Type 0) (d : DisassembledRange api)
      (ds : List (DisassembledRange api))
      → P d
      → All P ds
      → All P (place d ds)
  unfolding partition_point
  All-place P d [] p h = (p, tt)
  All-place P d (e ∷ ds) p h = elim (Bool-cases (ltb e.load_range.start d.load_range.start)) [
    | inl first ↦ rw first (h.0, All-place P d ds p h.1)
    | inr later ↦ rw later (p, h)
  ]

  -- what lies behind a range that starts at or above `d` lies behind `d`
  all_behind :
      (d e : DisassembledRange api) (ds : List (DisassembledRange api))
      → d.load_range.start < d.load_range.end
      → d.load_range.start ≤ e.load_range.start
      → All (λ f. Before e.load_range f.load_range) ds
      → DisjointFrom d.load_range ds
      → All (λ f. Before d.load_range f.load_range) ds
  all_behind d e [] n k b j = tt
  all_behind d e (f ∷ ds) n k b j =
      let nonempty = b.0.right_nonempty in
      let ends = b.0.ends_before in
      let left = b.0.left_nonempty in
      let apart = j.0 in
      (
        record {
          left_nonempty = n;
          right_nonempty = nonempty;
          ends_before = ground (arith, nonempty, ends, left, apart);
        },
        all_behind d e ds n k b.1 j.1,
      )

  IsLaidOut-place :
      (d : DisassembledRange api) (ds : List (DisassembledRange api))
      → d.load_range.start < d.load_range.end
      → IsLaidOut ds
      → DisjointFrom d.load_range ds
      → IsLaidOut (place d ds)
  unfolding partition_point
  IsLaidOut-place d [] n l j = (record { nonempty = n }, tt, tt)
  IsLaidOut-place d (e ∷ ds) n l j = elim (Bool-cases (ltb e.load_range.start d.load_range.start)) [
    | inl first ↦ rw first (
      l.0,
      All-place (λ f. Before e.load_range f.load_range) d ds (ground (arith, l.0.nonempty, j.0))
          l.1,
      IsLaidOut-place d ds n l.2 j.1,
    )
    | inr later ↦ rw later (
      record { nonempty = n },
      (ground (arith, l.0.nonempty, j.0), all_behind d e ds n (ground arith) l.1 j.1),
      l,
    )
  ]

  -- Registering a nonempty range that is disjoint from the others keeps the registry laid out; from
  -- then on the addresses of that range find it, and all others find what they found before.
  pub find_by_address-add :
      (rs : Ranges api) (start_addr end_addr : api.SBAddress)
      (instructions : List api.SBInstruction)
      → IsLaidOut rs.by_address
      → api.load_address start_addr < api.load_address end_addr
      → DisjointFrom (range_of api start_addr end_addr) rs.by_address
      → IsLaidOut (add api rs start_addr end_addr instructions).1.by_address
        × ((a : ℕ)
            → find_by_address api (add api rs start_addr end_addr instructions).1 a ≡ (
                if contains (range_of api start_addr end_addr) a
                then some (add api rs start_addr end_addr instructions).0
                else find_by_address api rs a))
  unfolding find_by_address add
  find_by_address-add rs start_addr end_addr instructions l n j =
      let d = (add api rs start_addr end_addr instructions).0 in
      let l' = IsLaidOut-place d rs.by_address n l j in
      (
        l',
        λ a.
            find_in-covering (place d rs.by_address) a l'
            ∙ covering-place d rs.by_address a j
            ∙ rw (find_in-covering rs.by_address a l) refl,
      )

  -- What liblldb says of an address that no range holds: a range around that address, apart from
  -- those that are there.
  pub record IsFresh (rs : Ranges api) (a : ℕ) (s e : api.SBAddress) : Type 0 where
    pub above_start : api.load_address s ≤ a
    pub below_end : a < api.load_address e
    pub apart : DisjointFrom (range_of api s e) rs.by_address

  pub from_address-found :
      (rs : Ranges api) (a : ℕ) {d : DisassembledRange api}
      → find_by_address api rs a ≡ some d
      → from_address api rs a ≡ (ok d, rs)
  unfolding from_address
  from_address-found rs a h = rw (h, from_address) refl

  pub from_address-missing :
      (rs : Ranges api) (a : ℕ)
      → find_by_address api rs a ≡ none
      → from_address api rs a ≡ add_unless_empty api rs (locate api (api.from_load_address a))
  unfolding from_address
  from_address-missing rs a h = rw (h, from_address) refl

  again-add_unless_empty :
      (rs : Ranges api) (a : ℕ) (s e : api.SBAddress) (instructions : List api.SBInstruction)
      → IsLaidOut rs.by_address
      → IsFresh rs a s e
      → from_address api rs a ≡ add_unless_empty api rs (s, e, instructions)
      → from_address api (add_unless_empty api rs (s, e, instructions)).1 a
        ≡ add_unless_empty api rs (s, e, instructions)
  again-add_unless_empty rs a s e [] l f h = h
  again-add_unless_empty rs a s e (i ∷ rest) l f h =
      from_address-found (add api rs s e (i ∷ rest)).1 a (
        (find_by_address-add rs s e (i ∷ rest) l (omega arith) f.apart).1 a
        ∙ unfold contains in ground (arith, f.above_start, f.below_end))

  -- A second request for the same address gives the same answer and registers nothing, provided that
  -- a range that the first one has to register holds the address and is apart from the others.
  pub from_address_again :
      (rs : Ranges api) (a : ℕ)
      → IsLaidOut rs.by_address
      → (find_by_address api rs a ≡ none
          → IsFresh rs a
              (locate api (api.from_load_address a)).0
              (locate api (api.from_load_address a)).1)
      → from_address api (from_address api rs a).1 a ≡ from_address api rs a
  from_address_again rs a l fresh = elim (Option-cases (find_by_address api rs a)) [
    | inr (d, found) ↦ let e = from_address-found rs a found in rw e e
    | inl missing ↦
        let e = from_address-missing rs a missing in
        let loc = locate api (api.from_load_address a) in
        rw e (again-add_unless_empty rs a loc.0 loc.1 loc.2 l (fresh missing) e)
  ]
