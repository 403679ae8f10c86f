-- ===== src/Breakpoints/Loop.antt =====
-- The loop over the requested breakpoints: what it keeps true of its table and of the target.
use vscode_lldb.Common.{
  ℕ, ◌≤◌, ◌<◌, ◌≡◌, ◌⊎◌, refl, sym, ◌∙◌, inl, inr, true, Option, none, some, List, [], ◌∷◌, arith,
  Bool-cases, Option-cases, All, map,
}
use vscode_lldb.Common.Map.{Map, Eq, get, insert, contains_key, get-insert, nat_eq}
use vscode_lldb.Common.Outcome.{Outcome, ok}
use vscode_lldb.Breakpoints.{BreakpointInfo}
use vscode_lldb.Breakpoints.Exclusions.{contains_key-insert}
use vscode_lldb.Breakpoints.Setting.{
  TargetApi, Location, Request, Working, usable, init_bp_actions, make_bp_info, set_one, set_all,
}
use vscode_lldb.Breakpoints.Reuse.{TargetLaws, Found, actions-same, Unique, Unique-insert}

abbrev pub all_ok : {K : Type 0} → List (Request K) → List (Outcome (Request K))
all_ok = map ok

usable-some :
    (api : TargetApi) (laws : TargetLaws api) (o : Option ℕ) (t : api.SBTarget) (id : ℕ)
    → usable api t o ≡ some id
    → (o ≡ some id) × Found api laws id t
usable-some api laws none t id h = cc
usable-some api laws (some j) t id h = (ground (arith, h), ground (arith, h))

module _ (api : TargetApi) (laws : TargetLaws api) {K : Type 0} ⦃e : Eq K⦄ where
  -- The breakpoints of a handler have been made in this target, one for each key.
  pub record AreDistinct (bps : Map K ℕ) (t : api.SBTarget) : Type 0 where
    pub unique : Unique bps
    pub below : (k : K) (id : ℕ) → get k bps ≡ some id → id ≤ laws.last_id t
    pub distinct : (k j : K) (id : ℕ) → get k bps ≡ some id → get j bps ≡ some id → k ≡ j

  -- where the breakpoint of a key is from: an old one that is still found, or a new one
  abbrev pub Origin : Map K ℕ → api.SBTarget → K → ℕ → Type 0
  Origin old t k id =
      ((get k old ≡ some id) × Found api laws id t)
      ⊎ ((laws.last_id t < id) × (usable api t (get k old) ≡ none))

  -- The loop has begun in `t` with the table `old`.
  pub record Tracks (old : Map K ℕ) (t : api.SBTarget) (w : Working api K) : Type 0 where
    pub grown : laws.last_id t ≤ laws.last_id w.target
    pub same :
        (id : ℕ)
        → id ≤ laws.last_id t
        → api.find_breakpoint_by_id id w.target ≡ api.find_breakpoint_by_id id t
    pub all_distinct : AreDistinct w.new_bps w.target
    pub found : (k : K) (id : ℕ) → get k w.new_bps ≡ some id → Found api laws id w.target
    pub tracked :
        (k : K) (id : ℕ) → get k w.new_bps ≡ some id → contains_key id w.breakpoint_infos ≡ true
    pub origin : (k : K) (id : ℕ) → get k w.new_bps ≡ some id → Origin old t k id

  -- the state of the loop with a breakpoint put under a key
  abbrev placed : K → ℕ → BreakpointInfo → api.SBTarget → Working api K → Working api K
  placed k id info t w = record {
    new_bps = insert k id w.new_bps;
    breakpoint_infos = insert id info w.breakpoint_infos;
    target = t;
  }

  placed-Tracks :
      (old : Map K ℕ) (t : api.SBTarget) (w : Working api K) (k : K) (id : ℕ)
      (info : BreakpointInfo) (t' : api.SBTarget)
      → Tracks old t w
      → laws.last_id w.target ≤ laws.last_id t'
      → id ≤ laws.last_id t'
      → ((i : ℕ)
          → i ≤ laws.last_id w.target
          → api.find_breakpoint_by_id i t' ≡ api.find_breakpoint_by_id i w.target)
      → Found api laws id t'
      → Origin old t k id
      → ((j : K) → get j w.new_bps ≡ some id → j ≡ k)
      → Tracks old t (placed k id info t' w)
  placed-Tracks old t w k id info t' h grow le same f o only = record {
    grown = omega (arith, h.grown, grow);
    same = λ i b. same i (omega (arith, b, h.grown)) ∙ h.same i b;
    all_distinct = record {
      unique = Unique-insert k id w.new_bps h.all_distinct.unique;
      below =
          λ j i g. ground (arith, get-insert j k id w.new_bps, h.all_distinct.below j i, grow, le);
      distinct = λ j j' i g g'. ground (
        arith,
        get-insert j k id w.new_bps,
        get-insert j' k id w.new_bps,
        e.beq_iff j k,
        e.beq_iff j' k,
        h.all_distinct.distinct j j' i,
        only j,
        only j',
      );
    };
    found = λ j i g.
        ground (arith, get-insert j k id w.new_bps, h.found j i, h.all_distinct.below j i, same i);
    tracked = λ j i g. ground (
      arith,
      get-insert j k id w.new_bps,
      h.tracked j i,
      contains_key-insert i id info w.breakpoint_infos,
    );
    origin = λ j i g. elim (Bool-cases (e.beq j k)) [
      | inl here ↦
          let eq : j ≡ k = (e.beq_iff j k).0 here in
          let eq' : id ≡ i = ground (arith, get-insert j k id w.new_bps, here, g) in
          rw (eq, sym eq') o
      | inr other ↦ h.origin j i (ground (arith, get-insert j k id w.new_bps, other, g))
    ];
  }

  abbrev info_for : ℕ → Request K → BreakpointInfo
  info_for id req = make_bp_info api id req.kind req.condition req.log_message req.hit_condition

  usable-same :
      (old : Map K ℕ) (t : api.SBTarget) (w : Working api K) (k : K)
      → AreDistinct old t
      → Tracks old t w
      → usable api w.target (get k old) ≡ usable api t (get k old)
  usable-same old t w k d h = elim (Option-cases (get k old)) [
    | inl missing ↦ rw missing refl
    | inr (id, e') ↦ rw (e', h.same id (d.below k id e')) refl
  ]

  reused-Tracks :
      (old : Map K ℕ) (t : api.SBTarget) (w : Working api K) (k : K) (id : ℕ)
      (info : BreakpointInfo)
      → AreDistinct old t
      → Tracks old t w
      → usable api t (get k old) ≡ some id
      → Tracks old t (placed k id info (init_bp_actions api info w.target) w)
  reused-Tracks old t w k id info d h u =
      let (there, alive) = usable-some api laws (get k old) t id u in
      let bound : id ≤ laws.last_id t = d.below k id there in
      let actions : (i : ℕ) → _ = λ i. actions-same api laws info.id i info.condition w.target in
      placed-Tracks old t w k id info (init_bp_actions api info w.target) h
        (omega (arith, (actions id).1)) (omega (arith, (actions id).1, bound, h.grown))
        (λ i b. (actions i).0) ((actions id).0 ∙ h.same id bound ∙ alive) (inl (there, alive))
        (λ j g. elim (h.origin j id g) [
          | inl (old_one, _) ↦ d.distinct j k id old_one there
          | inr (new_one, _) ↦ absurd (omega (arith, new_one, bound))
        ])

  created-Tracks :
      (old : Map K ℕ) (t : api.SBTarget) (w : Working api K) (k : K) (l : Location)
      (info : BreakpointInfo)
      → AreDistinct old t
      → Tracks old t w
      → usable api t (get k old) ≡ none
      → Tracks old t (
          placed k
            (api.breakpoint_create l w.target).0
            info
            (init_bp_actions api info (api.breakpoint_create l w.target).1)
            w)
  created-Tracks old t w k l info d h u =
      let (id, t') = api.breakpoint_create l w.target in
      let new_one : laws.last_id w.target < id = laws.create_new l w.target in
      let last : laws.last_id t' ≡ id = laws.create_last l w.target in
      let actions : (i : ℕ) → _ = λ i. actions-same api laws info.id i info.condition t' in
      placed-Tracks old t w k id info (init_bp_actions api info t') h
        (omega (arith, (actions id).1, last, new_one)) (omega (arith, (actions id).1, last))
        (λ i b.
          (actions i).0
          ∙ laws.create_other i l w.target (λ eq. absurd (omega (arith, eq, b, new_one))))
        ((actions id).0 ∙ laws.create_found l w.target) (inr (omega (arith, h.grown, new_one), u))
        (λ j g. absurd (omega (arith, h.all_distinct.below j id g, new_one)))

  pub set_one-Tracks :
      (old : Map K ℕ) (t : api.SBTarget) (w : Working api K) (req : Request K)
      → AreDistinct old t
      → Tracks old t w
      → Tracks old t (set_one api old req w).1
  unfolding set_one
  set_one-Tracks old t w req d h = elim (Option-cases (usable api t (get req.key old))) [
    | inl u ↦
        rw (usable-same old t w req.key d h, u)
          (created-Tracks old t w req.key req.location
            (info_for (api.breakpoint_create req.location w.target).0 req) d h u)
    | inr (id, u) ↦
        rw (usable-same old t w req.key d h, u)
          (reused-Tracks old t w req.key id (info_for id req) d h u)
  ]

  abbrev pub HasKey : K → Map K ℕ → Type 0
  HasKey k m = (id : ℕ) × (get k m ≡ some id)

  HasKey-insert : (k j : K) (v : ℕ) (m : Map K ℕ) → (k ≡ j) ⊎ HasKey k m → HasKey k (insert j v m)
  HasKey-insert k j v m (inl eq) = (v, ground (arith, get-insert k j v m, e.beq_iff k j, eq))
  HasKey-insert k j v m (inr (id, h)) = elim (Bool-cases (e.beq k j)) [
    | inl same ↦ (v, ground (arith, get-insert k j v m, same))
    | inr other ↦ (id, ground (arith, get-insert k j v m, other, h))
  ]

  pub set_one-HasKey :
      (old : Map K ℕ) (w : Working api K) (req : Request K) (k : K)
      → (k ≡ req.key) ⊎ HasKey k w.new_bps
      → HasKey k (set_one api old req w).1.new_bps
  unfolding set_one
  set_one-HasKey old w req k h = HasKey-insert k req.key _ w.new_bps h

  set_all-HasKey :
      (old : Map K ℕ) (reqs : List (Request K)) (w : Working api K) (k : K)
      → HasKey k w.new_bps
      → HasKey k (set_all api old (all_ok reqs) w).1.new_bps
  unfolding set_all
  set_all-HasKey old [] w k h = h
  set_all-HasKey old (r ∷ reqs) w k h =
      set_all-HasKey old reqs (set_one api old r w).1 k (set_one-HasKey old w r k (inr h))

  pub set_all-answers :
      (old : Map K ℕ) (reqs : List (Request K)) (w : Working api K)
      → All (λ r. HasKey r.key (set_all api old (all_ok reqs) w).1.new_bps) reqs
  unfolding set_all
  set_all-answers old [] w = tt
  set_all-answers old (r ∷ reqs) w = (
    set_all-HasKey old reqs (set_one api old r w).1 r.key (set_one-HasKey old w r r.key (inl refl)),
    set_all-answers old reqs (set_one api old r w).1,
  )

  pub set_all-Tracks :
      (old : Map K ℕ) (t : api.SBTarget) (reqs : List (Request K)) (w : Working api K)
      → AreDistinct old t
      → Tracks old t w
      → Tracks old t (set_all api old (all_ok reqs) w).1
  unfolding set_all
  set_all-Tracks old t [] w d h = h
  set_all-Tracks old t (r ∷ reqs) w d h =
      set_all-Tracks old t reqs (set_one api old r w).1 d (set_one-Tracks old t w r d h)

  pub set_all-ok :
      (old : Map K ℕ) (reqs : List (Request K)) (w : Working api K)
      → (infos : List BreakpointInfo) × ((set_all api old (all_ok reqs) w).0 ≡ ok infos)
  unfolding set_all
  set_all-ok old [] w = ([], refl)
  set_all-ok old (r ∷ reqs) w =
      let (infos, h) = set_all-ok old reqs (set_one api old r w).1 in
      ((set_one api old r w).0 ∷ infos, rw h refl)
