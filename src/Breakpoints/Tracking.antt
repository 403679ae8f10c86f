-- ===== src/Breakpoints/Tracking.antt =====
-- The handlers that set breakpoints: what is in the tables and in the target behind a request.
use vscode_lldb.Common.{
  ℕ, ◌≤◌, ◌≡◌, ◌≢◌, refl, ◌∙◌, inl, inr, true, false, none, some, List, [], arith, All, All-imp,
}
use vscode_lldb.Common.Map.{Map, Eq, get, contains_key, contains_key-get, nat_eq}
use vscode_lldb.Common.Outcome.{ok}
use vscode_lldb.Breakpoints.{BreakpointInfo}
use vscode_lldb.Breakpoints.Setting.{
  TargetApi, Request, Working, Bound, set_all, delete_stale, set_breakpoints,
}
use vscode_lldb.Breakpoints.Reuse.{
  TargetLaws, Found, delete_stale-last, delete_stale-keeps, delete_stale-gone, IsStale,
}
use vscode_lldb.Breakpoints.Loop.{
  AreDistinct, Tracks, Origin, all_ok, set_all-answers, set_all-Tracks, set_all-ok,
}

module _ (api : TargetApi) (laws : TargetLaws api) {K : Type 0} ⦃e : Eq K⦄ where
  abbrev pub started : Bound api K → Working api K
  started b = record { new_bps = []; breakpoint_infos = b.infos; target = b.target }

  pub started-Tracks : (b : Bound api K) → Tracks api laws b.existing b.target (started b)
  unfolding get
  started-Tracks b = record {
    grown = omega arith;
    same = λ i h. refl;
    all_distinct = record {
      unique = tt;
      below = λ k i h. absurd (cc h);
      distinct = λ k j i h g. absurd (cc h);
    };
    found = λ k i h. absurd (cc h);
    tracked = λ k i h. absurd (cc h);
    origin = λ k i h. absurd (cc h);
  }

  -- the loop for these requests, and the handler's result
  abbrev looped : List (Request K) → Bound api K → Working api K
  looped reqs b = (set_all api b.existing (all_ok reqs) (started b)).1

  looped-Tracks :
      (reqs : List (Request K)) (b : Bound api K)
      → AreDistinct api laws b.existing b.target
      → Tracks api laws b.existing b.target (looped reqs b)
  looped-Tracks reqs b d =
      set_all-Tracks api laws b.existing b.target reqs (started b) d (started-Tracks b)

  set_breakpoints-looped :
      (reqs : List (Request K)) (b : Bound api K)
      → (infos : List BreakpointInfo) × (set_breakpoints api (all_ok reqs) b ≡ (
        ok infos,
        record {
          existing = (looped reqs b).new_bps;
          infos = (looped reqs b).breakpoint_infos;
          target = delete_stale api b.existing (looped reqs b).new_bps (looped reqs b).target;
        },
      ))
  unfolding set_breakpoints
  set_breakpoints-looped reqs b =
      let (infos, h) = set_all-ok api laws b.existing reqs (started b) in (infos, rw h refl)

  -- What the request has made of a key: a breakpoint that is there and tracked, and the old one where
  -- there was one.
  abbrev pub IsPlaced : Bound api K → Bound api K → K → Type 0
  IsPlaced b b' k =
      (id : ℕ) × (get k b'.existing ≡ some id)
      × Found api laws id b'.target
      × (contains_key id b'.infos ≡ true)
      × ((j : ℕ) → get k b.existing ≡ some j → Found api laws j b.target → id ≡ j)

  -- a breakpoint that the loop has put in the table is not deleted after it
  pub new-kept :
      (old : Map K ℕ) (t : api.SBTarget) (w : Working api K) (k : K) (id : ℕ)
      → AreDistinct api laws old t
      → Tracks api laws old t w
      → get k w.new_bps ≡ some id
      → ¬ IsStale api laws old w.new_bps id
  new-kept old t w k id d h g (j, there, gone) = elim (h.origin k id g) [
    | inl (old_one, _) ↦
        let eq : k ≡ j = d.distinct k j id old_one there in
        let absent : contains_key k w.new_bps ≡ false = rw eq gone in
        absurd (ground (arith, contains_key-get k w.new_bps, g, absent))
    | inr (new_one, _) ↦ absurd (omega (arith, new_one, d.below j id there))
  ]

  pub Origin-same :
      (old : Map K ℕ) (t : api.SBTarget) (k : K) (id j : ℕ)
      → Origin api laws old t k id
      → get k old ≡ some j
      → Found api laws j t
      → id ≡ j
  Origin-same old t k id j (inl (there, _)) g f = ground (arith, there, g)
  Origin-same old t k id j (inr (_, u)) g f = absurd (ground (arith, u, g, f))

  -- Whatever breakpoints are requested, if all the requests can be read (so that each instruction
  -- breakpoint has a reference that parses) and the table of the handler has one breakpoint for each
  -- key and none that two keys share: the request succeeds and the table stays so; and each key asked
  -- for has a breakpoint that liblldb finds and that is tracked, the one it had if that was found.
  pub set_breakpoints-IsPlaced :
      (reqs : List (Request K)) (b : Bound api K)
      → AreDistinct api laws b.existing b.target
      → ((infos : List BreakpointInfo) × ((set_breakpoints api (all_ok reqs) b).0 ≡ ok infos))
        × AreDistinct api laws
            (set_breakpoints api (all_ok reqs) b).1.existing
            (set_breakpoints api (all_ok reqs) b).1.target
        × All (λ r. IsPlaced b (set_breakpoints api (all_ok reqs) b).1 r.key) reqs
  set_breakpoints-IsPlaced reqs b d =
      let (infos, runs) = set_breakpoints-looped reqs b in
      let w = looped reqs b in
      let h = looped-Tracks reqs b d in
      rw runs (
        (infos, refl),
        record {
          unique = h.all_distinct.unique;
          below = λ k id g. omega (
            arith,
            delete_stale-last api laws b.existing w.new_bps w.target,
            h.all_distinct.below k id g,
          );
          distinct = h.all_distinct.distinct;
        },
        All-imp
            (λ r (id, g). (
              id,
              g,
              delete_stale-keeps api laws b.existing w.new_bps w.target id d.unique
                    (new-kept b.existing b.target w r.key id d h g)
                  ∙ h.found r.key id g,
              h.tracked r.key id g,
              λ j there alive.
                  Origin-same b.existing b.target r.key id j (h.origin r.key id g) there alive,
            ))
            reqs (set_all-answers api laws b.existing reqs (started b)),
      )

  -- A request deletes the breakpoints of the keys that are not in the table any more, and no other:
  -- any that is not in the handler's table is found afterwards exactly if it was before.
  pub set_breakpoints-deletes :
      (reqs : List (Request K)) (b : Bound api K) (id : ℕ)
      → AreDistinct api laws b.existing b.target
      → id ≤ laws.last_id b.target
      → ((k : K)
          → get k b.existing ≡ some id
          → get k (set_breakpoints api (all_ok reqs) b).1.existing ≡ none
          → api.find_breakpoint_by_id id (set_breakpoints api (all_ok reqs) b).1.target ≡ false)
        × (((k : K) → get k b.existing ≢ some id)
            → api.find_breakpoint_by_id id (set_breakpoints api (all_ok reqs) b).1.target
              ≡ api.find_breakpoint_by_id id b.target)
  set_breakpoints-deletes reqs b id d le =
      let (infos, runs) = set_breakpoints-looped reqs b in
      let w = looped reqs b in
      let h = looped-Tracks reqs b d in
      rw runs (
        λ k there gone.
            delete_stale-gone api laws b.existing w.new_bps w.target id
              (k, there, ground (arith, contains_key-get k w.new_bps, gone)),
        λ other.
            delete_stale-keeps api laws b.existing w.new_bps w.target id d.unique
              (λ (k, there, _). other k there)
            ∙ h.same id le,
      )
