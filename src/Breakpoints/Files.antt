-- ===== src/Breakpoints/Files.antt =====
-- Breakpoints in source files: what is in the tables and in the target behind a request.
use vscode_lldb.Common.{
  ℕ, ◌≤◌, ◌<◌, ◌≡◌, ◌≢◌, refl, sym, ap, subst, ◌∙◌, inl, inr, false, ◌&&◌, Option, none, some, List,
  [], ◌∷◌, ◌==◌, arith, All, All-imp, Bool-cases,
}
use mathlib.Core.Option
use vscode_lldb.Common.Int.{ℤ}
use vscode_lldb.Common.Map.{
  Map, get, insert, contains_key, contains_key-get, get-insert, nat_eq, Text_eq, beq_refl,
}
use vscode_lldb.Common.Outcome.{Outcome, ok, ◌>>=◌}
use vscode_lldb.Common.Text.{Text}
use vscode_lldb.Breakpoints.Setting.{
  TargetApi, by_source_line, Working, Bound, usable, set_one, delete_stale,
}
use vscode_lldb.Breakpoints.Reuse.{
  TargetLaws, IsStale, delete_stale-last, delete_stale-keeps, delete_stale-gone,
}
use vscode_lldb.Breakpoints.Loop.{AreDistinct, Tracks, HasKey, set_one-Tracks, set_one-HasKey}
use vscode_lldb.Breakpoints.Tracking.{IsPlaced, started, started-Tracks, new-kept, Origin-same}
use vscode_lldb.Breakpoints.Listings.{ℤ_eq, SourceBreakpoint}
use vscode_lldb.Breakpoints.Source.{
  SourceApi, BreakpointMode, path_mode, file_mode, Answer, SourceTables, or_empty, u32_of,
  hint_by_name, get_breakpoint_hint, is_path_mode, location_for, hinted, source_request,
  set_source_one, set_source_all, remove_stale, file_bound, set_source_breakpoints,
}
use vscode_lldb.Breakpoints.Stale.{remove_stale-keeps, remove_stale-gone}

module _ (api : TargetApi) (laws : TargetLaws api) where
  -- Breakpoints made and deleted in between change nothing for the table.
  moved-Tracks :
      (old : Map ℤ ℕ) (t t' : api.SBTarget) (w : Working api ℤ)
      → Tracks api laws old t w
      → laws.last_id w.target ≤ laws.last_id t'
      → ((i : ℕ)
          → i ≤ laws.last_id w.target
          → api.find_breakpoint_by_id i t' ≡ api.find_breakpoint_by_id i w.target)
      → Tracks api laws old t (record w { target = t' })
  moved-Tracks old t t' w h grow same = record {
    grown = omega (arith, h.grown, grow);
    same = λ i b. same i (omega (arith, b, h.grown)) ∙ h.same i b;
    all_distinct = record {
      unique = h.all_distinct.unique;
      below = λ k i g. omega (arith, h.all_distinct.below k i g, grow);
      distinct = h.all_distinct.distinct;
    };
    found = λ k i g. same i (h.all_distinct.below k i g) ∙ h.found k i g;
    tracked = h.tracked;
    origin = h.origin;
  }

module _ (api : TargetApi) (laws : TargetLaws api) (files : SourceApi api) where
  -- a change of the target that none of its breakpoints notices
  abbrev IsHarmless : api.SBTarget → api.SBTarget → Type 0
  IsHarmless t t' =
      (laws.last_id t ≤ laws.last_id t')
      × ((i : ℕ)
          → i ≤ laws.last_id t
          → api.find_breakpoint_by_id i t' ≡ api.find_breakpoint_by_id i t)

  by_name-IsHarmless :
      (file_path : Text) (line : ℕ) (column : Option ℕ) (o : Option Text) (t : api.SBTarget)
      → IsHarmless t (hint_by_name api files file_path line column o t).1
  by_name-IsHarmless file_path line column none t = (omega arith, λ i b. refl)
  by_name-IsHarmless file_path line column (some name) t =
      let l = by_source_line name line column in
      let (id, t') = api.breakpoint_create l t in
      let new_one : laws.last_id t < id = laws.create_new l t in
      (
        omega (arith, laws.delete_last id t', laws.create_last l t, new_one),
        λ i b.
            let other : i ≢ id = λ eq. absurd (omega (arith, eq, b, new_one)) in
            laws.delete_other i id t' other ∙ laws.create_other i l t other,
      )

  hinted-IsHarmless :
      (mode : BreakpointMode) (file_path : Text) (req : SourceBreakpoint) (id : ℕ)
      (t : api.SBTarget)
      → IsHarmless t (hinted api files mode file_path req id t).1
  unfolding get_breakpoint_hint
  hinted-IsHarmless mode file_path req id t =
      elim (Bool-cases ((files.num_locations id t == 0) && is_path_mode mode)) [
        | inl asked ↦ rw asked (
            by_name-IsHarmless file_path (u32_of req.line) (Option.map u32_of req.column)
              (files.file_name file_path) t)
        | inr not_asked ↦ rw not_asked (omega arith, λ i b. refl)
      ]

  one-Tracks :
      (mode : BreakpointMode) (file_path location : Text) (old : Map ℤ ℕ) (t : api.SBTarget)
      (req : SourceBreakpoint) (w : Working api ℤ)
      → AreDistinct api laws old t
      → Tracks api laws old t w
      → Tracks api laws old t (set_source_one api files mode file_path old location req w).1
  unfolding set_source_one
  one-Tracks mode file_path location old t req w d h =
      let (info, w') = set_one api old (source_request api files location req) w in
      let (grow, same) = hinted-IsHarmless mode file_path req info.id w'.target in
      moved-Tracks api laws old t _ w'
        (set_one-Tracks api laws old t w (source_request api files location req) d h) grow same

  -- the file has a name, if that is what breakpoints are made by
  abbrev pub IsNamed : BreakpointMode → Text → Type 0
  IsNamed path_mode file_path = Unit
  IsNamed file_mode file_path = (name : Text) × (files.file_name file_path ≡ some name)

  located :
      (mode : BreakpointMode) (file_path : Text) (o : Option ℕ)
      → IsNamed mode file_path
      → (location : Text) × (location_for api files mode file_path o ≡ ok location)
  located mode file_path (some id) h = ([], refl)
  located path_mode file_path none h = (file_path, refl)
  located file_mode file_path none (name, h) = (name, rw h refl)

  prepend : Answer → Outcome (List Answer) × Working api ℤ → Outcome (List Answer) × Working api ℤ
  prepend answer (result, w) = (result >>= λ answers. ok (answer ∷ answers), w)

  set_source_all-next :
      (mode : BreakpointMode) (file_path : Text) (old : Map ℤ ℕ) (r : SourceBreakpoint)
      (reqs : List SourceBreakpoint) (w : Working api ℤ) (l : Text)
      → location_for api files mode file_path (usable api w.target (get r.line old)) ≡ ok l
      → set_source_all api files mode file_path old (r ∷ reqs) w
        ≡ prepend (set_source_one api files mode file_path old l r w).0 (
            set_source_all api files mode file_path old reqs
              (set_source_one api files mode file_path old l r w).1)
  unfolding set_source_all set_source_one prepend
  set_source_all-next mode file_path old r reqs w l found = rw (found, set_source_all) refl

  -- the loop has ended, with a breakpoint for each of these requests
  abbrev Serves :
      Map ℤ ℕ
      → api.SBTarget
      → List SourceBreakpoint
      → Outcome (List Answer) × Working api ℤ
      → Type 0
  Serves old t reqs (result, w) =
      Tracks api laws old t w
      × ((answers : List Answer) × (result ≡ ok answers))
      × All (λ r. HasKey api laws r.line w.new_bps) reqs

  all-HasKey :
      (mode : BreakpointMode) (file_path : Text) (old : Map ℤ ℕ) (reqs : List SourceBreakpoint)
      (w : Working api ℤ) (k : ℤ)
      → IsNamed mode file_path
      → HasKey api laws k w.new_bps
      → HasKey api laws k (set_source_all api files mode file_path old reqs w).1.new_bps
  unfolding set_source_all set_source_one prepend
  all-HasKey mode file_path old [] w k n h = h
  all-HasKey mode file_path old (r ∷ reqs) w k n h =
      let (l, found) = located mode file_path (usable api w.target (get r.line old)) n in
      subst (λ x. HasKey api laws k x.1.new_bps)
        (sym (set_source_all-next mode file_path old r reqs w l found))
        (all-HasKey mode file_path old reqs (set_source_one api files mode file_path old l r w).1 k
          n (set_one-HasKey api laws old w (source_request api files l r) k (inr h)))

  all-Serves :
      (mode : BreakpointMode) (file_path : Text) (old : Map ℤ ℕ) (t : api.SBTarget)
      (reqs : List SourceBreakpoint) (w : Working api ℤ)
      → IsNamed mode file_path
      → AreDistinct api laws old t
      → Tracks api laws old t w
      → Serves old t reqs (set_source_all api files mode file_path old reqs w)
  unfolding set_source_all set_source_one prepend
  all-Serves mode file_path old t [] w n d h = (h, ([], refl), tt)
  all-Serves mode file_path old t (r ∷ reqs) w n d h =
      let (l, found) = located mode file_path (usable api w.target (get r.line old)) n in
      let (answer, w') = set_source_one api files mode file_path old l r w in
      let (tracks, (answers, runs), keys) =
        all-Serves mode file_path old t reqs w' n d (one-Tracks mode file_path l old t r w d h) in
      let first : HasKey api laws r.line w'.new_bps =
        set_one-HasKey api laws old w (source_request api files l r) r.line (inl refl) in
      subst (Serves old t (r ∷ reqs))
        (sym (set_source_all-next mode file_path old r reqs w l found))
        (
          tracks,
          (answer ∷ answers, rw runs refl),
          (all-HasKey mode file_path old reqs w' r.line n first, keys),
        )

  -- the loop for a file
  abbrev looped :
      BreakpointMode
      → Text
      → List SourceBreakpoint
      → SourceTables api
      → Outcome (List Answer) × Working api ℤ
  looped mode file_path reqs s =
      set_source_all api files mode (files.normalize_path file_path)
        (file_bound api files file_path s).existing reqs
        (started api laws (file_bound api files file_path s))

  abbrev done_tables : Text → SourceTables api → Working api ℤ → SourceTables api
  done_tables file_path s w =
      let old = (file_bound api files file_path s).existing in
      record {
        source_files = insert file_path w.new_bps s.source_files;
        infos = remove_stale old w.new_bps w.breakpoint_infos;
        target = delete_stale api old w.new_bps w.target;
      }

  set_source_breakpoints-looped :
      (mode : BreakpointMode) (file_path : Text) (reqs : List SourceBreakpoint)
      (s : SourceTables api) (answers : List Answer)
      → (looped mode file_path reqs s).0 ≡ ok answers
      → set_source_breakpoints api files mode file_path reqs s
        ≡ (ok answers, done_tables file_path s (looped mode file_path reqs s).1)
  unfolding set_source_breakpoints
  set_source_breakpoints-looped mode file_path reqs s answers h = rw h refl

  existing-done :
      (file_path : Text) (s : SourceTables api) (w : Working api ℤ)
      → (file_bound api files file_path (done_tables file_path s w)).existing ≡ w.new_bps
  existing-done file_path s w =
      let same : get file_path (insert file_path w.new_bps s.source_files) ≡ some w.new_bps =
        ground
          (arith, get-insert file_path file_path w.new_bps s.source_files, beq_refl file_path) in
      ap or_empty same

  -- what a request leaves: a table of the file that is sound, a breakpoint for each line asked for, and
  -- nothing of the lines that are no longer in it
  abbrev pub IsSettled : Text → List SourceBreakpoint → Bound api ℤ → Bound api ℤ → Type 0
  IsSettled file_path reqs b b' =
      AreDistinct api laws b'.existing b'.target
      × All (λ r. IsPlaced api laws b b' r.line) reqs
      × ((line : ℤ) (id : ℕ)
          → get line b.existing ≡ some id
          → get line b'.existing ≡ none
          → (api.find_breakpoint_by_id id b'.target ≡ false) × (contains_key id b'.infos ≡ false))

  done-IsSettled :
      (file_path : Text) (reqs : List SourceBreakpoint) (s : SourceTables api) (w : Working api ℤ)
      → let b = file_bound api files file_path s in
        AreDistinct api laws b.existing b.target
        → Tracks api laws b.existing b.target w
        → All (λ r. HasKey api laws r.line w.new_bps) reqs
        → IsSettled file_path reqs b (record {
          existing = w.new_bps;
          infos = remove_stale b.existing w.new_bps w.breakpoint_infos;
          target = delete_stale api b.existing w.new_bps w.target;
        })
  done-IsSettled file_path reqs s w d h keys =
      let b = file_bound api files file_path s in
      let kept : (k : ℤ) (id : ℕ)
          → get k w.new_bps ≡ some id
          → ¬ IsStale api laws b.existing w.new_bps id =
        λ k id g. new-kept api laws b.existing b.target w k id d h g in
      (
        record {
          unique = h.all_distinct.unique;
          below = λ k id g. omega (
            arith,
            delete_stale-last api laws b.existing w.new_bps w.target,
            h.all_distinct.below k id g,
          );
          distinct = h.all_distinct.distinct;
        },
        All-imp
            (λ r (id, g). (
              id,
              g,
              delete_stale-keeps api laws b.existing w.new_bps w.target id d.unique
                    (kept r.line id g)
                  ∙ h.found r.line id g,
              remove_stale-keeps api laws b.existing w.new_bps w.breakpoint_infos id d.unique
                    (kept r.line id g)
                  ∙ h.tracked r.line id g,
              λ j there alive.
                  Origin-same api laws b.existing b.target r.line id j (h.origin r.line id g) there
                    alive,
            ))
            reqs keys,
        λ line id there gone.
            let stale : IsStale api laws b.existing w.new_bps id =
              (line, there, ground (arith, contains_key-get line w.new_bps, gone)) in
            (
              delete_stale-gone api laws b.existing w.new_bps w.target id stale,
              remove_stale-gone api laws b.existing w.new_bps w.breakpoint_infos id stale,
            ),
      )

  -- If the table of a file is sound, and the file has a name where breakpoints are made by it, setting
  -- its breakpoints succeeds, and its table stays sound. It holds for each line asked for a
  -- breakpoint that liblldb finds and that is tracked, the one it had if that was found; a breakpoint
  -- of a line that is not in the table any more is neither found nor tracked.
  pub set_source_breakpoints-IsSettled :
      (mode : BreakpointMode) (file_path : Text) (reqs : List SourceBreakpoint)
      (s : SourceTables api)
      → IsNamed mode (files.normalize_path file_path)
      → AreDistinct api laws (file_bound api files file_path s).existing s.target
      → ((answers : List Answer) × ((set_source_breakpoints api files mode file_path reqs s).0
            ≡ ok answers))
        × IsSettled file_path reqs (file_bound api files file_path s) (
            file_bound api files file_path
              (set_source_breakpoints api files mode file_path reqs s).1)
  set_source_breakpoints-IsSettled mode file_path reqs s n d =
      let b = file_bound api files file_path s in
      let w = (looped mode file_path reqs s).1 in
      let (tracks, (answers, runs), keys) =
        all-Serves mode (files.normalize_path file_path) b.existing b.target reqs
          (started api laws b) n d (started-Tracks api laws b) in
      let u = done_tables file_path s w in
      subst
        (λ x.
          ((given : List Answer) × (x.0 ≡ ok given))
          × IsSettled file_path reqs b (file_bound api files file_path x.1))
        (sym (set_source_breakpoints-looped mode file_path reqs s answers runs))
        (
          (answers, refl),
          subst
              (λ m.
                IsSettled file_path reqs b
                  (record { existing = m; infos = u.infos; target = u.target }))
              (sym (existing-done file_path s w)) (done-IsSettled file_path reqs s w d tracks keys),
        )
