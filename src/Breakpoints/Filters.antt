-- ===== src/Breakpoints/Filters.antt =====
-- `handle_set_exception_breakpoints`: the breakpoints of the exception filters.
use vscode_lldb.Common.{
  ℕ, ◌≤◌, ◌≡◌, refl, ap, ◌∙◌, inl, inr, Bool, true, false, Option, none, some, List, [], ◌∷◌, ◌++◌,
  map, arith, if◌then◌else◌, Bool-cases, ◌==◌, ==_iff,
}
use vscode_lldb.Common.Map.{get, insert, get-insert, nat_eq}
use vscode_lldb.Common.Text.{Text, text_eq, codes}
use vscode_lldb.Breakpoints.{BreakpointKind, exception, BreakpointInfo}
use vscode_lldb.Breakpoints.Exclusions.{Infos}
use vscode_lldb.Breakpoints.Setting.{
  TargetApi, Location, by_regex, for_exception, c_plus_plus, swift, make_bp_info, init_bp_actions,
}
use vscode_lldb.Breakpoints.Reuse.{TargetLaws, Unique, actions-same}

pub record ExceptionFilterOptions : Type 0 where
  pub filter_id : Text
  pub condition : Option Text

-- what is created for a filter, and the name that it gets
unfoldable pub exception_location : Text → Option (Location × Text)
exception_location name =
    if text_eq name (codes "cpp_throw")
    then some (for_exception c_plus_plus false true, codes "cpp_exception")
    else if text_eq name (codes "cpp_catch")
    then some (for_exception c_plus_plus true false, codes "cpp_exception")
    else if text_eq name (codes "rust_panic")
    then some (by_regex (codes "rust_panic$"), codes "rust_panic")
    else if text_eq name (codes "swift_throw")
    then some (for_exception swift false true, codes "swift_exception")
    else none

abbrev pub is_exception : BreakpointKind → Bool
is_exception (exception name) = true
is_exception _ = false

module _ (api : TargetApi) where
  unfoldable pub set_exception_breakpoint :
      Option (Location × Text) → api.SBTarget → Option (ℕ × api.SBTarget)
  set_exception_breakpoint none t = none
  set_exception_breakpoint (some (location, name)) t =
      let (id, t') = api.breakpoint_create location t in some (id, api.add_name id name t')

  -- `retain`
  unfoldable pub drop_exceptions : Infos → api.SBTarget → Infos × api.SBTarget
  drop_exceptions [] t = ([], t)
  drop_exceptions ((id, info) ∷ rest) t =
      let (kept, t') =
        drop_exceptions rest
          (if is_exception info.kind then api.breakpoint_delete info.id t else t) in
      (if is_exception info.kind then kept else (id, info) ∷ kept, t')

  abbrev info_of : Text → Option Text → ℕ → BreakpointInfo
  info_of name condition id = make_bp_info api id (exception name) condition none none

  -- one round of the loops over `filters` and `filter_options`
  abbrev track :
      Text
      → Option Text
      → Option (ℕ × api.SBTarget)
      → Infos
      → api.SBTarget
      → List BreakpointInfo × Infos × api.SBTarget
  track name condition none infos t = ([], infos, t)
  track name condition (some (id, t')) infos t = (
    info_of name condition id ∷ [],
    insert id (info_of name condition id) infos,
    init_bp_actions api (info_of name condition id) t',
  )

  unfoldable pub add_filters :
      List ExceptionFilterOptions
      → Infos
      → api.SBTarget
      → List BreakpointInfo × Infos × api.SBTarget
  add_filters [] infos t = ([], infos, t)
  add_filters (f ∷ fs) infos t =
      let (made, infos', t') =
        track f.filter_id f.condition (set_exception_breakpoint (exception_location f.filter_id) t)
          infos t in
      let (more, infos'', t'') = add_filters fs infos' t' in (made ++ more, infos'', t'')

  abbrev plain_filter : Text → ExceptionFilterOptions
  plain_filter name = record { filter_id = name; condition = none }

  unfoldable pub handle_set_exception_breakpoints :
      List Text
      → List ExceptionFilterOptions
      → Infos
      → api.SBTarget
      → List BreakpointInfo × Infos × api.SBTarget
  unfolding drop_exceptions add_filters
  handle_set_exception_breakpoints filters filter_options infos t =
      let (kept, t') = drop_exceptions infos t in
      add_filters (map plain_filter filters ++ filter_options) kept t'

-- what is left of a tracked breakpoint
abbrev pub unless_exception : Option BreakpointInfo → Option BreakpointInfo
unless_exception none = none
unless_exception (some info) = if is_exception info.kind then none else some info

abbrev known_step : Option (Location × Text) → Text → List BreakpointKind → List BreakpointKind
known_step none name rest = rest
known_step (some _) name rest = exception name ∷ rest

-- the filters that there are
abbrev pub known : List ExceptionFilterOptions → List BreakpointKind
known [] = []
known (f ∷ fs) = known_step (exception_location f.filter_id) f.filter_id (known fs)

module _ (api : TargetApi) (laws : TargetLaws api) where
  drop_exceptions-last :
      (infos : Infos) (t : api.SBTarget)
      → laws.last_id (drop_exceptions api infos t).1 ≡ laws.last_id t
  unfolding drop_exceptions
  drop_exceptions-last [] t = refl
  drop_exceptions-last ((id, info) ∷ rest) t =
      drop_exceptions-last rest _ ∙ ground (arith, laws.delete_last info.id t)

  get-drop_exceptions :
      (infos : Infos) (t : api.SBTarget) (k : ℕ)
      → Unique infos
      → get k (drop_exceptions api infos t).0 ≡ unless_exception (get k infos)
  unfolding drop_exceptions get
  get-drop_exceptions [] t k u = refl
  get-drop_exceptions ((id, info) ∷ rest) t k u =
      let t' = if is_exception info.kind then api.breakpoint_delete info.id t else t in
      let ih = get-drop_exceptions rest t' k u.1 in
      elim (Bool-cases (is_exception info.kind)) [
        | inl exc ↦ elim (Bool-cases (k == id)) [
          | inl here ↦
              let eq : k ≡ id = (==_iff k id).0 here in
              let gone : get k rest ≡ none = rw eq u.0 in
              rw exc (rw here (rw exc (rw exc at ih ∙ rw gone refl)))
          | inr other ↦ rw exc (rw other (rw exc at ih))
        ]
        | inr plain ↦ elim (Bool-cases (k == id)) [
          | inl here ↦ rw plain (rw here (rw plain refl))
          | inr other ↦ rw plain (rw other (rw plain at ih))
        ]
      ]

  track-keeps :
      (name : Text) (condition : Option Text) (o : Option (Location × Text)) (infos : Infos)
      (t : api.SBTarget) (k : ℕ)
      → k ≤ laws.last_id t
      → (get k (track api name condition (set_exception_breakpoint api o t) infos t).1
          ≡ get k infos)
        × (k ≤ laws.last_id (track api name condition (set_exception_breakpoint api o t) infos t).2)
  unfolding set_exception_breakpoint
  track-keeps name condition none infos t k h = (refl, h)
  track-keeps name condition (some (location, label)) infos t k h =
      let (id, t') = api.breakpoint_create location t in
      let info = info_of api name condition id in
      let new_one = laws.create_new location t in
      (
        ground (arith, get-insert k id info infos, ==_iff k id, new_one, h),
        omega (
          arith,
          h,
          new_one,
          laws.create_last location t,
          laws.name_last id label t',
          (actions-same api laws info.id id info.condition (api.add_name id label t')).1,
        ),
      )

  get-add_filters :
      (fs : List ExceptionFilterOptions) (infos : Infos) (t : api.SBTarget) (k : ℕ)
      → k ≤ laws.last_id t
      → get k (add_filters api fs infos t).1 ≡ get k infos
  unfolding add_filters
  get-add_filters [] infos t k h = refl
  get-add_filters (f ∷ fs) infos t k h =
      let (kept, below) =
        track-keeps f.filter_id f.condition (exception_location f.filter_id) infos t k h in
      get-add_filters fs _ _ k below ∙ kept

  kinds-track :
      (name : Text) (condition : Option Text) (o : Option (Location × Text)) (infos : Infos)
      (t : api.SBTarget) (rest : List BreakpointInfo)
      → map
          (λ (info : BreakpointInfo). info.kind)
          ((track api name condition (set_exception_breakpoint api o t) infos t).0 ++ rest)
        ≡ known_step o name (map (λ (info : BreakpointInfo). info.kind) rest)
  unfolding set_exception_breakpoint make_bp_info
  kinds-track name condition none infos t rest = refl
  kinds-track name condition (some l) infos t rest = refl

  kinds-add_filters :
      (fs : List ExceptionFilterOptions) (infos : Infos) (t : api.SBTarget)
      → map (λ (info : BreakpointInfo). info.kind) (add_filters api fs infos t).0 ≡ known fs
  unfolding add_filters
  kinds-add_filters [] infos t = refl
  kinds-add_filters (f ∷ fs) infos t =
      kinds-track f.filter_id f.condition (exception_location f.filter_id) infos t _
      ∙ ap (known_step (exception_location f.filter_id) f.filter_id) (kinds-add_filters fs _ _)

  -- Setting the exception filters answers with one breakpoint for each filter that there is, in the
  -- order of the request; of the breakpoints tracked before, those of exceptions are tracked no
  -- more, and all others are as they were.
  pub handle_set_exception_breakpoints_lem :
      (filters : List Text) (options : List ExceptionFilterOptions) (infos : Infos)
      (t : api.SBTarget)
      → Unique infos
      → (map
            (λ (info : BreakpointInfo). info.kind)
            (handle_set_exception_breakpoints api filters options infos t).0
          ≡ known (map (plain_filter api) filters ++ options))
        × ((k : ℕ)
            → k ≤ laws.last_id t
            → get k (handle_set_exception_breakpoints api filters options infos t).1
              ≡ unless_exception (get k infos))
  unfolding handle_set_exception_breakpoints
  handle_set_exception_breakpoints_lem filters options infos t u =
      let (kept, t') = drop_exceptions api infos t in
      (
        kinds-add_filters (map (plain_filter api) filters ++ options) kept t',
        λ k h.
            get-add_filters (map (plain_filter api) filters ++ options) kept t' k
              (omega (arith, h, drop_exceptions-last infos t))
            ∙ get-drop_exceptions infos t k u,
      )
