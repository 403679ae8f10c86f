-- ===== src/Breakpoints/Exclusions.antt =====
-- Breakpoint events of liblldb and the excluded callers, on the table of tracked breakpoints.
use vscode_lldb.Common.{
  ℕ, ◌≡◌, refl, ap, ◌∙◌, Bool, true, false, not, ◌||◌, none, some, List, [], ◌∷◌, ◌++◌, append-nil,
  append_assoc, arith, ◌==◌, ==_iff, if◌then◌else◌, Bool-cases, inl, inr,
}
use vscode_lldb.Common.Map.{
  Map, get, insert, remove, contains_key, contains_key-get, get-insert, get-remove, nat_eq,
}
use vscode_lldb.Common.Text.{Text, text_eq}
use vscode_lldb.Breakpoints.{BreakpointKind, source, exception, BreakpointInfo}

abbrev pub Infos : Type 0
Infos = Map ℕ BreakpointInfo

-- `make_bp_info` for a breakpoint that the user has made on the debugger's command line
unfoldable pub plain_info : ℕ → BreakpointInfo
plain_info id = record {
  id = id;
  kind = source;
  condition = none;
  log_message = none;
  hit_condition = none;
  hit_count = 0;
  exclusions = [];
}

-- The flags of `BreakpointEventType` that the handler tests, and the breakpoint.
pub record BreakpointEvent : Type 0 where
  pub added : Bool
  pub locations_changed : Bool
  pub removed : Bool
  pub id : ℕ
  pub is_valid : Bool

-- What the client is told.
pub data Notice : Type 0 where
  new_breakpoint changed_breakpoint removed_breakpoint : ℕ → Notice

unfoldable pub handle_breakpoint_event : Infos → BreakpointEvent → Infos × List Notice
handle_breakpoint_event infos e =
    if e.added
    then (if contains_key e.id infos || not e.is_valid
        then (infos, [])
        else (insert e.id (plain_info e.id) infos, new_breakpoint e.id ∷ []))
    else if e.locations_changed
    then (infos, if contains_key e.id infos then changed_breakpoint e.id ∷ [] else [])
    else if e.removed
    then (if contains_key e.id infos
        then (remove e.id infos, removed_breakpoint e.id ∷ [])
        else (infos, []))
    else (infos, [])

unfoldable pub handle_breakpoint_events : Infos → List BreakpointEvent → Infos × List Notice
handle_breakpoint_events infos [] = (infos, [])
handle_breakpoint_events infos (e ∷ es) =
    let (infos', notices) = handle_breakpoint_event infos e in
    let (infos'', more) = handle_breakpoint_events infos' es in (infos'', notices ++ more)

-- The breakpoints that the client shows: it adds, keeps and drops what it is told to.
abbrev pub client_step : (ℕ → Bool) → Notice → ℕ → Bool
client_step shows (new_breakpoint id) k = if k == id then true else shows k
client_step shows (changed_breakpoint id) k = shows k
client_step shows (removed_breakpoint id) k = if k == id then false else shows k

abbrev pub client : (ℕ → Bool) → List Notice → ℕ → Bool
client shows [] = shows
client shows (n ∷ ns) = client (client_step shows n) ns

-- A notice that the client expects: a new breakpoint is not shown yet, any other is.
abbrev pub Expected : (ℕ → Bool) → List Notice → Type 0
Expected shows [] = Unit
Expected shows (new_breakpoint id ∷ ns) =
    (shows id ≡ false) × Expected (client_step shows (new_breakpoint id)) ns
Expected shows (changed_breakpoint id ∷ ns) = (shows id ≡ true) × Expected shows ns
Expected shows (removed_breakpoint id ∷ ns) =
    (shows id ≡ true) × Expected (client_step shows (removed_breakpoint id)) ns

abbrev pub Shows : (ℕ → Bool) → Infos → Type 0
Shows shows infos = (k : ℕ) → shows k ≡ contains_key k infos

pub contains_key-insert :
    (j k : ℕ) (v : BreakpointInfo) (m : Infos)
    → contains_key j (insert k v m) ≡ (if j == k then true else contains_key j m)
contains_key-insert j k v m =
    ground (arith, contains_key-get j (insert k v m), contains_key-get j m, get-insert j k v m)

contains_key-remove :
    (j k : ℕ) (m : Infos)
    → contains_key j (remove k m) ≡ (if j == k then false else contains_key j m)
contains_key-remove j k m =
    ground (arith, contains_key-get j (remove k m), contains_key-get j m, get-remove j k m)

event-Shows :
    (infos : Infos) (e : BreakpointEvent) (shows : ℕ → Bool)
    → Shows shows infos
    → Shows (client shows (handle_breakpoint_event infos e).1) (handle_breakpoint_event infos e).0
      × Expected shows (handle_breakpoint_event infos e).1
unfolding handle_breakpoint_event
event-Shows infos e shows h = (
  λ k. ground (
    arith,
    h k,
    contains_key-insert k e.id (plain_info e.id) infos,
    contains_key-remove k e.id infos,
  ),
  ground (arith, h e.id),
)

client-append :
    (shows : ℕ → Bool) (ms ns : List Notice) → client shows (ms ++ ns) ≡ client (client shows ms) ns
client-append shows [] ns = refl
client-append shows (m ∷ ms) ns = client-append (client_step shows m) ms ns

Expected-append :
    (shows : ℕ → Bool) (ms ns : List Notice)
    → Expected shows ms
    → Expected (client shows ms) ns
    → Expected shows (ms ++ ns)
Expected-append shows [] ns h k = k
Expected-append shows (new_breakpoint i ∷ ms) ns h k =
    (h.0, Expected-append (client_step shows (new_breakpoint i)) ms ns h.1 k)
Expected-append shows (changed_breakpoint i ∷ ms) ns h k = (h.0, Expected-append shows ms ns h.1 k)
Expected-append shows (removed_breakpoint i ∷ ms) ns h k =
    (h.0, Expected-append (client_step shows (removed_breakpoint i)) ms ns h.1 k)

-- Whatever events arrive, a client that starts with the tracked breakpoints shows exactly the
-- tracked ones after them, and no notice names a breakpoint in the wrong state: none is new twice,
-- and none is changed or removed that the client does not show.
pub handle_breakpoint_events-Shows :
    (infos : Infos) (es : List BreakpointEvent) (shows : ℕ → Bool)
    → Shows shows infos
    → Shows
        (client shows (handle_breakpoint_events infos es).1)
        (handle_breakpoint_events infos es).0
      × Expected shows (handle_breakpoint_events infos es).1
unfolding handle_breakpoint_events
handle_breakpoint_events-Shows infos [] shows h = (h, tt)
handle_breakpoint_events-Shows infos (e ∷ es) shows h =
    let (infos', notices) = handle_breakpoint_event infos e in
    let (infos'', more) = handle_breakpoint_events infos' es in
    let first = event-Shows infos e shows h in
    let rest = handle_breakpoint_events-Shows infos' es (client shows notices) first.0 in
    (
      λ k. ap (λ (f : ℕ → Bool). f k) (client-append shows notices more) ∙ rest.0 k,
      Expected-append shows notices more first.1 rest.1,
    )

-- `ExcludedCaller`: a breakpoint by its identifier, or all those of an exception filter.
pub data SiteId : Type 0 where
  breakpoint : ℕ → SiteId
  filter : Text → SiteId

pub record ExcludedCaller : Type 0 where
  pub site_id : SiteId
  pub symbol : Text

abbrev pub push_exclusion : Text → BreakpointInfo → BreakpointInfo
push_exclusion symbol info = record info { exclusions = info.exclusions ++ symbol ∷ [] }

-- whether an exclusion is meant for a tracked breakpoint
abbrev pub is_kind : Text → BreakpointKind → Bool
is_kind name (exception name') = text_eq name name'
is_kind name _ = false

abbrev pub applies : SiteId → ℕ → BreakpointKind → Bool
applies (breakpoint k) id kind = id == k
applies (filter name) id kind = is_kind name kind

-- `get_mut` and a push, or a pass over `values_mut`
unfoldable pub add_exclusion : ExcludedCaller → Infos → Infos
add_exclusion e [] = []
add_exclusion e ((id, info) ∷ rest) =
    (id, if applies e.site_id id info.kind then push_exclusion e.symbol info else info)
    ∷ add_exclusion e rest

unfoldable pub clear_exclusions : Infos → Infos
clear_exclusions [] = []
clear_exclusions ((id, info) ∷ rest) = (id, record info { exclusions = [] }) ∷ clear_exclusions rest

unfoldable pub add_exclusions : List ExcludedCaller → Infos → Infos
add_exclusions [] infos = infos
add_exclusions (e ∷ es) infos = add_exclusions es (add_exclusion e infos)

unfoldable pub handle_set_excluded_callers : List ExcludedCaller → Infos → Infos
handle_set_excluded_callers exclusions infos = add_exclusions exclusions (clear_exclusions infos)

-- the symbols that a request names for one breakpoint, in order
abbrev pub symbols_for : ℕ → BreakpointInfo → List ExcludedCaller → List Text
symbols_for id info [] = []
symbols_for id info (e ∷ es) =
    if applies e.site_id id info.kind
    then e.symbol ∷ symbols_for id info es
    else symbols_for id info es

get-add_exclusion :
    (e : ExcludedCaller) (infos : Infos) (id : ℕ) (info : BreakpointInfo)
    → get id infos ≡ some info
    → get id (add_exclusion e infos)
      ≡ some (if applies e.site_id id info.kind then push_exclusion e.symbol info else info)
unfolding get add_exclusion
get-add_exclusion e [] id info h = cc
get-add_exclusion e ((k, v) ∷ rest) id info h = elim (Bool-cases (id == k)) [
  | inl here ↦
      let same : v ≡ info = ground (arith, here) in
      let same_id : id ≡ k = (==_iff id k).0 here in rw (here, same, same_id) refl
  | inr later ↦ rw later (get-add_exclusion e rest id info (rw later at h))
]

get-clear :
    (infos : Infos) (id : ℕ) (info : BreakpointInfo)
    → get id infos ≡ some info
    → get id (clear_exclusions infos) ≡ some (record info { exclusions = [] })
unfolding get clear_exclusions
get-clear [] id info h = cc
get-clear ((k, v) ∷ rest) id info h = elim (Bool-cases (id == k)) [
  | inl here ↦ let same : v ≡ info = ground (arith, here) in rw (here, same) refl
  | inr later ↦ rw later (get-clear rest id info (rw later at h))
]

get-add_exclusions :
    (es : List ExcludedCaller) (infos : Infos) (id : ℕ) (info : BreakpointInfo) (xs : List Text)
    → get id infos ≡ some (record info { exclusions = xs })
    → get id (add_exclusions es infos)
      ≡ some (record info { exclusions = xs ++ symbols_for id info es })
unfolding add_exclusions
get-add_exclusions [] infos id info xs h = rw append-nil h
get-add_exclusions (e ∷ es) infos id info xs h =
    let step = get-add_exclusion e infos id (record info { exclusions = xs }) h in
    elim (Bool-cases (applies e.site_id id info.kind)) [
      | inl meant ↦
          get-add_exclusions es (add_exclusion e infos) id info (xs ++ e.symbol ∷ [])
            (rw meant at step)
          ∙ rw (meant, append_assoc) refl
      | inr other ↦
          get-add_exclusions es (add_exclusion e infos) id info xs (rw other at step)
          ∙ rw other refl
    ]

-- Setting the excluded callers leaves each tracked breakpoint as it was, but for its exclusions:
-- these are the symbols that the request names for it, in the request's order, and no old ones.
pub exclusions-handle_set_excluded_callers :
    (es : List ExcludedCaller) (infos : Infos) (id : ℕ) (info : BreakpointInfo)
    → get id infos ≡ some info
    → get id (handle_set_excluded_callers es infos)
      ≡ some (record info { exclusions = symbols_for id info es })
unfolding handle_set_excluded_callers
exclusions-handle_set_excluded_callers es infos id info h =
    get-add_exclusions es (clear_exclusions infos) id info [] (get-clear infos id info h)
