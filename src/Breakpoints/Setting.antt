-- ===== src/Breakpoints/Setting.antt =====
-- The requests that set breakpoints: which breakpoints of liblldb are kept, created and deleted.
-- `TargetApi` is the target of liblldb with what else the code calls; a breakpoint is its
-- identifier. The loop over the requested breakpoints and the deletion of stale ones, which the
-- code repeats in each handler, stand here once. A handler gives back the `BreakpointInfo`s from
-- which the responses are made.
use vscode_lldb.Expressions.{
  PreparedExpression, native, simple, python, EvalContext, simple_expression, python_expression,
}
use vscode_lldb.Common.{
  ℕ, ◌+◌, ◌%◌, ◌^◌, Bool, Option, none, some, List, [], ◌∷◌, map, if◌then◌else◌, ◌⊎◌, inl, inr,
  drop,
}
use vscode_lldb.Common.Int.{ℤ, as_u64}
use vscode_lldb.Common.Map.{Map, Eq, get, insert, contains_key, nat_eq, Text_eq}
use vscode_lldb.Common.Outcome.{Outcome, ok, err, panic, out_of_fuel, ◌>>=◌, or_err}
use vscode_lldb.Common.Text.{Text, codes, starts_with, text_eq}
use vscode_lldb.Breakpoints.{HitCondition, BreakpointKind, instruction, function, BreakpointInfo}
use vscode_lldb.Breakpoints.Exclusions.{Infos}

pub data LanguageType : Type 0 where
  c_plus_plus swift : LanguageType

-- the arguments of `breakpoint_create_by_…` and `breakpoint_create_for_exception`
pub data Location : Type 0 where
  by_load_address : ℕ → Location
  by_regex by_name : Text → Location
  -- a path or a file's name, a line, and a column
  by_source_line : Text → ℕ → Option ℕ → Location
  for_exception : LanguageType → Bool → Bool → Location

pub record TargetApi : Type 1 where
  pub SBTarget : Type 0
  pub PyObject : Type 0
  pub breakpoint_create : Location → SBTarget → ℕ × SBTarget
  pub breakpoint_delete : ℕ → SBTarget → SBTarget
  pub find_breakpoint_by_id : ℕ → SBTarget → Bool
  pub add_name : ℕ → Text → SBTarget → SBTarget
  pub set_condition : ℕ → Text → SBTarget → SBTarget
  pub set_callback : ℕ → Option (PyObject × EvalContext) → SBTarget → SBTarget
  pub trim : Text → Text
  pub parse_u64 : Text → Option ℕ
  -- the parsers of expressions, and Python
  pub parse_hit_condition : Text → Option HitCondition
  pub prepare : Text → Text ⊎ PreparedExpression
  pub has_python : Bool
  pub compile_code : Text → Text ⊎ PyObject

-- A requested breakpoint, as a handler reads it from its arguments.
pub record Request (K : Type 0) : Type 0 where
  pub key : K
  pub location : Location
  pub kind : BreakpointKind
  pub condition : Option Text
  pub log_message : Option Text
  pub hit_condition : Option Text

-- what the loop changes
pub record Working (api : TargetApi) (K : Type 0) : Type 0 where
  pub new_bps : Map K ℕ
  pub breakpoint_infos : Infos
  pub target : api.SBTarget

-- the table of a handler, with what it shares with the others
pub record Bound (api : TargetApi) (K : Type 0) : Type 0 where
  pub existing : Map K ℕ
  pub infos : Infos
  pub target : api.SBTarget

module _ (api : TargetApi) where
  abbrev non_empty : Text → Option Text
  non_empty s = if text_eq s [] then none else some s

  unfoldable pub empty2none : Option Text → Option Text
  empty2none none = none
  empty2none (some s) = non_empty (api.trim s)

  abbrev parse_optional : Option Text → Option HitCondition
  parse_optional none = none
  parse_optional (some s) = api.parse_hit_condition s

  unfoldable pub make_bp_info :
      ℕ → BreakpointKind → Option Text → Option Text → Option Text → BreakpointInfo
  unfolding empty2none
  make_bp_info id kind condition log_message hit_condition = record {
    id = id;
    kind = kind;
    condition = empty2none condition;
    log_message = empty2none log_message;
    hit_condition = parse_optional (empty2none hit_condition);
    hit_count = 0;
    exclusions = [];
  }

  unfoldable pub compiled : EvalContext → Text ⊎ api.PyObject → Option (api.PyObject × EvalContext)
  compiled context (inl e) = none
  compiled context (inr code) = some (code, context)

  unfoldable pub apply_condition : ℕ → Text ⊎ PreparedExpression → api.SBTarget → api.SBTarget
  unfolding compiled
  apply_condition id (inl e) t = api.set_callback id none t
  apply_condition id (inr (native expr)) t = api.set_callback id none (api.set_condition id expr t)
  apply_condition id (inr (simple expr)) t =
      api.set_callback id
        (if api.has_python then compiled simple_expression (api.compile_code expr) else none) t
  apply_condition id (inr (python expr)) t =
      api.set_callback id
        (if api.has_python then compiled python_expression (api.compile_code expr) else none) t

  unfoldable pub condition_actions : ℕ → Option Text → api.SBTarget → api.SBTarget
  unfolding apply_condition
  condition_actions id none t = api.set_callback id none t
  condition_actions id (some condition) t = apply_condition id (api.prepare condition) t

  abbrev pub init_bp_actions : BreakpointInfo → api.SBTarget → api.SBTarget
  init_bp_actions info t = condition_actions info.id info.condition t

  abbrev pub usable : api.SBTarget → Option ℕ → Option ℕ
  usable t none = none
  usable t (some id) = if api.find_breakpoint_by_id id t then some id else none

  abbrev pub obtain : Option ℕ → Location → api.SBTarget → ℕ × api.SBTarget
  obtain (some id) location t = (id, t)
  obtain none location t = api.breakpoint_create location t

  module _ {K : Type 0} ⦃e : Eq K⦄ where
    abbrev info_of : ℕ → Request K → BreakpointInfo
    info_of id req = make_bp_info id req.kind req.condition req.log_message req.hit_condition

    unfoldable pub set_one : Map K ℕ → Request K → Working api K → BreakpointInfo × Working api K
    unfolding condition_actions make_bp_info
    set_one existing req w =
        let (id, t) = obtain (usable w.target (get req.key existing)) req.location w.target in
        (
          info_of id req,
          record {
            new_bps = insert req.key id w.new_bps;
            breakpoint_infos = insert id (info_of id req) w.breakpoint_infos;
            target = init_bp_actions (info_of id req) t;
          },
        )

    -- A request that cannot be read ends the loop, with the earlier ones done.
    unfoldable pub set_all :
        Map K ℕ
        → List (Outcome (Request K))
        → Working api K
        → Outcome (List BreakpointInfo) × Working api K
    unfolding set_one
    set_all existing [] w = (ok [], w)
    set_all existing (ok req ∷ reqs) w =
        let (info, w') = set_one existing req w in
        let (result, w'') = set_all existing reqs w' in (result >>= λ infos. ok (info ∷ infos), w'')
    set_all existing (err e ∷ reqs) w = (err e, w)
    set_all existing (panic ∷ reqs) w = (panic, w)
    set_all existing (out_of_fuel ∷ reqs) w = (out_of_fuel, w)

    unfoldable pub delete_stale : Map K ℕ → Map K ℕ → api.SBTarget → api.SBTarget
    delete_stale [] new_bps t = t
    delete_stale ((key, id) ∷ existing) new_bps t =
        delete_stale existing new_bps
          (if contains_key key new_bps then t else api.breakpoint_delete id t)

    abbrev settle :
        Map K ℕ
        → Outcome (List BreakpointInfo)
        → Working api K
        → Outcome (List BreakpointInfo) × Bound api K
    settle existing (ok infos) w = (
      ok infos,
      record {
        existing = w.new_bps;
        infos = w.breakpoint_infos;
        target = delete_stale existing w.new_bps w.target;
      },
    )
    settle existing o w =
        (o, record { existing = existing; infos = w.breakpoint_infos; target = w.target })

    unfoldable pub set_breakpoints :
        List (Outcome (Request K)) → Bound api K → Outcome (List BreakpointInfo) × Bound api K
    unfolding set_all delete_stale
    set_breakpoints reqs b =
        let (result, w) =
          set_all b.existing reqs
            (record { new_bps = []; breakpoint_infos = b.infos; target = b.target }) in
        settle b.existing result w

  pub record FunctionBreakpoint : Type 0 where
    pub name : Text
    pub condition : Option Text
    pub hit_condition : Option Text

  unfoldable pub function_request : FunctionBreakpoint → Request Text
  function_request req = record {
    key = req.name;
    location =
        if starts_with (codes "/re ") req.name
        then by_regex (drop 4 req.name)
        else by_name req.name;
    kind = function;
    condition = req.condition;
    log_message = none;
    hit_condition = req.hit_condition;
  }

  unfoldable pub handle_set_function_breakpoints :
      List FunctionBreakpoint → Bound api Text → Outcome (List BreakpointInfo) × Bound api Text
  unfolding set_breakpoints function_request
  handle_set_function_breakpoints reqs b = set_breakpoints (map ok (map function_request reqs)) b

  pub record InstructionBreakpoint : Type 0 where
    pub instruction_reference : Text
    pub offset : Option ℤ
    pub condition : Option Text
    pub hit_condition : Option Text

  abbrev offset_or_zero : Option ℤ → ℕ
  offset_or_zero none = 0
  offset_or_zero (some offset) = as_u64 offset

  unfoldable pub instruction_request : InstructionBreakpoint → Outcome (Request ℕ)
  instruction_request req = do
    base_addr ←
        or_err (codes "invalid instruction reference") (api.parse_u64 req.instruction_reference)
    let address : ℕ = (base_addr + offset_or_zero req.offset) % 2 ^ 64
    ok (record {
      key = address;
      location = by_load_address address;
      kind = instruction;
      condition = req.condition;
      log_message = none;
      hit_condition = req.hit_condition;
    })

  unfoldable pub handle_set_instruction_breakpoints :
      List InstructionBreakpoint → Bound api ℕ → Outcome (List BreakpointInfo) × Bound api ℕ
  unfolding set_breakpoints instruction_request
  handle_set_instruction_breakpoints reqs b = set_breakpoints (map instruction_request reqs) b
