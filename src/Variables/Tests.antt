-- ===== src/Variables/Tests.antt =====
-- Values that are numbers, and instances.
use vscode_lldb.Common.{
  ℕ, zero, suc, ◌+◌, ◌<◌, ◌≤◌, ◌≡◌, ◌≢◌, refl, ap, subst, Bool, true, false, Option, none, some,
  List, [], ◌∷◌, ◌++◌, length, get_elem?, ◌==◌, ltb, if◌then◌else◌, arith,
}
use vscode_lldb.Common.Outcome.{ok}
use vscode_lldb.Common.Text.{Text, codes, starts_with}
use vscode_lldb.Variables.{int, other_value, locals, sb_value, Container, VariableApi}
use vscode_lldb.Variables.Names.{compose_container_eval_name}
use vscode_lldb.Variables.Path.{IsPath, IsTree, path_name, compose_container_eval_name-IsPath}
use vscode_lldb.Variables.Summary.{Clock, Settings, item, should_stop, get_container_summary}
use vscode_lldb.Variables.Limit.{
  items, cut, joined, braced, get_container_summary_lem, get_container_summary-le,
}
use vscode_lldb.Variables.Variable.{Variable}
use vscode_lldb.Variables.Scope.{Expansion, View, convert_scope_values}
use vscode_lldb.Variables.Dedup.{find_name, last_or, count_name}
use vscode_lldb.Variables.Expansion.{
  variables_from, stops, ended, convert_scope_values_lem, convert_scope_values_unique,
}

abbrev Refs : Type 0
Refs = List (Option ℕ × Text × Container ℕ ℕ)

-- Value 1 has the children 2 and 3; the handles are places in a list.
abbrev name_of : ℕ → Text
name_of v = if v == 1 then codes "p" else if v == 3 then codes "[1]" else codes "x"

abbrev container_at : Option (Option ℕ × Text × Container ℕ ℕ) → Option (Container ℕ ℕ)
container_at none = none
container_at (some (parent, key, c)) = some c

abbrev numbers : VariableApi
numbers = record {
  SBFrame = ℕ;
  SBValue = ℕ;
  Format = Bool;
  default_format = true;
  is_default = λ f. f;
  VarRefs = Refs;
  create = λ parent key c refs. (length refs, refs ++ (parent, key, c) ∷ []);
  get_container = λ h refs. container_at (get_elem? refs h);
  get_full_info = λ h refs. get_elem? refs h;
  set_format = λ f v. v;
  format = λ v. true;
  name = λ v. some (name_of v);
  display_type_name = λ v. none;
  type_name = λ v. none;
  error = λ v. none;
  basic_type = λ v. int;
  value_type = λ v. other_value;
  is_pointer_or_reference = λ v. false;
  is_pointer_type = λ v. false;
  pointee_basic_type = λ v. int;
  pointee_is_pointer_or_reference = λ v. false;
  summary = λ v. none;
  value = λ v. some (codes "7");
  lossy = λ s. s;
  to_str = λ s. some s;
  might_have_children = λ v. v == 1;
  children = λ v. 2 ∷ 3 ∷ [];
  num_children = λ v. if v == 1 then 2 else 0;
  is_synthetic = λ v. false;
  non_synthetic_value = λ v. v;
  prefer_synthetic_value = λ v. true;
  expression_path = λ v. none;
  value_as_unsigned = λ v. 7;
  load_address = λ v. 4096;
  dereference = λ v. v;
  is_valid = λ v. true;
  data_byte_size = λ v. 4;
  reads_one_byte = λ a. true;
  variables = λ arguments locals statics in_scope f. 1 ∷ 2 ∷ 4 ∷ [];
  frame_registers = λ f. [];
  stop_return_value = λ f. none;
}

-- a frame's locals, a variable of them and a child of that
abbrev refs : Refs
refs =
    (none, codes "[locs]", locals 0)
    ∷ (some 0, codes "p", sb_value 1)
    ∷ (some 1, codes "[1]", sb_value 3)
    ∷ []

abbrev parent_or : Option (Option ℕ × Text × Container ℕ ℕ) → ℕ
parent_or (some (some p, key, c)) = p
parent_or _ = 0

refs-IsTree : IsTree numbers refs
refs-IsTree zero parent key c h = cc
refs-IsTree (suc zero) parent key c h =
    let e : 0 ≡ parent = ap parent_or h in
    subst (λ p. (p < 1) × (get_elem? refs p ≢ none)) e (omega arith, λ h. cc)
refs-IsTree (suc (suc zero)) parent key c h =
    let e : 1 ≡ parent = ap parent_or h in
    subst (λ p. (p < 2) × (get_elem? refs p ≢ none)) e (omega arith, λ h. cc)
refs-IsTree (suc (suc (suc h'))) parent key c h = cc

name_runs : compose_container_eval_name numbers 4 refs 2 ≡ ok (codes "p[1]")
unfolding compose_container_eval_name
name_runs = refl

compose_container_eval_name-IsPath_example :
    (keys : List Text) × IsPath numbers refs (some 2) keys
    × (compose_container_eval_name numbers (2 + 2) refs 2 ≡ ok (path_name keys))
compose_container_eval_name-IsPath_example =
    compose_container_eval_name-IsPath numbers refs 2 refs-IsTree (λ h. cc)

abbrev settings : Settings
settings = record {
  deref_pointers = true;
  max_summary_length = 3;
  supports_memory_references = some true;
}

-- nothing is cancelled, and the time is up when one looks for the third time
abbrev clock : Clock
clock = record { is_cancelled = λ n. false; timed_out = λ n. ltb 1 n }

summary_runs : get_container_summary numbers settings clock 1 false ≡ codes "{x:7, ...}"
unfolding get_container_summary starts_with
summary_runs = refl

get_container_summary_lem_example :
    (k : ℕ) × ((k ≤ 2)
      × ((j : ℕ)
          → j < k
          → should_stop settings clock false
              (0 + j)
              (codes "{" ++ joined (items numbers settings clock false j (2 ∷ 3 ∷ [])))
            ≡ false)
      × (k < 2
          → should_stop settings clock false
              (0 + k)
              (codes "{" ++ joined (items numbers settings clock false k (2 ∷ 3 ∷ [])))
            ≡ true))
    × (get_container_summary numbers settings clock 1 false
        ≡ braced (
            joined (
              items numbers settings clock false k (2 ∷ 3 ∷ [])
              ++ cut numbers settings clock false k (2 ∷ 3 ∷ []))))
get_container_summary_lem_example = get_container_summary_lem numbers settings clock false 1

abbrev length_or : Option Text → ℕ
length_or none = 0
length_or (some x) = length x

second_short : (x : Text) → item numbers 2 ≡ some x → length x ≤ 5
unfolding item starts_with
second_short x h = let e : 3 ≡ length x = ap length_or h in omega (arith, e)

third_short : (x : Text) → item numbers 3 ≡ some x → length x ≤ 5
unfolding item starts_with
third_short x h = let e : 1 ≡ length x = ap length_or h in omega (arith, e)

get_container_summary-le_example :
    length (get_container_summary numbers settings clock 1 false) ≤ 3 + (5 + 8)
get_container_summary-le_example =
    get_container_summary-le numbers settings clock 5 1 (second_short, (third_short, tt))

abbrev view : View numbers
view = record {
  settings = settings;
  global_format = true;
  clock = clock;
  summary_clock = λ n. clock;
}

abbrev start : Expansion numbers
start = record { var_refs = refs; console = [] }

clear_before : (j : ℕ) → j < 2 → stops numbers view [] (some 0) true j ≡ false
clear_before j lt = let early : ltb 1 j ≡ false = ground arith in early

convert_scope_values_lem_example :
    (convert_scope_values numbers view (1 ∷ 2 ∷ 4 ∷ []) [] (some 0) true start).0
    ≡ ended numbers view []
        (some 0)
        true
        0
        2
        []
        (variables_from numbers view [] (some 0) true 0 refs (1 ∷ 2 ∷ 4 ∷ []))
convert_scope_values_lem_example =
    convert_scope_values_lem numbers view [] (some 0) true (1 ∷ 2 ∷ 4 ∷ []) start 2 (omega arith)
      clear_before (λ lt. refl)

convert_scope_values_unique_example :
    (out : List Variable) × ((convert_scope_values numbers view
        (2 ∷ 4 ∷ [])
        []
        (some 0)
        true
        start).0
      ≡ ok out)
    × ((n : Text)
        → (find_name n out
            ≡ last_or none n (variables_from numbers view [] (some 0) true 0 refs (2 ∷ 4 ∷ [])))
          × (count_name n out ≤ 1))
convert_scope_values_unique_example =
    convert_scope_values_unique numbers view [] (some 0) (2 ∷ 4 ∷ []) start clear_before
