-- ===== src/Variables/Summary.antt =====
-- `get_var_summary`, `try_deref_pointer` and `get_container_summary`: the text that stands for a value.
use vscode_lldb.Common.{
  ℕ, suc, Bool, true, false, ◌&&◌, ◌||◌, not, Option, none, some, List, [], ◌∷◌, ◌++◌, length, ◌==◌,
  ltb, leb, if◌then◌else◌,
}
use vscode_lldb.Common.Text.{Text, codes, starts_with}
use vscode_lldb.Variables.{BasicType, invalid_type, void, VariableApi}

-- What the adapter has seen when it looks for the n-th time during one expansion: whether the
-- request is cancelled, and whether the time is up.
pub record Clock : Type 0 where
  pub is_cancelled : ℕ → Bool
  pub timed_out : ℕ → Bool

-- the settings that the texts depend on
pub record Settings : Type 0 where
  pub deref_pointers : Bool
  pub max_summary_length : ℕ
  pub supports_memory_references : Option Bool

abbrev pub is_void : BasicType → Bool
is_void void = true
is_void _ = false

abbrev pub is_invalid : BasicType → Bool
is_invalid invalid_type = true
is_invalid _ = false

abbrev or_else {ℓ} : {A : Type ℓ} → Option A → Option A → Option A
or_else (some a) b = some a
or_else none b = b

unfoldable pub should_stop : Settings → Clock → Bool → ℕ → Text → Bool
should_stop s clock unlimited i summary =
    clock.is_cancelled i
    || (not unlimited && (ltb s.max_summary_length (length summary) || clock.timed_out i))

-- What a container's summary says of a child with this name and this text.
unfoldable pub item_text : Option Text → Option Text → Option Text
unfolding starts_with
item_text (some name) (some value) =
    some (if starts_with (codes "[") name then value else name ++ b':' ∷ value)
item_text _ _ = none

unfoldable pub close : Text → Text
close summary = (if leb (length summary) 1 then summary ++ codes "..." else summary) ++ codes "}"

module _ (api : VariableApi) where
  abbrev pub to_str? : Option (List ℕ) → Option Text
  to_str? none = none
  to_str? (some s) = api.to_str s

  unfoldable pub item : api.SBValue → Option Text
  unfolding item_text
  item child = item_text (api.name child) (to_str? (or_else (api.summary child) (api.value child)))

  -- One child is written behind what is there already; the separator changes with the first.
  abbrev pub write_item : Text → Text → Option Text → Text × Text
  write_item summary sep none = (summary, sep)
  write_item summary sep (some text) = (summary ++ (sep ++ text), codes ", ")

  unfoldable pub write_children :
      Settings → Clock → Bool → ℕ → Text → Text → List api.SBValue → Text
  unfolding should_stop item
  write_children s clock unlimited i summary sep [] = summary
  write_children s clock unlimited i summary sep (child ∷ children) =
      let written = write_item summary sep (item child) in
      let rest = write_children s clock unlimited (suc i) written.0 written.1 children in
      if should_stop s clock unlimited i summary then summary ++ (sep ++ codes "...") else rest

  unfoldable pub get_container_summary : Settings → Clock → api.SBValue → Bool → Text
  unfolding write_children close
  get_container_summary s clock var unlimited =
      close (write_children s clock unlimited 0 (codes "{") [] (api.children var))

  -- What dereferencing gives: a text, a value to show instead, or neither.
  pub data Deref : Type 0 where
    first : Text → Deref
    second : Option api.SBValue → Deref

  abbrev pub invalid_address : Text
  invalid_address = codes "<invalid address>"

  abbrev pub or_pointee : Option (List ℕ) → api.SBValue → Deref
  or_pointee (some value) pointee = first (b'{' ∷ (api.lossy value ++ codes "}"))
  or_pointee none pointee = second (some pointee)

  unfoldable pub deref_target : api.SBValue → Deref
  deref_target ptr =
      let pointee = api.dereference ptr in
      if api.value_as_unsigned ptr == 0
      then first (codes "<null>")
      else if api.is_valid pointee
      then if ltb 0 (api.data_byte_size pointee)
        then if api.pointee_is_pointer_or_reference ptr
          then or_pointee (api.value pointee) pointee
          else second (some pointee)
        else first invalid_address
      else if api.reads_one_byte (api.value_as_unsigned ptr)
      then second none
      else first invalid_address

  abbrev pub or_deref : Option (List ℕ) → api.SBValue → Deref
  or_deref (some summary) ptr = first (api.lossy summary)
  or_deref none ptr = deref_target ptr

  unfoldable pub try_deref_pointer : api.SBValue → Deref
  unfolding deref_target
  try_deref_pointer ptr =
      if api.is_synthetic ptr || not (is_invalid (api.pointee_basic_type ptr))
      then or_deref (api.summary ptr) ptr
      else deref_target ptr

  abbrev pub own_summary :
      Settings → Clock → api.SBValue → Bool → Option (List ℕ) → Option (List ℕ) → Text
  own_summary s clock var unlimited (some summary) value = api.lossy summary
  own_summary s clock var unlimited none (some value) = api.lossy value
  own_summary s clock var unlimited none none =
      if api.might_have_children var && ltb 0 (api.num_children var)
      then get_container_summary s clock var unlimited
      else codes "<not available>"

  unfoldable pub value_summary : Settings → Clock → api.SBValue → Bool → Text
  unfolding get_container_summary
  value_summary s clock var unlimited =
      own_summary s clock var unlimited (api.summary var) (api.value var)

  abbrev pub with_deref : Settings → Clock → api.SBValue → Bool → Deref → Text
  with_deref s clock var unlimited (first summary) = summary
  with_deref s clock var unlimited (second (some pointee)) = value_summary s clock pointee unlimited
  with_deref s clock var unlimited (second none) = value_summary s clock var unlimited

  abbrev pub without_error : Settings → Clock → api.SBValue → Bool → Option Text → Text
  without_error s clock var unlimited (some e) = b'<' ∷ (e ++ codes ">")
  without_error s clock var unlimited none =
      if s.deref_pointers && (api.is_default (api.format var) && api.is_pointer_or_reference var)
      then with_deref s clock var unlimited (try_deref_pointer var)
      else value_summary s clock var unlimited

  unfoldable pub get_var_summary : Settings → Clock → api.SBValue → Bool → Text
  unfolding try_deref_pointer value_summary
  get_var_summary s clock var unlimited =
      if is_void (api.basic_type var)
      then codes "()"
      else without_error s clock var unlimited (api.error var)
