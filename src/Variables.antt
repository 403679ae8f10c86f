-- ===== src/Variables.antt =====
-- src/codelldb/src/debug_session/variables.rs: scopes, variables and their summaries, and the evaluation
-- of expressions. Texts are here the lists of their bytes. Values and frames of liblldb, and the tree
-- of handles, are the parameter `VariableApi`.
pub mod Names
pub mod Path
pub mod Summary
pub mod Limit
pub mod Variable
pub mod Scope
pub mod Dedup
pub mod Expansion
pub mod Evaluate
pub mod SetVariable
pub mod Answers
mod Tests
use vscode_lldb.Common.{
  ℕ, ◌≡◌, Bool, true, false, ◌&&◌, ◌||◌, not, Option, none, some, List, [], ◌∷◌, ◌++◌, ◌==◌,
  if◌then◌else◌, ltb,
}
use vscode_lldb.Common.Text.{Text, codes, hex, starts_with}

pub data BasicType : Type 0 where
  invalid_type void char signed_char unsigned_char w_char signed_w_char unsigned_w_char char_16
        char_32 :
      BasicType
  short unsigned_short int unsigned_int long unsigned_long long_long unsigned_long_long int_128
        unsigned_int_128 :
      BasicType
  bool half float double long_double other_type : BasicType

pub data ValueType : Type 0 where
  global_value static_value register_value register_set other_value : ValueType

-- what a handle stands for
pub data Container (SBFrame SBValue : Type 0) : Type 0 where
  stack_frame locals statics globals registers : SBFrame → Container SBFrame SBValue
  sb_value : SBValue → Container SBFrame SBValue

pub record VariableApi : Type 1 where
  pub SBFrame : Type 0
  pub SBValue : Type 0
  pub Format : Type 0
  pub default_format : Format
  pub is_default : Format → Bool
  -- the tree of handles: parent, key and container of a handle
  pub VarRefs : Type 0
  pub create : Option ℕ → Text → Container SBFrame SBValue → VarRefs → ℕ × VarRefs
  pub get_container : ℕ → VarRefs → Option (Container SBFrame SBValue)
  pub get_full_info : ℕ → VarRefs → Option (Option ℕ × Text × Container SBFrame SBValue)
  -- values; `set_format` gives the value that has the format
  pub set_format : Format → SBValue → SBValue
  pub format : SBValue → Format
  pub name : SBValue → Option Text
  pub display_type_name : SBValue → Option Text
  pub type_name : SBValue → Option Text
  pub error : SBValue → Option Text
  pub basic_type : SBValue → BasicType
  pub value_type : SBValue → ValueType
  pub is_pointer_or_reference : SBValue → Bool
  pub is_pointer_type : SBValue → Bool
  -- of the type that a pointer or reference points to
  pub pointee_basic_type : SBValue → BasicType
  pub pointee_is_pointer_or_reference : SBValue → Bool
  -- bytes up to a NUL; not always UTF-8
  pub summary : SBValue → Option (List ℕ)
  pub value : SBValue → Option (List ℕ)
  pub lossy : List ℕ → Text
  pub to_str : List ℕ → Option Text
  pub might_have_children : SBValue → Bool
  pub children : SBValue → List SBValue
  pub num_children : SBValue → ℕ
  pub is_synthetic : SBValue → Bool
  pub non_synthetic_value : SBValue → SBValue
  pub prefer_synthetic_value : SBValue → Bool
  pub expression_path : SBValue → Option Text
  pub value_as_unsigned : SBValue → ℕ
  pub load_address : SBValue → ℕ
  pub dereference : SBValue → SBValue
  pub is_valid : SBValue → Bool
  pub data_byte_size : SBValue → ℕ
  -- `frame.variables`: arguments, locals, statics, and of these those in scope
  pub variables : Bool → Bool → Bool → Bool → SBFrame → List SBValue
  pub frame_registers : SBFrame → List SBValue
  pub stop_return_value : SBFrame → Option SBValue
  -- whether one byte can be read at an address
  pub reads_one_byte : ℕ → Bool
