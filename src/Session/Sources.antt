-- ===== src/Session/Sources.antt =====
-- `map_filespec_to_local`, which finds a source file and remembers what it has found. The file system
-- and `normalize_path` are the parameter `FileApi`.
use vscode_lldb.Common.{Bool, true, false, Option, none, some, if◌then◌else◌}
use vscode_lldb.Common.Map.{Map, get, insert, Text_eq}
use vscode_lldb.Common.Text.{Text}

pub record FileApi : Type 0 where
  pub is_relative : Text → Bool
  -- a base and a relative path
  pub join : Text → Text → Text
  pub normalize_path : Text → Text
  pub get_fs_path_case : Text → Option Text
  pub is_file : Text → Bool

pub record FileSpec : Type 0 where
  pub is_valid : Bool
  pub path : Text

pub record Sources : Type 0 where
  pub source_map_cache : Map Text (Option Text)
  pub relative_path_base : Text
  pub suppress_missing_files : Bool

abbrev ensure_absolute_path : FileApi → Sources → Text → Text
ensure_absolute_path files s path =
    if files.is_relative path then files.join s.relative_path_base path else path

abbrev or_missing : Sources → Text → Option Text
or_missing s path = if s.suppress_missing_files then none else some path

abbrev existing_file : FileApi → Sources → Text → Option Text → Option Text
existing_file files s path none = or_missing s path
existing_file files s path (some found) =
    if files.is_file found then some found else or_missing s path

-- what the file system has under a path of the debug information
abbrev pub probe : FileApi → Sources → Text → Option Text
probe files s source_path =
    let path = files.normalize_path (ensure_absolute_path files s source_path) in
    existing_file files s path (files.get_fs_path_case path)

abbrev remember : FileApi → Text → Option (Option Text) → Sources → Option Text × Sources
remember files source_path (some mapped_path) s = (mapped_path, s)
remember files source_path none s = (
  probe files s source_path,
  record s { source_map_cache = insert source_path (probe files s source_path) s.source_map_cache },
)

unfoldable pub map_filespec_to_local : FileApi → FileSpec → Sources → Option Text × Sources
map_filespec_to_local files filespec s =
    if filespec.is_valid
    then remember files filespec.path (get filespec.path s.source_map_cache) s
    else (none, s)

pub data ShowDisassembly : Type 0 where
  always auto never : ShowDisassembly

abbrev is_none : Option Text → Bool
is_none none = true
is_none (some _) = false

-- whether a frame with this file in its line entry is shown as disassembly
unfoldable pub in_disassembly :
    FileApi → ShowDisassembly → Option FileSpec → Sources → Bool × Sources
unfolding map_filespec_to_local
in_disassembly files always line_entry s = (true, s)
in_disassembly files never line_entry s = (false, s)
in_disassembly files auto none s = (true, s)
in_disassembly files auto (some file_spec) s =
    let (mapped, s') = map_filespec_to_local files file_spec s in (is_none mapped, s')
