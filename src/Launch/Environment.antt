-- ===== src/Launch/Environment.antt =====
-- `make_env_key_folder`, and the environment that `complete_launch` composes. The upper case of a
-- text is the parameter `to_uppercase`, and an environment of liblldb the parameter `EnvironmentApi`.
use vscode_lldb.Common.{Bool, true, false, Option, none, some, List, [], ◌∷◌, ◌++◌, if◌then◌else◌}
use vscode_lldb.Common.Map.{Map, get, insert, Text_eq}
use vscode_lldb.Common.Text.{Text, codes, str_contains}

pub record EnvironmentApi : Type 1 where
  pub SBEnvironment : Type 0
  pub new : SBEnvironment
  -- the flag asks to overwrite
  pub set_env : Text → Text → Bool → SBEnvironment → SBEnvironment
  pub get_env : Text → SBEnvironment → Option Text

-- what there is at the path of the file with the environment: an error of the file system, or the
-- entries that the library `dotenvy` reads, of which one may be an error
pub data EnvFile : Type 0 where
  unreadable : Text → EnvFile
  entries : List (Option Text × Text × Text) → EnvFile

module _ (to_uppercase : Text → Text) where
  abbrev pub fold_found : Option Text → Text → Map Text Text → Text × Map Text Text
  fold_found (some first) k case_map = (first, case_map)
  fold_found none k case_map = (k, insert (to_uppercase k) k case_map)

  -- The first spelling of a key stands for all of them, if case is to be ignored.
  unfoldable pub fold_key : Bool → Text → Map Text Text → Text × Map Text Text
  unfolding get insert
  fold_key true k case_map = fold_found (get (to_uppercase k) case_map) k case_map
  fold_key false k case_map = (k, case_map)

  module _ (api : EnvironmentApi) where
    abbrev pub Env : Type 0
    Env = Map Text Text × api.SBEnvironment

    unfoldable pub set_all : Bool → List (Text × Text) → Env → Env
    unfolding fold_key
    set_all ignore_case [] e = e
    set_all ignore_case ((k, v) ∷ rest) e =
        let folded = fold_key ignore_case k e.0 in
        set_all ignore_case rest (folded.1, api.set_env folded.0 v true e.1)

    -- Entries are set up to the first that cannot be read.
    unfoldable pub set_entries : Bool → List (Option Text × Text × Text) → Env → Option Text × Env
    unfolding fold_key
    set_entries ignore_case [] e = (none, e)
    set_entries ignore_case ((some error, k, v) ∷ rest) e = (some error, e)
    set_entries ignore_case ((none, k, v) ∷ rest) e =
        let folded = fold_key ignore_case k e.0 in
        set_entries ignore_case rest (folded.1, api.set_env folded.0 v true e.1)

    abbrev from_file : Bool → Option (Text × EnvFile) → Env → Option Text × Env × List Text
    from_file ignore_case none e = (none, e, [])
    from_file ignore_case (some (path, unreadable error)) e =
        (none, e, (codes "Could not read " ++ path ++ codes ": " ++ error) ∷ [])
    from_file ignore_case (some (path, entries items)) e =
        let read = set_entries ignore_case items e in (read.0, read.1, [])

    abbrev from_config :
        Bool
        → Option (List (Text × Text))
        → Option Text × Env × List Text
        → Option Text × Env × List Text
    from_config ignore_case (some pairs) (none, e, console) =
        (none, set_all ignore_case pairs e, console)
    from_config ignore_case _ result = result

    -- the error, the environment, and what is said on the console
    unfoldable pub launch_env :
        Text
        → Bool
        → api.SBEnvironment
        → Option (Text × EnvFile)
        → Option (List (Text × Text))
        → Option Text × Env × List Text
    unfolding set_all set_entries str_contains
    launch_env triple inherit_env platform env_file env =
        let ignore_case = str_contains (codes "windows") triple in
        from_config ignore_case env
          (from_file ignore_case env_file ([], if inherit_env then platform else api.new))
