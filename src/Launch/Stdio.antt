-- ===== src/Launch/Stdio.antt =====
-- `configure_stdio`: which file each descriptor of the debuggee is opened from; and the device names
-- of src/codelldb/src/terminal.rs.
use vscode_lldb.Common.{
  ℕ, zero, suc, ◌+◌, ◌-◌, ◌<◌, ◌≡◌, refl, ap, ◌∙◌, Bool, true, false, not, ◌||◌, Option, none, some,
  List, [], ◌∷◌, ◌++◌, length, replicate, append-nil, get_elem?, ◌==◌, ltb, if◌then◌else◌, arith,
  Bool-cases, inl, inr, ==_iff,
}
use vscode_lldb.Common.Text.{Text, codes}

pub data StdioArg : Type 0 where
  one_file : Text → StdioArg
  files : List (Option Text) → StdioArg

-- `windows` is the platform that the adapter is built for.
pub record Terminal : Type 0 where
  pub windows : Bool
  pub tty : Option Text

abbrev pub input_devname : Terminal → Option Text
input_devname t = if t.windows then some (codes "CONIN$") else t.tty

abbrev pub output_devname : Terminal → Option Text
output_devname t = if t.windows then some (codes "CONOUT$") else t.tty

pub record OpenFileAction : Type 0 where
  pub fd : ℕ
  pub path : Text
  pub read : Bool
  pub write : Bool

unfoldable pub stdio_list : Option StdioArg → List (Option Text)
stdio_list none = []
stdio_list (some (one_file name)) = some name ∷ []
stdio_list (some (files names)) = names

-- at least three entries
unfoldable pub pad : List (Option Text) → List (Option Text)
pad stdio = stdio ++ replicate (3 - length stdio) none

abbrev pub name_of : Terminal → ℕ → Option Text → Option Text
name_of t fd (some name) = some name
name_of t fd none = if fd == 0 then input_devname t else output_devname t

abbrev action_of : ℕ → Text → Bool → Bool → OpenFileAction
action_of fd name read write = record { fd = fd; path = name; read = read; write = write }

unfoldable pub open_action : ℕ → Text → OpenFileAction
open_action fd name =
    if fd == 0
    then action_of fd name true false
    else if fd == 1
    then action_of fd name false true
    else if fd == 2
    then action_of fd name false true
    else action_of fd name true true

abbrev add_action : ℕ → Option Text → List OpenFileAction → List OpenFileAction
add_action fd none actions = actions
add_action fd (some name) actions = open_action fd name ∷ actions

abbrev open_from : Terminal → ℕ → List (Option Text) → List OpenFileAction
open_from t fd [] = []
open_from t fd (name ∷ stdio) = add_action fd (name_of t fd name) (open_from t (suc fd) stdio)

-- the actions that are added to the information of the launch
unfoldable pub configure_stdio : Option Terminal → Option StdioArg → List OpenFileAction
unfolding stdio_list pad open_action
configure_stdio none stdio = []
configure_stdio (some t) stdio = open_from t 0 (pad (stdio_list stdio))

abbrev pub actions_on : ℕ → List OpenFileAction → List OpenFileAction
actions_on fd [] = []
actions_on fd (a ∷ rest) = let more = actions_on fd rest in if a.fd == fd then a ∷ more else more

-- What is asked for a descriptor: the entry of the list, and for the first three at least a device.
abbrev pub requested : ℕ → Option (Option Text) → Option (Option Text)
requested fd (some name) = some name
requested fd none = if ltb fd 3 then some none else none

abbrev opens : ℕ → Option Text → List OpenFileAction
opens fd none = []
opens fd (some path) =
    record { fd = fd; path = path; read = not (fd == 1 || fd == 2); write = not (fd == 0) } ∷ []

-- the file of that name, or the terminal
abbrev pub opened : Terminal → ℕ → Option (Option Text) → List OpenFileAction
opened t fd none = []
opened t fd (some name) = opens fd (name_of t fd name)

open_action-flags :
    (fd : ℕ) (name : Text)
    → open_action fd name
      ≡ record { fd = fd; path = name; read = not (fd == 1 || fd == 2); write = not (fd == 0) }
unfolding open_action
open_action-flags fd name = ground arith

actions_on-add_action :
    (i fd : ℕ) (o : Option Text) (rest : List OpenFileAction)
    → actions_on fd (add_action i o rest)
      ≡ (if i == fd then opens fd o ++ actions_on fd rest else actions_on fd rest)
actions_on-add_action i fd none rest = ground arith
actions_on-add_action i fd (some path) rest = elim (Bool-cases (i == fd)) [
  | inl this ↦ let e : i ≡ fd = (==_iff i fd).0 this in rw (open_action-flags i path, this, e) refl
  | inr other ↦ rw (open_action-flags i path, other) refl
]

actions_on-add :
    (t : Terminal) (i fd : ℕ) (name : Option Text) (rest : List OpenFileAction)
    → actions_on fd (add_action i (name_of t i name) rest)
      ≡ (if i == fd then opened t fd (some name) ++ actions_on fd rest else actions_on fd rest)
actions_on-add t i fd name rest = elim (Bool-cases (i == fd)) [
  | inl this ↦
      let e : i ≡ fd = (==_iff i fd).0 this in
      actions_on-add_action i fd (name_of t i name) rest ∙ rw (this, e) refl
  | inr other ↦ actions_on-add_action i fd (name_of t i name) rest ∙ rw other refl
]

open_from-later :
    (t : Terminal) (i fd : ℕ) (stdio : List (Option Text))
    → fd < i
    → actions_on fd (open_from t i stdio) ≡ []
open_from-later t i fd [] h = refl
open_from-later t i fd (name ∷ stdio) h =
    let other : (i == fd) ≡ false = ground arith in
    actions_on-add t i fd name (open_from t (suc i) stdio)
    ∙ rw other (open_from-later t (suc i) fd stdio (omega arith))

open_from-actions :
    (t : Terminal) (i j fd : ℕ) (stdio : List (Option Text))
    → i + j ≡ fd
    → actions_on fd (open_from t i stdio) ≡ opened t fd (get_elem? stdio j)
open_from-actions t i j fd [] h = refl
open_from-actions t i zero fd (name ∷ stdio) h =
    let this : (i == fd) ≡ true = ground (arith, h) in
    actions_on-add t i fd name (open_from t (suc i) stdio)
    ∙ rw (this, open_from-later t (suc i) fd stdio (omega arith))
        (append-nil (opened t fd (some name)))
open_from-actions t i (suc j) fd (name ∷ stdio) h =
    let other : (i == fd) ≡ false = ground (arith, h) in
    actions_on-add t i fd name (open_from t (suc i) stdio)
    ∙ rw other (open_from-actions t (suc i) j fd stdio (omega arith))

abbrev padded : ℕ → ℕ → Option (Option Text) → Option (Option Text)
padded n fd (some name) = some name
padded n fd none = if ltb fd n then some none else none

no_names : ℕ → List (Option Text)
no_names n = replicate n none

get_elem?-no_names : (n fd : ℕ) → get_elem? (no_names n) fd ≡ padded n fd none
unfolding no_names
get_elem?-no_names zero fd = ground arith
get_elem?-no_names (suc n) zero = ground arith
get_elem?-no_names (suc n) (suc fd) = get_elem?-no_names n fd ∙ ground arith

padded-requested : (fd : ℕ) (o : Option (Option Text)) → padded 3 fd o ≡ requested fd o
padded-requested fd none = refl
padded-requested fd (some name) = refl

padded-suc : (n fd : ℕ) (o : Option (Option Text)) → padded (n - 1) fd o ≡ padded n (suc fd) o
padded-suc n fd none = ground arith
padded-suc n fd (some name) = refl

get_elem?-append_no_names :
    (n m fd : ℕ) (stdio : List (Option Text))
    → m ≡ n - length stdio
    → get_elem? (stdio ++ no_names m) fd ≡ padded n fd (get_elem? stdio fd)
get_elem?-append_no_names n m fd [] h =
    let all : m ≡ n = omega arith in rw all (get_elem?-no_names n fd)
get_elem?-append_no_names n m zero (name ∷ stdio) h = refl
get_elem?-append_no_names n m (suc fd) (name ∷ stdio) h =
    get_elem?-append_no_names (n - 1) m fd stdio (omega arith)
    ∙ padded-suc n fd (get_elem? stdio fd)

get_elem?-pad :
    (fd : ℕ) (stdio : List (Option Text))
    → get_elem? (pad stdio) fd ≡ requested fd (get_elem? stdio fd)
unfolding no_names pad
get_elem?-pad fd stdio =
    get_elem?-append_no_names 3 (3 - length stdio) fd stdio refl
    ∙ padded-requested fd (get_elem? stdio fd)

-- With a terminal, each descriptor is opened at most once: the first three and those that the
-- configuration lists are opened from the file that it names, or else from the device of the
-- terminal that there is, the first for reading, the next two for writing and the others for both.
pub configure_stdio_lem :
    (t : Terminal) (stdio : Option StdioArg) (fd : ℕ)
    → actions_on fd (configure_stdio (some t) stdio)
      ≡ opened t fd (requested fd (get_elem? (stdio_list stdio) fd))
unfolding configure_stdio
configure_stdio_lem t stdio fd =
    open_from-actions t 0 fd fd (pad (stdio_list stdio)) (omega arith)
    ∙ ap (opened t fd) (get_elem?-pad fd (stdio_list stdio))
