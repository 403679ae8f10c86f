-- ===== src/Session/Watch.antt =====
-- `handle_data_breakpoint_info` and `handle_set_data_breakpoints`. Values, their evaluation and the
-- watchpoints of the target are the parameter `WatchApi`.
use vscode_lldb.Common.{
  ℕ, ◌-◌, ◌^◌, ◌⊎◌, inl, inr, Bool, true, false, not, ◌||◌, Option, none, some, List, [], ◌∷◌, ◌++◌,
  ◌==◌, if◌then◌else◌,
}
use vscode_lldb.Common.Int.{ℤ, as_u64}
use vscode_lldb.Common.Outcome.{Outcome, ok, err, panic, out_of_fuel, ◌>>=◌, or_err}
use vscode_lldb.Common.Text.{Text, codes, decimal, hex}
use vscode_lldb.Common.Decimal.{parse_u64}
use vscode_lldb.Session.Running.{wpid_to_bpid}

pub record Value : Type 0 where
  pub load_address : ℕ
  pub byte_size : ℕ
  pub name : Option Text

pub record WatchApi : Type 1 where
  pub SBTarget : Type 0
  pub SBFrame : Type 0
  -- a child of a container, by the container's handle; the handle may be unknown
  pub child_of : ℕ → Text → Option (Option Value)
  -- the frame with a handle
  pub stack_frame : ℕ → Option SBFrame
  -- the selected frame of a frame's thread
  pub selected_frame : SBFrame → SBFrame
  pub evaluate : Text → Option SBFrame → Text ⊎ Value
  pub parse_int : Text → Option ℕ
  pub is_valid_address : ℕ → Bool
  pub address_byte_size : ℕ
  pub delete_all_watchpoints : SBTarget → SBTarget
  -- address, size, whether on reads, whether on writes; the identifier or an error
  pub watch_address : ℕ → ℕ → Bool → Bool → SBTarget → (Text ⊎ ℕ) × SBTarget

pub record DataBreakpointInfoArguments : Type 0 where
  pub variables_reference : Option ℕ
  pub name : Text
  pub frame_id : Option ℕ
  pub bytes : Option ℤ
  pub as_address : Option Bool

-- With a `data_id`, all three ways of access are offered.
pub record DataBreakpointInfoResponseBody : Type 0 where
  pub data_id : Option Text
  pub description : Text

pub data DataBreakpointAccessType : Type 0 where
  read write read_write : DataBreakpointAccessType

pub record DataBreakpoint : Type 0 where
  pub data_id : Text
  pub access_type : Option DataBreakpointAccessType

-- the identifier of the breakpoint, if it is verified, and the message
pub record WatchBody : Type 0 where
  pub id : Option ℕ
  pub message : Text

abbrev pub invalid_address : ℕ
invalid_address = 2 ^ 64 - 1

abbrev pub data_id_of : ℕ → ℕ → Text
data_id_of addr size = decimal addr ++ (b'/' ∷ decimal size)

abbrev pub size_or : ℕ → Option ℤ → ℕ
size_or n none = n
size_or n (some bytes) = as_u64 bytes

abbrev is_true : Option Bool → Bool
is_true none = false
is_true (some b) = b

-- the parts of a text between slashes: the first, and the second if there is one
unfoldable pub until_slash : Text → Text
until_slash [] = []
until_slash (c ∷ cs) = let rest = until_slash cs in if c == b'/' then [] else c ∷ rest

unfoldable pub after_slash : Text → Option Text
after_slash [] = none
after_slash (c ∷ cs) = let rest = after_slash cs in if c == b'/' then some cs else rest

module _ (api : WatchApi) where
  abbrev no_data : Text → DataBreakpointInfoResponseBody
  no_data description = record { data_id = none; description = description }

  abbrev pub sized : ℕ → ℕ → Text → DataBreakpointInfoResponseBody
  sized addr size tail = record {
    data_id = some (data_id_of addr size);
    description = decimal size ++ (codes " bytes at " ++ (hex true addr ++ tail));
  }

  abbrev pub named : Text → Text
  named s = codes " (" ++ (s ++ codes ")")

  abbrev pub name_or : Text → Option Text → Text
  name_or s none = s
  name_or s (some n) = n

  -- the default name, the description of a value without an address, the size asked for
  abbrev of_value : Text → Text → Option ℤ → Value → DataBreakpointInfoResponseBody
  of_value default_name homeless bytes v =
      if not (v.load_address == invalid_address)
      then sized v.load_address (size_or v.byte_size bytes) (named (name_or default_name v.name))
      else no_data homeless

  abbrev of_child : Option ℤ → Option (Option Value) → Outcome DataBreakpointInfoResponseBody
  of_child bytes none = err (codes "Invalid variables reference")
  of_child bytes (some none) = ok (no_data (codes "Variable not found."))
  of_child bytes (some (some v)) =
      ok (of_value [] (codes "This variable doesn't have an address.") bytes v)

  abbrev address_or_invalid : Option ℕ → ℕ
  address_or_invalid none = invalid_address
  address_or_invalid (some a) = a

  abbrev of_address : Option ℤ → ℕ → DataBreakpointInfoResponseBody
  of_address bytes addr =
      if (addr == invalid_address) || not (api.is_valid_address addr)
      then no_data (codes "Invalid address " ++ decimal addr)
      else sized addr (size_or api.address_byte_size bytes) []

  abbrev of_evaluated : Text → Option ℤ → Text ⊎ Value → Outcome DataBreakpointInfoResponseBody
  of_evaluated name bytes (inl e) = err e
  of_evaluated name bytes (inr v) =
      ok (of_value name (codes "This value doesn't have an address.") bytes v)

  -- After a `frame select` command the selected frame stands for that of the handle.
  abbrev current : Bool → Option api.SBFrame → Option api.SBFrame
  current selected_frame_changed none = none
  current selected_frame_changed (some frame) =
      if selected_frame_changed then some (api.selected_frame frame) else some frame

  abbrev pub frame_of : Bool → Option ℕ → Option api.SBFrame
  frame_of selected_frame_changed none = none
  frame_of selected_frame_changed (some id) = current selected_frame_changed (api.stack_frame id)

  abbrev by_reference :
      Bool → DataBreakpointInfoArguments → Option ℕ → Outcome DataBreakpointInfoResponseBody
  by_reference changed args (some reference) =
      of_child args.bytes (api.child_of reference args.name)
  by_reference changed args none =
      if is_true args.as_address
      then ok (of_address args.bytes (address_or_invalid (api.parse_int args.name)))
      else of_evaluated args.name args.bytes
          (api.evaluate args.name (frame_of changed args.frame_id))

  unfoldable pub handle_data_breakpoint_info :
      Bool → DataBreakpointInfoArguments → Outcome DataBreakpointInfoResponseBody
  handle_data_breakpoint_info selected_frame_changed args =
      by_reference selected_frame_changed args args.variables_reference

  abbrev pub reads : Option DataBreakpointAccessType → Bool
  reads (some read) = true
  reads (some read_write) = true
  reads _ = false

  abbrev pub writes : Option DataBreakpointAccessType → Bool
  writes (some read) = false
  writes _ = true

  abbrev when : Option DataBreakpointAccessType → Text
  when (some read) = codes "read"
  when (some read_write) = codes "read and write"
  when _ = codes "write"

  abbrev pub watch_body : Option DataBreakpointAccessType → Text ⊎ ℕ → WatchBody
  watch_body access (inl e) = record { id = none; message = e }
  watch_body access (inr id) = record {
    id = some (wpid_to_bpid id);
    message = codes "Break on " ++ when access;
  }

  -- the address and the size in a data id
  unfoldable pub read_data_id : Text → Outcome (ℕ × ℕ)
  unfolding until_slash after_slash
  read_data_id data_id = do
    addr ← or_err (codes "invalid digit found in string") (parse_u64 (until_slash data_id))
    rest ← or_err [] (after_slash data_id)
    size ← or_err (codes "invalid digit found in string") (parse_u64 (until_slash rest))
    ok (addr, size)

  -- An identifier that cannot be read ends the loop, with the earlier watchpoints set.
  unfoldable pub set_watchpoints :
      List DataBreakpoint → api.SBTarget → Outcome (List WatchBody) × api.SBTarget
  unfolding read_data_id
  set_watchpoints [] t = (ok [], t)
  set_watchpoints (wp ∷ wps) t = elim (read_data_id wp.data_id) [
    | ok at ↦
        let (result, t') =
          api.watch_address at.0 at.1 (reads wp.access_type) (writes wp.access_type) t in
        let (more, t'') = set_watchpoints wps t' in
        (more >>= λ bodies. ok (watch_body wp.access_type result ∷ bodies), t'')
    | err e ↦ (err e, t)
    | panic ↦ (panic, t)
    | out_of_fuel ↦ (out_of_fuel, t)
  ]

  unfoldable pub handle_set_data_breakpoints :
      List DataBreakpoint → api.SBTarget → Outcome (List WatchBody) × api.SBTarget
  unfolding set_watchpoints
  handle_set_data_breakpoints wps t = set_watchpoints wps (api.delete_all_watchpoints t)
