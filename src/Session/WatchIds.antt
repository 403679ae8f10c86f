-- ===== src/Session/WatchIds.antt =====
-- The identifiers of data breakpoints are read as they have been written.
use vscode_lldb.Common.{
  ℕ, ◌^◌, ◌<◌, ◌≡◌, ◌⊎◌, inr, refl, ap, Bool, true, false, Option, none, some, [], ◌∷◌, ◌++◌, ◌==◌,
  arith, All,
}
use vscode_lldb.Common.Outcome.{ok}
use vscode_lldb.Common.Text.{Text, decimal}
use vscode_lldb.Common.Decimal.{is_digit, parse_u64-decimal, IsDigits-decimal}
use vscode_lldb.Session.Watch.{
  Value, WatchApi, DataBreakpointInfoArguments, DataBreakpointInfoResponseBody,
  DataBreakpointAccessType, invalid_address, data_id_of, size_or, frame_of, sized, named, name_or,
  until_slash, after_slash, read_data_id, reads, writes, watch_body, handle_data_breakpoint_info,
  set_watchpoints, handle_set_data_breakpoints,
}

until_slash-digits :
    (s rest : Text) → All (λ c. is_digit c ≡ true) s → until_slash (s ++ b'/' ∷ rest) ≡ s
unfolding until_slash
until_slash-digits [] rest h = refl
until_slash-digits (c ∷ s) rest h =
    let no_slash : (c == b'/') ≡ false = ground (arith, h.0) in
    rw no_slash (ap (λ t. c ∷ t) (until_slash-digits s rest h.1))

until_slash-all : (s : Text) → All (λ c. is_digit c ≡ true) s → until_slash s ≡ s
unfolding until_slash
until_slash-all [] h = refl
until_slash-all (c ∷ s) h =
    let no_slash : (c == b'/') ≡ false = ground (arith, h.0) in
    rw no_slash (ap (λ t. c ∷ t) (until_slash-all s h.1))

after_slash-digits :
    (s rest : Text) → All (λ c. is_digit c ≡ true) s → after_slash (s ++ b'/' ∷ rest) ≡ some rest
unfolding after_slash
after_slash-digits [] rest h = refl
after_slash-digits (c ∷ s) rest h =
    let no_slash : (c == b'/') ≡ false = ground (arith, h.0) in
    rw no_slash (after_slash-digits s rest h.1)

module _ (api : WatchApi) where
  read-data_id_of :
      (addr size : ℕ)
      → addr < 2 ^ 64
      → size < 2 ^ 64
      → read_data_id api (data_id_of addr size) ≡ ok (addr, size)
  unfolding read_data_id
  read-data_id_of addr size a s =
      rw
        (
          until_slash-digits (decimal addr) (decimal size) (IsDigits-decimal addr),
          parse_u64-decimal addr a,
          after_slash-digits (decimal addr) (decimal size) (IsDigits-decimal addr),
          until_slash-all (decimal size) (IsDigits-decimal size),
          parse_u64-decimal size s,
        )
        refl

  -- what is watched of a target from which the earlier watchpoints have been deleted
  abbrev pub watched :
      ℕ → ℕ → Option DataBreakpointAccessType → api.SBTarget → (Text ⊎ ℕ) × api.SBTarget
  watched addr size access t =
      api.watch_address addr size (reads api access) (writes api access)
        (api.delete_all_watchpoints t)

  one_watched :
      (id : Text) (addr size : ℕ) (access : Option DataBreakpointAccessType) (t : api.SBTarget)
      → read_data_id api id ≡ ok (addr, size)
      → handle_set_data_breakpoints api ((record { data_id = id; access_type = access }) ∷ []) t ≡ (
        ok (watch_body api access (watched addr size access t).0 ∷ []),
        (watched addr size access t).1,
      )
  unfolding handle_set_data_breakpoints set_watchpoints
  one_watched id addr size access t h = rw (h, set_watchpoints) refl

  -- If an expression has a value with an address, the information about a data breakpoint on it has
  -- a data id; a data breakpoint that is set with that id watches the bytes at the value's address, as
  -- many as the client has asked for or as the value has, for the access asked for.
  pub data_id_watches :
      (changed : Bool) (args : DataBreakpointInfoArguments) (v : Value)
      (access : Option DataBreakpointAccessType) (t : api.SBTarget)
      → args.variables_reference ≡ none
      → args.as_address ≡ none
      → api.evaluate args.name (frame_of api changed args.frame_id) ≡ inr v
      → v.load_address < invalid_address
      → size_or v.byte_size args.bytes < 2 ^ 64
      → (body : DataBreakpointInfoResponseBody) × (id : Text) × (handle_data_breakpoint_info api
            changed args
          ≡ ok body)
        × (body.data_id ≡ some id)
        × (handle_set_data_breakpoints api ((record { data_id = id; access_type = access }) ∷ []) t
            ≡ (
              ok (
                  watch_body api access
                    (watched v.load_address (size_or v.byte_size args.bytes) access t).0
                  ∷ []),
              (watched v.load_address (size_or v.byte_size args.bytes) access t).1,
            ))
  unfolding handle_data_breakpoint_info
  data_id_watches changed args v access t no_reference no_address valued addressed fits =
      let size : ℕ = size_or v.byte_size args.bytes in
      let has_address : (v.load_address == invalid_address) ≡ false = ground arith in
      (
        sized api v.load_address size (named api (name_or api args.name v.name)),
        data_id_of v.load_address size,
        rw (no_reference, no_address, valued, has_address) refl,
        refl,
        one_watched (data_id_of v.load_address size) v.load_address size access t
            (read-data_id_of v.load_address size (omega (arith, addressed)) fits),
      )
