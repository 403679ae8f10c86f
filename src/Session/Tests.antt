-- ===== src/Session/Tests.antt =====
-- A filter that starts empty, a process of a hundred bytes, and instances.
use vscode_lldb.Common.{
  ℕ, zero, suc, ◌^◌, ◌≤◌, ◌<◌, ◌≡◌, ◌⊎◌, refl, true, Option, none, some, List, [], ◌∷◌, arith, ltb,
  if◌then◌else◌, length,
}
use vscode_lldb.Common.Int.{pos, ◌+ℤ◌, wrap_i64}
use vscode_lldb.Common.Map.{get, insert, nat_eq}
use vscode_lldb.Common.Outcome.{ok}
use vscode_lldb.Common.Text.{codes}
use vscode_lldb.Cancellation.{operate}
use vscode_lldb.Session.Filter.{
  cancel, variables, evaluate, continue_, FilterState, request, receiver_cloned, receive, dispatch,
  is_cancellable, is_cancelling, send_all, modify, retain_pending, retain_held, filter_step,
  filter_all,
}
use vscode_lldb.Session.Tokens.{is_flagged}
use vscode_lldb.Session.Cancelling.{variables_query, by_continue, resuming_cancels}
use vscode_lldb.Session.CancelRequest.{cancel_request_cancels}
use vscode_lldb.Session.Memory.{
  RegionInfo, MemoryApi, ReadMemoryArguments, ReadMemoryResponseBody, WriteMemoryArguments,
  handle_read_memory, handle_write_memory,
}
use vscode_lldb.Session.Memory.Access.{IsSound, AccountsFor, handle_read_memory_lem}
use vscode_lldb.Session.Memory.Writes.{Tried, NotTried, handle_write_memory_lem}

abbrev empty_filter : FilterState
empty_filter = record {
  tokens = [];
  pending_requests = [];
  cancellable_requests = [];
  forwarded = [];
}

resuming_cancels_example :
    ((receive 1 variables empty_filter).forwarded ≡ (1, variables, 0) ∷ [])
    × (is_flagged
          (receive 2 continue_
            (filter_all (receiver_cloned 0 ∷ []) (receive 1 variables empty_filter))).tokens
          0
        ≡ true)
unfolding receive dispatch is_cancellable is_cancelling send_all modify retain_pending retain_held
    filter_step operate insert get
resuming_cancels_example =
    resuming_cancels 1 2 variables continue_ empty_filter (receiver_cloned 0 ∷ []) variables_query
      by_continue (refl, refl)

cancel_request_cancels_example :
    ((receive 3 evaluate empty_filter).forwarded ≡ (3, evaluate, 0) ∷ [])
    × (is_flagged
          (receive 5
            (cancel (some (pos 3)))
            (filter_all (request 4 (cancel none) ∷ []) (receive 3 evaluate empty_filter))).tokens
          0
        ≡ true)
unfolding receive dispatch is_cancellable is_cancelling send_all modify retain_pending retain_held
    filter_step operate insert get
cancel_request_cancels_example =
    cancel_request_cancels evaluate empty_filter (request 4 (cancel none) ∷ []) 5 (pos 3) tt
      (tt, tt) (refl, refl)

-- at most one byte at a time
abbrev reading : ℕ → Option (List ℕ)
reading zero = some []
reading (suc n) = some (7 ∷ [])

length-reading : (n : ℕ) (bytes : List ℕ) → reading n ≡ some bytes → length bytes ≤ n
length-reading zero bytes h = ground (arith, h)
length-reading (suc n) bytes h = ground (arith, h)

abbrev region : RegionInfo
region = record { is_readable = true; is_writable = true; region_end = 100 }

abbrev hundred : MemoryApi
hundred = record {
  SBProcess = List ℕ;
  memory_region_info = λ address p. if ltb address 100 then some region else none;
  read_memory = λ address n p. reading n;
  write_memory = λ address bytes p. (some (length bytes), bytes);
  parse_i64 = λ s. some (pos 98);
  encode = λ bytes. bytes;
  decode = λ s. some s;
}

hundred-IsSound : (p : List ℕ) → IsSound hundred p
hundred-IsSound p = record {
  reads_at_most = λ address n bytes h. length-reading n bytes h;
  region_contains = λ address r h. inside address r h;
}
  where
    inside :
        (address : ℕ) (r : RegionInfo)
        → (if ltb address 100 then some region else none) ≡ some r
        → (address < r.region_end) × (r.region_end < 2 ^ 64)
    inside address r h = ground (arith, h)

abbrev read_arguments : ReadMemoryArguments
read_arguments = record { memory_reference = codes "98"; offset = some (pos 1); count = pos 4 }

handle_read_memory_lem_example :
    (r : ReadMemoryResponseBody) × (handle_read_memory hundred read_arguments [] ≡ ok r)
    × AccountsFor hundred 4 99 [] r
unfolding wrap_i64 ◌+ℤ◌
handle_read_memory_lem_example =
    handle_read_memory_lem hundred read_arguments (pos 98) 4 [] (hundred-IsSound []) refl refl
      (omega arith)

abbrev write_arguments : WriteMemoryArguments
write_arguments = record {
  memory_reference = codes "98";
  offset = some (pos 1);
  bytes = 1 ∷ 2 ∷ [];
  allow_partial = some true;
}

handle_write_memory_lem_example :
    Tried hundred true
      (1 ∷ 2 ∷ [])
      99
      []
      (handle_write_memory hundred write_arguments []).0
      (handle_write_memory hundred write_arguments []).1
    ⊎ NotTried hundred true
        (1 ∷ 2 ∷ [])
        99
        []
        (handle_write_memory hundred write_arguments []).0
        (handle_write_memory hundred write_arguments []).1
unfolding wrap_i64 ◌+ℤ◌
handle_write_memory_lem_example =
    handle_write_memory_lem hundred write_arguments (pos 98) (1 ∷ 2 ∷ []) [] (hundred-IsSound [])
      refl refl
