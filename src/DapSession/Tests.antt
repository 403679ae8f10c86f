-- ===== src/DapSession/Tests.antt =====
-- Runs and instances.
use vscode_lldb.Common.{ℕ, ◌≡◌, refl, true, none, some, List, [], ◌∷◌, ◌++◌, arith}
use vscode_lldb.Common.Map.{get, nat_eq}
use vscode_lldb.DapSession.{
  Payloads, success, request, event, Step, Dispatcher, message, malformed, incoming, outgoing, new,
  step, run,
}
use vscode_lldb.DapSession.Numbering.{IsWellFormed, run-IsWellFormed}
use vscode_lldb.DapSession.Pending.{requested, response_to, request_is_answered}

abbrev numbers : Payloads
numbers = record { RequestArguments = ℕ; EventBody = ℕ; ResponseBody = ℕ; Requestor = ℕ }

-- an event out, a request in, an unparsable frame
abbrev steps : List (Step numbers)
steps =
    outgoing (event 7) none
    ∷ incoming (message (record { seq = 5; type_ = request 8 }))
    ∷ incoming (malformed (some 6))
    ∷ []

new-IsWellFormed : IsWellFormed numbers (new numbers)
unfolding get
new-IsWellFormed = record { numbered = tt; counted = refl; given_out = λ n r h. ground (arith, h) }

run-IsWellFormed_example : IsWellFormed numbers (run numbers steps (new numbers))
run-IsWellFormed_example =
    run-IsWellFormed numbers steps (new numbers) (omega arith) new-IsWellFormed

-- the session as its request 1 leaves it, and as the steps leave that
abbrev asked : Dispatcher numbers
asked = requested numbers (new numbers) 9 3

request_is_answered_example :
    (asked.sent ≡ (record { seq = 1; type_ = request 9 }) ∷ [])
    × ((step numbers (response_to numbers 6 1 true (success 4)) (run numbers steps asked)).delivered
        ≡ (run numbers steps asked).delivered ++ (3, success 4) ∷ [])
    × (get 1
          (step numbers
            (response_to numbers 6 1 true (success 4))
            (run numbers steps asked)).pending_requests
        ≡ none)
request_is_answered_example =
    request_is_answered numbers (new numbers) 9 3 steps 6 true (success 4) refl new-IsWellFormed
      (omega arith) (tt, (tt, (tt, tt)))
