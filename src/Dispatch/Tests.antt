-- ===== src/Dispatch/Tests.antt =====
-- A session that answers `threads` at once and everything else by a task, and an instance.
use vscode_lldb.Common.{ℕ, ◌+◌, ◌≡◌, true, false, List, [], ◌∷◌}
use vscode_lldb.Common.Text.{Text, codes}
use vscode_lldb.Errors.{async_response, Result, ok, err}
use vscode_lldb.Dispatch.{
  Command, threads, launch, modules, Handlers, Dispatcher, Step, on_request, on_completion, run,
}
use vscode_lldb.Dispatch.Answers.{answered, waiting, asked, run-known}

abbrev answer : Command → ℕ → Result ℕ Text × ℕ
answer threads s = (ok (codes "none"), s)
answer _ s = (err (async_response s), s + 1)

abbrev counting : Handlers
counting = record {
  Session = ℕ;
  Future = ℕ;
  ResponseBody = Text;
  no_debug = λ s. false;
  handle = answer;
  json_error = λ c. [];
}

abbrev fresh : Dispatcher counting
fresh = record { session = 0; responses = []; tasks = [] }

abbrev steps : List (Step counting)
steps =
    on_request 1 (launch true) false
    ∷ on_request 2 threads false
    ∷ on_request 3 modules false
    ∷ on_completion 1 (ok (codes "m"))
    ∷ on_request 4 threads true
    ∷ []

run-known_example :
    answered counting 3 (run counting steps fresh).responses
      + waiting counting 3 (run counting steps fresh).tasks
    ≡ asked counting 3 steps + (0 + 0)
run-known_example = run-known counting 3 steps fresh
