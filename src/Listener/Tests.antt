-- ===== src/Listener/Tests.antt =====
-- Events that are numbers, and an instance.
use vscode_lldb.Common.{ℕ, ◌≡◌, false, some, List, [], ◌∷◌, ◌++◌}
use vscode_lldb.Listener.{
  sent_ok, Polling, handle_round, cork, uncork, Step, wait_for_event, round, step, run,
}
use vscode_lldb.Listener.Corked.{with_event, cork-drops}

abbrev idle : Polling ℕ
idle = record {
  state = record { corked = false; was_corked = false };
  event = some 1;
  sent = 0 ∷ [];
  ended = false;
}

abbrev corked_steps : List (Step ℕ)
corked_steps = round false sent_ok ∷ wait_for_event (some 2) ∷ round false sent_ok ∷ []

abbrev uncorked : Polling ℕ
uncorked = step ℕ (wait_for_event (some 3)) (uncork ℕ (run ℕ corked_steps (cork ℕ idle)))

cork-drops_example :
    ((handle_round ℕ false sent_ok uncorked).sent ≡ 0 ∷ [])
    × ((x : ℕ) → uncorked.ended ≡ false → with_event ℕ sent_ok x uncorked ≡ (0 ∷ []) ++ x ∷ [])
cork-drops_example = cork-drops ℕ corked_steps (some 3) false sent_ok idle
