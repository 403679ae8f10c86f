-- ===== src/Cancellation/Tests.antt =====
-- Instances.
use vscode_lldb.Common.{◌≡◌, true, [], ◌∷◌}
use vscode_lldb.Cancellation.{
  new, subscribe, send, drop_receiver, operate, operate_all, add_callback,
}
use vscode_lldb.Cancellation.Calling.{IsIn, cancellation_calls}

cancellation_calls_example :
    IsIn 7
      (operate_all
        (drop_receiver ∷ [])
        (operate send (operate_all (subscribe ∷ []) (operate (add_callback 7) new)))).called
    × ((operate_all
          (drop_receiver ∷ [])
          (operate send (operate_all (subscribe ∷ []) (operate (add_callback 7) new)))).flag
        ≡ true)
cancellation_calls_example = cancellation_calls 7 new (subscribe ∷ []) (drop_receiver ∷ [])
