-- ===== src/Dispatch/Answers.antt =====
-- Every request gets one response.
use vscode_lldb.Common.{
  ℕ, zero, suc, ◌+◌, ◌≡◌, refl, ◌∙◌, Bool, true, false, Option, none, some, List, [], ◌∷◌, ◌++◌,
  ◌==◌, if◌then◌else◌, arith, Bool-cases, inl, inr,
}
use vscode_lldb.Common.Text.{codes}
use vscode_lldb.Errors.{str_error, blamed_error, async_response, Result, ok, err}
use vscode_lldb.Dispatch.{
  Command, Handlers, Response, Dispatcher, respond, finished, is_unknown, handle_request,
  handle_request_args, send_response, push_task, take_task, with_task, complete_task, Step,
  on_request, on_completion, run,
}

module _ (api : Handlers) (seq : ℕ) where
  abbrev one : ℕ → ℕ
  one n = if n == seq then 1 else 0

  abbrev pub answered : List (Response api) → ℕ
  answered [] = 0
  answered (r ∷ rs) = one r.request_seq + answered rs

  abbrev pub waiting : List (ℕ × api.Future) → ℕ
  waiting [] = 0
  waiting (t ∷ ts) = one t.0 + waiting ts

  -- how often there was a request of that number
  abbrev pub asked : List (Step api) → ℕ
  asked [] = 0
  asked (on_request n command is_cancelled ∷ xs) = one n + asked xs
  asked (on_completion i result ∷ xs) = asked xs

  abbrev pub known : Dispatcher api → ℕ
  known d = answered d.responses + waiting d.tasks

  answered-append :
      (rs : List (Response api)) (r : Response api)
      → answered (rs ++ r ∷ []) ≡ answered rs + one r.request_seq
  answered-append [] r = omega arith
  answered-append (x ∷ rs) r = omega (arith, answered-append rs r)

  waiting-append :
      (ts : List (ℕ × api.Future)) (t : ℕ × api.Future)
      → waiting (ts ++ t ∷ []) ≡ waiting ts + one t.0
  waiting-append [] t = omega arith
  waiting-append (x ∷ ts) t = omega (arith, waiting-append ts t)

  respond-known :
      (n : ℕ) (result : Result api.Future api.ResponseBody) (d : Dispatcher api)
      → known (respond api n result d) ≡ one n + known d
  unfolding send_response
  respond-known n result d = omega (arith, answered-append d.responses (send_response api n result))

  finished-known :
      (n : ℕ) (d : Dispatcher api) (r : Result api.Future api.ResponseBody) (s : api.Session)
      → known (finished api n d (r, s)) ≡ one n + known d
  finished-known n d (ok body) s =
      respond-known n (ok body) (record { session = s; responses = d.responses; tasks = d.tasks })
  finished-known n d (err (async_response fut)) s = omega (arith, waiting-append d.tasks (n, fut))
  finished-known n d (err (str_error m)) s =
      respond-known n (err (str_error m))
        (record { session = s; responses = d.responses; tasks = d.tasks })
  finished-known n d (err (blamed_error b e)) s =
      respond-known n (err (blamed_error b e))
        (record { session = s; responses = d.responses; tasks = d.tasks })

  handle_request-known :
      (n : ℕ) (command : Command) (is_cancelled : Bool) (d : Dispatcher api)
      → known (handle_request api n command is_cancelled d) ≡ one n + known d
  unfolding handle_request
  handle_request-known n command true d = respond-known n (err (str_error (codes "canceled"))) d
  handle_request-known n command false d = elim (Bool-cases (is_unknown api command)) [
    | inl unknown ↦ rw unknown (respond-known n (err (str_error (codes "Not implemented."))) d)
    | inr other ↦
        let done = handle_request_args api command d.session in
        rw other (finished-known n d done.0 done.1)
  ]

  -- how many wait, with the one that was taken
  abbrev left : Option (ℕ × List (ℕ × api.Future)) → ℕ → ℕ
  left none w = w
  left (some (n, rest)) w = one n + waiting rest

  left-push_task :
      (t : ℕ × api.Future) (o : Option (ℕ × List (ℕ × api.Future))) (w : ℕ)
      → left o w ≡ w
      → left (push_task api t o) (one t.0 + w) ≡ one t.0 + w
  left-push_task t none w h = refl
  left-push_task t (some (n, rest)) w h = omega (arith, h)

  take_task-waiting :
      (i : ℕ) (ts : List (ℕ × api.Future)) → left (take_task api i ts) (waiting ts) ≡ waiting ts
  take_task-waiting i [] = refl
  take_task-waiting zero (t ∷ ts) = refl
  take_task-waiting (suc i) (t ∷ ts) =
      left-push_task t (take_task api i ts) (waiting ts) (take_task-waiting i ts)

  with_task-known :
      (result : Result api.Future api.ResponseBody) (d : Dispatcher api)
      (o : Option (ℕ × List (ℕ × api.Future)))
      → left o (waiting d.tasks) ≡ waiting d.tasks
      → known (with_task api o result d) ≡ known d
  with_task-known result d none h = refl
  with_task-known result d (some (n, rest)) h =
      respond-known n result (record { session = d.session; responses = d.responses; tasks = rest })
      ∙ omega (arith, h)

  complete_task-known :
      (i : ℕ) (result : Result api.Future api.ResponseBody) (d : Dispatcher api)
      → known (complete_task api i result d) ≡ known d
  unfolding complete_task
  complete_task-known i result d =
      with_task-known result d (take_task api i d.tasks) (take_task-waiting i d.tasks)

  -- Whatever requests come and whatever tasks complete, in whatever order: for each number there are
  -- as many responses and waiting tasks as there were requests of that number. So a request has its
  -- one response, and no other, once none of the tasks waits that were spawned for it.
  pub run-known :
      (xs : List (Step api)) (d : Dispatcher api)
      → answered (run api xs d).responses + waiting (run api xs d).tasks
        ≡ asked xs + (answered d.responses + waiting d.tasks)
  run-known [] d = omega arith
  run-known (on_request n command is_cancelled ∷ xs) d =
      run-known xs (handle_request api n command is_cancelled d)
      ∙ omega (arith, handle_request-known n command is_cancelled d)
  run-known (on_completion i result ∷ xs) d =
      run-known xs (complete_task api i result d) ∙ omega (arith, complete_task-known i result d)
