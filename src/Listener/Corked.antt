-- ===== src/Listener/Corked.antt =====
-- What is dropped between a cork and an uncork.
use vscode_lldb.Common.{
  Bool, true, false, Option, none, some, List, [], ◌∷◌, ◌++◌, ◌≡◌, refl, sym, ap, ◌∙◌, subst,
  if◌then◌else◌,
}
use vscode_lldb.Listener.{
  SendReply, sent_ok, Inner, Polling, handle_received, handle_round, cork, uncork, Step,
  wait_for_event, round, step, run,
}

module _ (SBEvent : Type 0) where
  -- nothing has been sent since, and what comes is dropped
  record Drops (before : List SBEvent) (p : Polling SBEvent) : Type 0 where
    corked_eq : p.state.corked ≡ true
    was_corked_eq : p.state.was_corked ≡ true
    sent_eq : p.sent ≡ before

  handle_received-Drops :
      (before : List SBEvent) (reply : SendReply) (e : Option SBEvent) (p : Polling SBEvent)
      → Drops before p
      → Drops before (handle_received SBEvent reply e p)
  handle_received-Drops before reply none p d = record {
    corked_eq = d.corked_eq;
    was_corked_eq = d.corked_eq;
    sent_eq = d.sent_eq;
  }
  handle_received-Drops before reply (some e) p d =
      rw d.was_corked_eq
        (record { corked_eq = d.corked_eq; was_corked_eq = d.corked_eq; sent_eq = d.sent_eq })

  if-Drops :
      (before : List SBEvent) (b : Bool) {p q : Polling SBEvent}
      → Drops before p
      → Drops before q
      → Drops before (if b then p else q)
  if-Drops before true d e = d
  if-Drops before false d e = e

  handle_round-Drops :
      (before : List SBEvent) (is_closed : Bool) (reply : SendReply) (p : Polling SBEvent)
      → Drops before p
      → Drops before (handle_round SBEvent is_closed reply p)
  unfolding handle_round
  handle_round-Drops before is_closed reply p d = if-Drops before p.ended d (
      if-Drops before is_closed
        (record { corked_eq = d.corked_eq; was_corked_eq = d.was_corked_eq; sent_eq = d.sent_eq })
        (handle_received-Drops before reply p.event p d))

  run-Drops :
      (before : List SBEvent) (xs : List (Step SBEvent)) (p : Polling SBEvent)
      → Drops before p
      → Drops before (run SBEvent xs p)
  run-Drops before [] p d = d
  run-Drops before (wait_for_event e ∷ xs) p d =
      run-Drops before xs (step SBEvent (wait_for_event e) p)
        (record { corked_eq = d.corked_eq; was_corked_eq = d.was_corked_eq; sent_eq = d.sent_eq })
  run-Drops before (round is_closed reply ∷ xs) p d =
      run-Drops before xs (handle_round SBEvent is_closed reply p)
        (handle_round-Drops before is_closed reply p d)

  if-sent :
      (before : List SBEvent) (b : Bool) (p q : Polling SBEvent)
      → p.sent ≡ before
      → q.sent ≡ before
      → (if b then p else q).sent ≡ before
  if-sent before true p q d e = d
  if-sent before false p q d e = e

  handle_received-sent :
      (reply : SendReply) (e : Option SBEvent) (p : Polling SBEvent)
      → p.state.was_corked ≡ true
      → (handle_received SBEvent reply e p).sent ≡ p.sent
  handle_received-sent reply none p h = refl
  handle_received-sent reply (some e) p h = rw h refl

  -- The cork is sticky for one round.
  handle_round-sent :
      (is_closed : Bool) (reply : SendReply) (p : Polling SBEvent)
      → p.state.was_corked ≡ true
      → (handle_round SBEvent is_closed reply p).sent ≡ p.sent
  unfolding handle_round
  handle_round-sent is_closed reply p h =
      if-sent p.sent p.ended p _ refl
        (if-sent p.sent is_closed _ _ refl (handle_received-sent reply p.event p h))

  resumes :
      (e : Option SBEvent) (s : Inner) (sent : List SBEvent) (reply : SendReply) (x : SBEvent)
      → s.was_corked ≡ true
      → s.corked ≡ false
      → let p : Polling SBEvent = record { state = s; event = e; sent = sent; ended = false } in
        (handle_round SBEvent false sent_ok
          (step SBEvent (wait_for_event (some x)) (handle_round SBEvent false reply p))).sent
        ≡ sent ++ x ∷ []
  unfolding handle_round
  resumes none s sent reply x was is = rw is refl
  resumes (some y) s sent reply x was is = rw (was, is) refl

  -- what the channel has after the round and one event more
  abbrev pub with_event : SendReply → SBEvent → Polling SBEvent → List SBEvent
  with_event reply x p =
      (handle_round SBEvent false sent_ok
        (step SBEvent (wait_for_event (some x)) (handle_round SBEvent false reply p))).sent

  resumes_alive :
      (p : Polling SBEvent) (reply : SendReply) (x : SBEvent)
      → p.ended ≡ false
      → p.state.was_corked ≡ true
      → p.state.corked ≡ false
      → with_event reply x p ≡ p.sent ++ x ∷ []
  resumes_alive p reply x alive was is =
      subst
        (λ b.
          with_event reply x (record { state = p.state; event = p.event; sent = p.sent; ended = b })
          ≡ p.sent ++ x ∷ [])
        (sym alive) (resumes p.event p.state p.sent reply x was is)

  -- Whatever the thread does between a cork and the next uncork, none of it reaches the session. Nor
  -- does the event that the wait has returned with when the thread goes round for the first time
  -- behind the uncork, before which or behind which it came. The event after that one is sent, if
  -- the thread is still there.
  pub cork-drops :
      (xs : List (Step SBEvent)) (e : Option SBEvent) (is_closed : Bool) (reply : SendReply)
      (p : Polling SBEvent)
      → let p' =
          step SBEvent (wait_for_event e) (uncork SBEvent (run SBEvent xs (cork SBEvent p))) in
        ((handle_round SBEvent is_closed reply p').sent ≡ p.sent)
        × ((x : SBEvent) → p'.ended ≡ false → with_event reply x p' ≡ p.sent ++ x ∷ [])
  unfolding cork uncork
  cork-drops xs e is_closed reply p =
      let corked = cork SBEvent p in
      let p' = step SBEvent (wait_for_event e) (uncork SBEvent (run SBEvent xs corked)) in
      let d =
        run-Drops p.sent xs corked
          (record { corked_eq = refl; was_corked_eq = refl; sent_eq = refl }) in
      (
        handle_round-sent is_closed reply p' d.was_corked_eq ∙ d.sent_eq,
        λ x alive.
            resumes_alive p' reply x alive d.was_corked_eq refl ∙ ap (λ s. s ++ x ∷ []) d.sent_eq,
      )
