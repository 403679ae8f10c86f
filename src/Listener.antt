-- ===== src/Listener.antt =====
-- src/codelldb/src/debug_event_listener.rs: the thread that hands the debugger's events to the session, and
-- the cork by which the session has it drop them. A step is what one thread does while it has the
-- lock, or the return of `wait_for_event`, which has no lock.
pub mod Corked
mod Tests
use vscode_lldb.Common.{
  Bool, true, false, ◌&&◌, not, Option, none, some, List, [], ◌∷◌, ◌++◌, if◌then◌else◌,
}

-- what the channel answers to an event
pub data SendReply : Type 0 where
  sent_ok full closed : SendReply

pub record Inner : Type 0 where
  pub corked : Bool
  pub was_corked : Bool

module _ (SBEvent : Type 0) where
  pub record Polling : Type 0 where
    pub state : Inner
    -- the event with which the wait has returned, and that is not handled yet
    pub event : Option SBEvent
    -- the events in the channel, and whether the thread has ended
    pub sent : List SBEvent
    pub ended : Bool

  abbrev put : SendReply → SBEvent → Polling → Polling
  put sent_ok e p = record {
    state = record { corked = p.state.corked; was_corked = p.state.corked };
    event = none;
    sent = p.sent ++ e ∷ [];
    ended = false;
  }
  put full e p = record {
    state = record { corked = p.state.corked; was_corked = p.state.corked };
    event = none;
    sent = p.sent;
    ended = false;
  }
  put closed e p = record { state = p.state; event = none; sent = p.sent; ended = true }

  abbrev handle_received : SendReply → Option SBEvent → Polling → Polling
  handle_received reply (some e) p = if p.state.was_corked then put full e p else put reply e p
  handle_received reply none p = record {
    state = record { corked = p.state.corked; was_corked = p.state.corked };
    event = none;
    sent = p.sent;
    ended = false;
  }

  -- one round behind the wait: the receiver is gone, or the event is handled
  unfoldable pub handle_round : Bool → SendReply → Polling → Polling
  handle_round is_closed reply p =
      if p.ended
      then p
      else if is_closed
      then record { state = p.state; event = none; sent = p.sent; ended = true }
      else handle_received reply p.event p

  unfoldable pub cork : Polling → Polling
  cork p = record {
    state = record { corked = true; was_corked = true };
    event = p.event;
    sent = p.sent;
    ended = p.ended;
  }

  unfoldable pub uncork : Polling → Polling
  uncork p = record {
    state = record { corked = false; was_corked = p.state.was_corked };
    event = p.event;
    sent = p.sent;
    ended = p.ended;
  }

  pub data Step : Type 0 where
    wait_for_event : Option SBEvent → Step
    round : Bool → SendReply → Step

  abbrev pub step : Step → Polling → Polling
  step (wait_for_event e) p = record { state = p.state; event = e; sent = p.sent; ended = p.ended }
  step (round is_closed reply) p = handle_round is_closed reply p

  abbrev pub run : List Step → Polling → Polling
  run [] p = p
  run (x ∷ xs) p = run xs (step x p)
