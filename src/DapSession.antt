-- ===== src/DapSession.antt =====
-- src/codelldb/src/dap_session.rs: the dispatcher between the session and the client. The queues of
-- tokio are the model's lists: what arrives from the client and what the session sends are steps,
-- in the order in which `select!` takes them, and what the dispatcher hands on is appended to
-- `sent`, `requests`, `events` and `delivered`. The types of the payloads are parameters.
pub mod Numbering
pub mod Pending
mod Tests
use vscode_lldb.Common.{
  ℕ, ◌+◌, ◌%◌, ◌^◌, Bool, true, false, Option, none, some, List, [], ◌∷◌, ◌++◌, if◌then◌else◌,
}
use vscode_lldb.Common.Map.{Map, get, insert, remove, nat_eq}
use vscode_lldb.Common.Text.{Text, codes}

-- The payloads, and the sender of a oneshot channel, which receives one response.
pub record Payloads : Type 1 where
  pub RequestArguments : Type 0
  pub EventBody : Type 0
  pub ResponseBody : Type 0
  pub Requestor : Type 0

pub data ResponseResult (p : Payloads) : Type 0 where
  success : p.ResponseBody → ResponseResult p
  -- the command, the message and whether to show it to the user
  error : Text → Text → Option Bool → ResponseResult p

pub record Response (p : Payloads) : Type 0 where
  pub request_seq : ℕ
  pub success : Bool
  pub result : ResponseResult p

pub data MessageType (p : Payloads) : Type 0 where
  request : p.RequestArguments → MessageType p
  event : p.EventBody → MessageType p
  response : Response p → MessageType p

pub record ProtocolMessage (p : Payloads) : Type 0 where
  pub seq : ℕ
  pub type_ : MessageType p

-- What the channel yields: a message, a frame that does not parse, with the number at its key `seq`
-- if it has one, an error of the frame decoder, or the end.
pub data Incoming (p : Payloads) : Type 0 where
  message : ProtocolMessage p → Incoming p
  malformed : Option ℕ → Incoming p
  broken : Incoming p
  closed : Incoming p

pub data Step (p : Payloads) : Type 0 where
  incoming : Incoming p → Step p
  outgoing : MessageType p → Option p.Requestor → Step p

pub record Dispatcher (p : Payloads) : Type 0 where
  pub running : Bool
  pub message_seq : ℕ
  pub pending_requests : Map ℕ p.Requestor
  pub sent : List (ProtocolMessage p)
  pub requests : List (ℕ × p.RequestArguments)
  pub events : List p.EventBody
  pub delivered : List (p.Requestor × ResponseResult p)

module _ (p : Payloads) where
  abbrev pub new : Dispatcher p
  new = record {
    running = true;
    message_seq = 0;
    pending_requests = [];
    sent = [];
    requests = [];
    events = [];
    delivered = [];
  }

  -- `message_seq += 1` on a `u32`
  abbrev pub next_seq : Dispatcher p → ℕ
  next_seq d = (d.message_seq + 1) % 2 ^ 32

  unfoldable pub deliver : Option p.Requestor → Response p → Dispatcher p → Dispatcher p
  deliver none r d = d
  deliver (some sender) r d = record d {
    pending_requests = remove r.request_seq d.pending_requests;
    delivered = d.delivered ++ (sender, r.result) ∷ [];
  }

  unfoldable pub on_message : ℕ → MessageType p → Dispatcher p → Dispatcher p
  unfolding deliver
  on_message seq (request args) d = record d { requests = d.requests ++ (seq, args) ∷ [] }
  on_message seq (event body) d = record d { events = d.events ++ body ∷ [] }
  on_message seq (response r) d = deliver (get r.request_seq d.pending_requests) r d

  abbrev pub malformed_response : ℕ → ℕ → ProtocolMessage p
  malformed_response seq request_seq = record {
    seq = seq;
    type_ = response (record {
      request_seq = request_seq % 2 ^ 32;
      success = false;
      result = error [] (codes "Malformed message") none;
    });
  }

  unfoldable pub on_incoming : Incoming p → Dispatcher p → Dispatcher p
  unfolding on_message
  on_incoming (message m) d = on_message m.seq m.type_ d
  on_incoming (malformed none) d = d
  on_incoming (malformed (some request_seq)) d = record d {
    message_seq = next_seq d;
    sent = d.sent ++ malformed_response (next_seq d) request_seq ∷ [];
  }
  on_incoming broken d = record d { running = false }
  on_incoming closed d = record d { running = false }

  abbrev register : Option p.Requestor → ℕ → Map ℕ p.Requestor → Map ℕ p.Requestor
  register none seq pending = pending
  register (some sender) seq pending = insert seq sender pending

  unfoldable pub on_outgoing : MessageType p → Option p.Requestor → Dispatcher p → Dispatcher p
  on_outgoing type sender d = record d {
    message_seq = next_seq d;
    pending_requests = register sender (next_seq d) d.pending_requests;
    sent = d.sent ++ (record { seq = next_seq d; type_ = type }) ∷ [];
  }

  -- a round of the loop, and nothing once it has ended
  unfoldable pub step : Step p → Dispatcher p → Dispatcher p
  unfolding on_incoming on_outgoing
  step (incoming i) d = if d.running then on_incoming i d else d
  step (outgoing type sender) d = if d.running then on_outgoing type sender d else d

  unfoldable pub run : List (Step p) → Dispatcher p → Dispatcher p
  run [] d = d
  run (s ∷ rest) d = run rest (step s d)
