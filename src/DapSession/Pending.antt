-- ===== src/DapSession/Pending.antt =====
-- Requests of the session to the client: which response answers which request.
use vscode_lldb.Common.{
  ℕ, suc, ◌+◌, ◌^◌, ◌≤◌, ◌<◌, ◌≡◌, ◌≢◌, refl, Bool, true, Option, none, some, List, [], ◌∷◌, ◌++◌,
  arith, length, All,
}
use vscode_lldb.Common.Map.{get, get-insert, get-remove, nat_eq}
use vscode_lldb.DapSession.{
  Payloads, ResponseResult, Response, MessageType, request, event, response, Incoming, message,
  malformed, broken, closed, Step, incoming, outgoing, Dispatcher, next_seq, deliver, on_message,
  on_incoming, on_outgoing, step, run,
}
use vscode_lldb.DapSession.Numbering.{HasRoom, IsWellFormed, if_cases, step-IsWellFormed, step-seq}

module _ (p : Payloads) where
  -- a message that is not the response to request `n`
  abbrev pub IsOtherType : ℕ → MessageType p → Type 0
  IsOtherType n (request args) = Unit
  IsOtherType n (event body) = Unit
  IsOtherType n (response r) = n ≢ r.request_seq

  -- a step that is not that response, and does not end the loop
  abbrev pub IsOther : ℕ → Step p → Type 0
  IsOther n (incoming (message m)) = IsOtherType n m.type_
  IsOther n (incoming (malformed q)) = Unit
  IsOther n (incoming broken) = ⊥
  IsOther n (incoming closed) = ⊥
  IsOther n (outgoing type sender) = Unit

  -- the loop runs, and request `n` waits for its response
  pub record Waits (n : ℕ) (r : p.Requestor) (d : Dispatcher p) : Type 0 where
    pub running : d.running ≡ true
    pub pending : get n d.pending_requests ≡ some r

  deliver-Waits :
      (n : ℕ) (r : p.Requestor) (sender : Option p.Requestor) (a : Response p) (d : Dispatcher p)
      → n ≢ a.request_seq
      → Waits n r d
      → Waits n r (deliver p sender a d)
  unfolding deliver
  deliver-Waits n r none a d ne w = w
  deliver-Waits n r (some t) a d ne w = record {
    running = w.running;
    pending = ground (arith, get-remove n a.request_seq d.pending_requests, w.pending);
  }

  on_message-Waits :
      (n : ℕ) (r : p.Requestor) (seq : ℕ) (type : MessageType p) (d : Dispatcher p)
      → IsOtherType n type
      → Waits n r d
      → Waits n r (on_message p seq type d)
  unfolding on_message
  on_message-Waits n r seq (request args) d o w = record {
    running = w.running;
    pending = w.pending;
  }
  on_message-Waits n r seq (event body) d o w = record { running = w.running; pending = w.pending }
  on_message-Waits n r seq (response a) d o w =
      deliver-Waits n r (get a.request_seq d.pending_requests) a d o w

  on_outgoing-Waits :
      (n : ℕ) (r : p.Requestor) (type : MessageType p) (sender : Option p.Requestor)
      (d : Dispatcher p)
      → HasRoom p d
      → n ≤ d.message_seq
      → Waits n r d
      → Waits n r (on_outgoing p type sender d)
  unfolding on_outgoing
  on_outgoing-Waits n r type none d room le w = record { running = w.running; pending = w.pending }
  on_outgoing-Waits n r type (some t) d room le w = record {
    running = w.running;
    pending = ground (arith, get-insert n (next_seq p d) t d.pending_requests, w.pending);
  }

  on_incoming-Waits :
      (n : ℕ) (r : p.Requestor) (i : Incoming p) (d : Dispatcher p)
      → IsOther n (incoming i)
      → Waits n r d
      → Waits n r (on_incoming p i d)
  unfolding on_incoming
  on_incoming-Waits n r (message m) d o w = on_message-Waits n r m.seq m.type_ d o w
  on_incoming-Waits n r (malformed none) d o w = w
  on_incoming-Waits n r (malformed (some q)) d o w = record {
    running = w.running;
    pending = w.pending;
  }
  on_incoming-Waits n r broken d o w = absurd o
  on_incoming-Waits n r closed d o w = absurd o

  step-Waits :
      (n : ℕ) (r : p.Requestor) (s : Step p) (d : Dispatcher p)
      → HasRoom p d
      → n ≤ d.message_seq
      → IsOther n s
      → Waits n r d
      → Waits n r (step p s d)
  unfolding step
  step-Waits n r (incoming i) d room le o w =
      if_cases p (Waits n r) d.running _ d (on_incoming-Waits n r i d o w) w
  step-Waits n r (outgoing type sender) d room le o w =
      if_cases p (Waits n r) d.running _ d (on_outgoing-Waits n r type sender d room le w) w

  run-Waits :
      (steps : List (Step p)) (n : ℕ) (r : p.Requestor) (d : Dispatcher p)
      → suc (d.message_seq + length steps) < 2 ^ 32
      → IsWellFormed p d
      → All (IsOther n) steps
      → Waits n r d
      → Waits n r (run p steps d)
  unfolding run
  run-Waits [] n r d room f o w = w
  run-Waits (s ∷ rest) n r d room f o w =
      run-Waits rest n r (step p s d) (omega (arith, step-seq p s d))
        (step-IsWellFormed p s d (omega arith) f) o.1
        (step-Waits n r s d (omega arith) (f.given_out n r w.pending) o.0 w)

  -- the client's message `seq`, which responds to request `n`
  abbrev pub response_to : ℕ → ℕ → Bool → ResponseResult p → Step p
  response_to seq n accepted result = incoming (
      message (record {
        seq = seq;
        type_ = response (record { request_seq = n; success = accepted; result = result });
      }))

  responds :
      (n : ℕ) (r : p.Requestor) (seq : ℕ) (accepted : Bool) (result : ResponseResult p)
      (d : Dispatcher p)
      → Waits n r d
      → ((step p (response_to seq n accepted result) d).delivered ≡ d.delivered ++ (r, result) ∷ [])
        × (get n (step p (response_to seq n accepted result) d).pending_requests ≡ none)
  unfolding step on_incoming on_message deliver
  responds n r seq accepted result d w = (
    ground (arith, w.running, w.pending),
    ground (arith, w.running, w.pending, get-remove n n d.pending_requests),
  )

  -- the session sends a request
  abbrev pub requested : Dispatcher p → p.RequestArguments → p.Requestor → Dispatcher p
  requested d args r = step p (outgoing (request args) (some r)) d

  requested-Waits :
      (d : Dispatcher p) (args : p.RequestArguments) (r : p.Requestor)
      → d.running ≡ true
      → HasRoom p d
      → Waits (suc d.message_seq) r (requested d args r)
        × ((requested d args r).sent
            ≡ d.sent ++ (record { seq = suc d.message_seq; type_ = request args }) ∷ [])
  unfolding step on_outgoing
  requested-Waits d args r on room =
      let next : next_seq p d ≡ suc d.message_seq = omega arith in
      (
        record {
          running = ground (arith, on);
          pending =
              ground (
                arith,
                on,
                next,
                get-insert (suc d.message_seq) (next_seq p d) r d.pending_requests,
              );
        },
        rw (on, next) refl,
      )

  -- A request that the session sends carries the next number; whatever else happens before the client
  -- responds to that number, short of the end of the connection and of 2 ^ 32 messages, the response
  -- goes to the sender of that request, and afterwards nobody waits for that number.
  pub request_is_answered :
      (d : Dispatcher p) (args : p.RequestArguments) (r : p.Requestor) (steps : List (Step p))
      (seq : ℕ) (accepted : Bool) (result : ResponseResult p)
      → d.running ≡ true
      → IsWellFormed p d
      → suc (suc (d.message_seq + length steps)) < 2 ^ 32
      → All (IsOther (suc d.message_seq)) steps
      → ((requested d args r).sent
          ≡ d.sent ++ (record { seq = suc d.message_seq; type_ = request args }) ∷ [])
        × ((step p
              (response_to seq (suc d.message_seq) accepted result)
              (run p steps (requested d args r))).delivered
            ≡ (run p steps (requested d args r)).delivered ++ (r, result) ∷ [])
        × (get
              (suc d.message_seq)
              (step p
                (response_to seq (suc d.message_seq) accepted result)
                (run p steps (requested d args r))).pending_requests
            ≡ none)
  request_is_answered d args r steps seq accepted result on f room o =
      let ask : Step p = outgoing (request args) (some r) in
      let (waits, sends) = requested-Waits d args r on (omega arith) in
      let answered =
        responds (suc d.message_seq) r seq accepted result (run p steps (requested d args r)) (
          run-Waits steps (suc d.message_seq) r (requested d args r)
            (omega (arith, step-seq p ask d)) (step-IsWellFormed p ask d (omega arith) f) o
            waits) in
      (sends, answered.0, answered.1)

  -- A response that nobody waits for changes nothing: no request is answered twice.
  pub second_response_ignored :
      (seq n : ℕ) (accepted : Bool) (result : ResponseResult p) (d : Dispatcher p)
      → get n d.pending_requests ≡ none
      → step p (response_to seq n accepted result) d ≡ d
  unfolding step on_incoming on_message deliver
  second_response_ignored seq n accepted result d h = ground (arith, h)
