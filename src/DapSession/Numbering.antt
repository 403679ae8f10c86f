-- ===== src/DapSession/Numbering.antt =====
-- The numbers of the messages that the session sends to the client.
use vscode_lldb.Common.{
  ℕ, suc, ◌+◌, ◌^◌, ◌≤◌, ◌<◌, ◌≡◌, refl, Bool, true, false, Option, none, some, List, [], ◌∷◌, ◌++◌,
  arith, if◌then◌else◌, length, length-append,
}
use vscode_lldb.Common.Map.{get, get-insert, get-remove, nat_eq}
use vscode_lldb.DapSession.{
  Payloads, Response, MessageType, request, event, response, ProtocolMessage, Incoming, message,
  malformed, broken, closed, Step, incoming, outgoing, Dispatcher, next_seq, deliver, on_message,
  on_incoming, on_outgoing, malformed_response, step, run,
}

module _ (p : Payloads) where
  -- the numbers 1, 2, … of the messages sent
  abbrev pub Numbered : ℕ → List (ProtocolMessage p) → Type 0
  Numbered n [] = Unit
  Numbered n (m ∷ ms) = (m.seq ≡ n) × Numbered (suc n) ms

  -- Messages are numbered from 1 without a gap, and a pending request has a number given out.
  pub record IsWellFormed (d : Dispatcher p) : Type 0 where
    pub numbered : Numbered 1 d.sent
    pub counted : d.message_seq ≡ length d.sent
    pub given_out :
        (n : ℕ) (r : p.Requestor) → get n d.pending_requests ≡ some r → n ≤ d.message_seq

  Numbered-append :
      (n : ℕ) (ms : List (ProtocolMessage p)) (m : ProtocolMessage p)
      → Numbered n ms
      → m.seq ≡ n + length ms
      → Numbered n (ms ++ m ∷ [])
  Numbered-append n [] m h e = (omega (arith, e), tt)
  Numbered-append n (x ∷ ms) m h e = (h.0, Numbered-append (suc n) ms m h.1 (omega (arith, e)))

  -- Fewer than 2 ^ 32 messages, so the numbers have not wrapped.
  abbrev pub HasRoom : Dispatcher p → Type 0
  HasRoom d = suc d.message_seq < 2 ^ 32

  on_outgoing-IsWellFormed :
      (type : MessageType p) (sender : Option p.Requestor) (d : Dispatcher p)
      → HasRoom d
      → IsWellFormed d
      → IsWellFormed (on_outgoing p type sender d)
  unfolding on_outgoing
  on_outgoing-IsWellFormed type sender d room w =
      let next : next_seq p d ≡ suc d.message_seq = omega arith in
      let count = w.counted in
      record {
        numbered = Numbered-append 1 d.sent _ w.numbered (omega arith);
        counted =
            omega (arith, length-append d.sent (record { seq = next_seq p d; type_ = type } ∷ []));
        given_out = λ n r h. given sender n r next h;
      }
    where
      given :
          (s : Option p.Requestor) (n : ℕ) (r : p.Requestor)
          → next_seq p d ≡ suc d.message_seq
          → get n (on_outgoing p type s d).pending_requests ≡ some r
          → n ≤ next_seq p d
      given none n r e h = omega (arith, w.given_out n r h)
      given (some t) n r e h =
          ground (arith, get-insert n (next_seq p d) t d.pending_requests, w.given_out n r)

  deliver-IsWellFormed :
      (sender : Option p.Requestor) (r : Response p) (d : Dispatcher p)
      → IsWellFormed d
      → IsWellFormed (deliver p sender r d)
  unfolding deliver
  deliver-IsWellFormed none r d w = w
  deliver-IsWellFormed (some s) r d w = record {
    numbered = w.numbered;
    counted = w.counted;
    given_out =
        λ n t h. w.given_out n t (ground (arith, get-remove n r.request_seq d.pending_requests));
  }

  on_message-IsWellFormed :
      (seq : ℕ) (type : MessageType p) (d : Dispatcher p)
      → IsWellFormed d
      → IsWellFormed (on_message p seq type d)
  unfolding on_message
  on_message-IsWellFormed seq (request args) d w = record {
    numbered = w.numbered;
    counted = w.counted;
    given_out = w.given_out;
  }
  on_message-IsWellFormed seq (event body) d w = record {
    numbered = w.numbered;
    counted = w.counted;
    given_out = w.given_out;
  }
  on_message-IsWellFormed seq (response r) d w =
      deliver-IsWellFormed (get r.request_seq d.pending_requests) r d w

  on_incoming-IsWellFormed :
      (i : Incoming p) (d : Dispatcher p)
      → HasRoom d
      → IsWellFormed d
      → IsWellFormed (on_incoming p i d)
  unfolding on_incoming
  on_incoming-IsWellFormed (message m) d room w = on_message-IsWellFormed m.seq m.type_ d w
  on_incoming-IsWellFormed (malformed none) d room w = w
  on_incoming-IsWellFormed (malformed (some q)) d room w =
      let next : next_seq p d ≡ suc d.message_seq = omega arith in
      let count = w.counted in
      record {
        numbered = Numbered-append 1 d.sent _ w.numbered (omega arith);
        counted = omega (arith, length-append d.sent (malformed_response p (next_seq p d) q ∷ []));
        given_out = λ n r h. omega (arith, w.given_out n r h, next);
      }
  on_incoming-IsWellFormed broken d room w = record {
    numbered = w.numbered;
    counted = w.counted;
    given_out = w.given_out;
  }
  on_incoming-IsWellFormed closed d room w = record {
    numbered = w.numbered;
    counted = w.counted;
    given_out = w.given_out;
  }

  pub if_cases :
      (P : Dispatcher p → Type 0) (b : Bool) (x y : Dispatcher p)
      → P x
      → P y
      → P (if b then x else y)
  if_cases P true x y h k = h
  if_cases P false x y h k = k

  pub step-IsWellFormed :
      (s : Step p) (d : Dispatcher p) → HasRoom d → IsWellFormed d → IsWellFormed (step p s d)
  unfolding step
  step-IsWellFormed (incoming i) d room w =
      if_cases IsWellFormed d.running _ d (on_incoming-IsWellFormed i d room w) w
  step-IsWellFormed (outgoing type sender) d room w =
      if_cases IsWellFormed d.running _ d (on_outgoing-IsWellFormed type sender d room w) w

  on_message-seq :
      (seq : ℕ) (type : MessageType p) (d : Dispatcher p)
      → (on_message p seq type d).message_seq ≡ d.message_seq
  unfolding on_message
  on_message-seq seq (request args) d = refl
  on_message-seq seq (event body) d = refl
  on_message-seq seq (response r) d = ground arith

  -- a step gives out at most one number
  pub step-seq :
      (s : Step p) (d : Dispatcher p) → HasRoom d → (step p s d).message_seq ≤ suc d.message_seq
  unfolding step on_incoming
  step-seq (incoming (message m)) d room = ground (arith, on_message-seq m.seq m.type_ d)
  step-seq (incoming (malformed none)) d room = ground arith
  step-seq (incoming (malformed (some q))) d room = ground arith
  step-seq (incoming broken) d room = ground arith
  step-seq (incoming closed) d room = ground arith
  step-seq (outgoing type sender) d room = ground arith

  -- However the steps interleave, up to 2 ^ 32 messages: the messages sent are numbered 1, 2, … in
  -- order, and every pending request carries a number that has been given out.
  pub run-IsWellFormed :
      (steps : List (Step p)) (d : Dispatcher p)
      → suc (d.message_seq + length steps) < 2 ^ 32
      → IsWellFormed d
      → IsWellFormed (run p steps d)
  unfolding run
  run-IsWellFormed [] d room w = w
  run-IsWellFormed (s ∷ rest) d room w =
      run-IsWellFormed rest (step p s d) (omega (arith, step-seq s d))
        (step-IsWellFormed s d (omega arith) w)
