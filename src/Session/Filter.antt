-- ===== src/Session/Filter.antt =====
-- `cancellation_filter`: each request gets a cancellation token. The tokens are a store, in which
-- a number is what senders and receivers of one token share; `forwarded` is what the event loop
-- of the session has been sent, with the number of the receiver's token.
use vscode_lldb.Common.{
  ℕ, zero, suc, ◌%◌, ◌^◌, ◌≡◌, Bool, true, false, Option, none, some, List, [], ◌∷◌, ◌++◌, ltb,
  ◌==◌, if◌then◌else◌, length, get_elem?, arith,
}
use mathlib.Core.Option
use vscode_lldb.Common.Int.{ℤ, as_u64}
use vscode_lldb.Common.Map.{Map, get, insert, remove, nat_eq}
use vscode_lldb.Cancellation.{
  Inner, Operation, subscribe, send, clone_receiver, drop_receiver, add_callback, operate,
}
use vscode_lldb.Cancellation

-- The requests that the filter knows, and the number of the request in `cancel`.
pub data RequestArguments : Type 0 where
  cancel : Option ℤ → RequestArguments
  scopes variables evaluate : RequestArguments
  continue_ pause next step_in step_out step_back reverse_continue terminate disconnect :
      RequestArguments
  other_request : RequestArguments

unfoldable pub modify {ℓ} : {A : Type ℓ} → ℕ → (A → A) → List A → List A
modify i f [] = []
modify zero f (x ∷ xs) = f x ∷ xs
modify (suc i) f (x ∷ xs) = x ∷ modify i f xs

pub get_elem?-modify {ℓ} :
    {A : Type ℓ} (i j : ℕ) (f : A → A) (xs : List A)
    → get_elem? (modify i f xs) j
      ≡ (if i == j then Option.map f (get_elem? xs j) else get_elem? xs j)
unfolding modify
get_elem?-modify i j f [] = ground arith
get_elem?-modify zero zero f (x ∷ xs) = ground arith
get_elem?-modify zero (suc j) f (x ∷ xs) = ground arith
get_elem?-modify (suc i) zero f (x ∷ xs) = ground arith
get_elem?-modify (suc i) (suc j) f (x ∷ xs) = ground (arith, get_elem?-modify i j f xs)

abbrev pub count_of : Option Inner → ℕ
count_of none = 0
count_of (some inner) = inner.receiver_count

-- `receiver_count() > 0`
abbrev pub is_held : List Inner → ℕ → Bool
is_held tokens i = ltb 0 (count_of (get_elem? tokens i))

pub record FilterState : Type 0 where
  pub tokens : List Inner
  pub pending_requests : Map ℕ ℕ
  pub cancellable_requests : List ℕ
  pub forwarded : List (ℕ × RequestArguments × ℕ)

unfoldable pub retain_pending : List Inner → Map ℕ ℕ → Map ℕ ℕ
retain_pending tokens [] = []
retain_pending tokens ((seq, i) ∷ rest) =
    let kept = retain_pending tokens rest in if is_held tokens i then (seq, i) ∷ kept else kept

unfoldable pub retain_held : List Inner → List ℕ → List ℕ
retain_held tokens [] = []
retain_held tokens (i ∷ rest) =
    let kept = retain_held tokens rest in if is_held tokens i then i ∷ kept else kept

unfoldable pub send_all : List ℕ → List Inner → List Inner
send_all [] tokens = tokens
send_all (i ∷ is) tokens = send_all is (modify i (operate send) tokens)

abbrev pub send_optional : Option ℕ → List Inner → List Inner
send_optional none tokens = tokens
send_optional (some i) tokens = modify i (operate send) tokens

-- `as u32`
abbrev pub as_u32 : ℤ → ℕ
as_u32 id = as_u64 id % 2 ^ 32

-- The request `cancel`; the receiver that was made for it is dropped with it.
abbrev pub cancel_request : Option ℤ → ℕ → FilterState → FilterState
cancel_request none token s = record s { tokens = modify token (operate drop_receiver) s.tokens }
cancel_request (some id) token s = record s {
  tokens =
      modify token (operate drop_receiver)
        (send_optional (get (as_u32 id) s.pending_requests) s.tokens);
  pending_requests = remove (as_u32 id) s.pending_requests;
}

abbrev pub forward : ℕ → RequestArguments → ℕ → FilterState → FilterState
forward seq request token s = record s {
  pending_requests = insert seq token s.pending_requests;
  forwarded = s.forwarded ++ (seq, request, token) ∷ [];
}

abbrev pub add_cancellable : ℕ → FilterState → FilterState
add_cancellable token s = record s { cancellable_requests = s.cancellable_requests ++ token ∷ [] }

abbrev pub cancel_all : FilterState → FilterState
cancel_all s = record s { tokens = send_all s.cancellable_requests s.tokens }

unfoldable pub is_cancellable : RequestArguments → Bool
is_cancellable scopes = true
is_cancellable variables = true
is_cancellable evaluate = true
is_cancellable _ = false

unfoldable pub is_cancelling : RequestArguments → Bool
is_cancelling continue_ = true
is_cancelling pause = true
is_cancelling next = true
is_cancelling step_in = true
is_cancelling step_out = true
is_cancelling step_back = true
is_cancelling reverse_continue = true
is_cancelling terminate = true
is_cancelling disconnect = true
is_cancelling _ = false

-- a request other than `cancel`
abbrev pub pass_on : ℕ → RequestArguments → ℕ → FilterState → FilterState
pass_on seq request token s = forward seq request token (
    if is_cancellable request
    then add_cancellable token s
    else if is_cancelling request
    then cancel_all s
    else s)

abbrev pub clean_out : FilterState → FilterState
clean_out s = record s {
  pending_requests = retain_pending s.tokens s.pending_requests;
  cancellable_requests = retain_held s.tokens s.cancellable_requests;
}

-- a new token, with its first receiver
abbrev pub new_token : FilterState → FilterState
new_token s = record s { tokens = s.tokens ++ operate subscribe Cancellation.new ∷ [] }

unfoldable pub dispatch : ℕ → RequestArguments → ℕ → FilterState → FilterState
unfolding is_cancellable is_cancelling send_all modify
dispatch seq (cancel id) token s = cancel_request id token s
dispatch seq request token s = pass_on seq request token s

unfoldable pub receive : ℕ → RequestArguments → FilterState → FilterState
unfolding dispatch retain_pending retain_held
receive seq request s = dispatch seq request (length s.tokens) (clean_out (new_token s))

-- What happens to the filter: a request arrives, or the session does something with the receiver
-- of a token.
pub data FilterEvent : Type 0 where
  request : ℕ → RequestArguments → FilterEvent
  receiver_cloned receiver_dropped : ℕ → FilterEvent
  callback_added : ℕ → ℕ → FilterEvent

unfoldable pub filter_step : FilterEvent → FilterState → FilterState
unfolding receive
filter_step (request seq args) s = receive seq args s
filter_step (receiver_cloned i) s = record s { tokens = modify i (operate clone_receiver) s.tokens }
filter_step (receiver_dropped i) s = record s { tokens = modify i (operate drop_receiver) s.tokens }
filter_step (callback_added i c) s = record s {
  tokens = modify i (operate (add_callback c)) s.tokens;
}

unfoldable pub filter_all : List FilterEvent → FilterState → FilterState
filter_all [] s = s
filter_all (e ∷ es) s = filter_all es (filter_step e s)
