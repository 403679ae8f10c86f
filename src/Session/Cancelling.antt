-- ===== src/Session/Cancelling.antt =====
-- Which requests the filter cancels.
use vscode_lldb.Common.{
  ℕ, suc, ◌<◌, ◌≡◌, ◌⊎◌, inl, inr, refl, ◌∙◌, true, false, Option, none, some, List, [], ◌∷◌, ◌++◌,
  length, arith, length-append, get_elem?-append_left, Bool-cases,
}
use vscode_lldb.Common.Map.{get, nat_eq}
use vscode_lldb.Cancellation.{
  Inner, Operation, subscribe, send, clone_receiver, drop_receiver, add_callback, operate,
}
use vscode_lldb.Cancellation
use vscode_lldb.Cancellation.Calling.{IsIn, IsIn-append}
use vscode_lldb.Session.Filter.{
  RequestArguments, cancel, scopes, variables, evaluate, continue_, pause, next, step_in, step_out,
  step_back, reverse_continue, terminate, disconnect, is_held, FilterState, retain_held,
  send_optional, as_u32, is_cancellable, is_cancelling, dispatch, pass_on, receive, clean_out,
  new_token, FilterEvent, request, receiver_cloned, receiver_dropped, callback_added, filter_step,
  filter_all,
}
use vscode_lldb.Session.Tokens.{
  is_flagged, length-modify, length-send_all, is_flagged-send_all, IsIn-retain_held,
}

-- a request for values, which may take long
pub data IsQuery : RequestArguments → Type 0 where
  scopes_query : IsQuery scopes
  variables_query : IsQuery variables
  evaluate_query : IsQuery evaluate

-- a request behind which such values are of no use
pub data IsResumption : RequestArguments → Type 0 where
  by_continue : IsResumption continue_
  by_pause : IsResumption pause
  by_next : IsResumption next
  by_step_in : IsResumption step_in
  by_step_out : IsResumption step_out
  by_step_back : IsResumption step_back
  by_reverse_continue : IsResumption reverse_continue
  by_terminate : IsResumption terminate
  by_disconnect : IsResumption disconnect

IsQuery-cancellable : {args : RequestArguments} → IsQuery args → is_cancellable args ≡ true
unfolding is_cancellable
IsQuery-cancellable scopes_query = refl
IsQuery-cancellable variables_query = refl
IsQuery-cancellable evaluate_query = refl

IsResumption-cancelling : {args : RequestArguments} → IsResumption args → is_cancelling args ≡ true
unfolding is_cancelling
IsResumption-cancelling by_continue = refl
IsResumption-cancelling by_pause = refl
IsResumption-cancelling by_next = refl
IsResumption-cancelling by_step_in = refl
IsResumption-cancelling by_step_out = refl
IsResumption-cancelling by_step_back = refl
IsResumption-cancelling by_reverse_continue = refl
IsResumption-cancelling by_terminate = refl
IsResumption-cancelling by_disconnect = refl

-- A token that is in the store, and among those that the next resumption cancels.
record IsListed (i : ℕ) (s : FilterState) : Type 0 where
  inside : i < length s.tokens
  listed : IsIn i s.cancellable_requests

-- the session still has the token's receiver
abbrev pub IsHeld : ℕ → FilterState → Type 0
IsHeld i s = is_held s.tokens i ≡ true

pub is_held-new_token :
    (s : FilterState) (i : ℕ)
    → i < length s.tokens
    → is_held (new_token s).tokens i ≡ is_held s.tokens i
is_held-new_token s i h =
    rw (get_elem?-append_left s.tokens (operate subscribe Cancellation.new ∷ []) i h) refl

pub length-new_token : (s : FilterState) → length (new_token s).tokens ≡ suc (length s.tokens)
length-new_token s = omega (arith, length-append s.tokens (operate subscribe Cancellation.new ∷ []))

clean_out-IsListed :
    (i : ℕ) (s : FilterState) → IsHeld i s → IsListed i s → IsListed i (clean_out (new_token s))
clean_out-IsListed i s held l = record {
  inside = omega (arith, length-new_token s, l.inside);
  listed =
      IsIn-retain_held (new_token s).tokens s.cancellable_requests i l.listed
        (is_held-new_token s i l.inside ∙ held);
}

pass_on-IsListed :
    (i seq : ℕ) (args : RequestArguments) (token : ℕ) (s : FilterState)
    → IsListed i s
    → IsListed i (pass_on seq args token s)
pass_on-IsListed i seq args token s l = elim (Bool-cases (is_cancellable args)) [
  | inl c ↦ rw c (record {
    inside = l.inside;
    listed = IsIn-append i s.cancellable_requests (token ∷ []) (inl l.listed);
  })
  | inr c ↦ elim (Bool-cases (is_cancelling args)) [
    | inl k ↦ rw c (
        rw k (record {
          inside = omega (arith, l.inside, length-send_all s.cancellable_requests s.tokens);
          listed = l.listed;
        }))
    | inr k ↦ rw c (rw k (record { inside = l.inside; listed = l.listed }))
  ]
]

pub length-send_optional :
    (o : Option ℕ) (tokens : List Inner) → length (send_optional o tokens) ≡ length tokens
length-send_optional none tokens = refl
length-send_optional (some i) tokens = length-modify i (operate send) tokens

dispatch-IsListed :
    (i seq : ℕ) (args : RequestArguments) (token : ℕ) (s : FilterState)
    → IsListed i s
    → IsListed i (dispatch seq args token s)
unfolding dispatch
dispatch-IsListed i seq (cancel none) token s l = record {
  inside = omega (arith, l.inside, length-modify token (operate drop_receiver) s.tokens);
  listed = l.listed;
}
dispatch-IsListed i seq (cancel (some id)) token s l =
    let o = get (as_u32 id) s.pending_requests in
    record {
      inside = omega (
        arith,
        l.inside,
        length-modify token (operate drop_receiver) (send_optional o s.tokens),
        length-send_optional o s.tokens,
      );
      listed = l.listed;
    }
dispatch-IsListed i seq args token s l = pass_on-IsListed i seq args token s l

step-IsListed :
    (i : ℕ) (e : FilterEvent) (s : FilterState)
    → IsHeld i s
    → IsListed i s
    → IsListed i (filter_step e s)
unfolding filter_step receive
step-IsListed i (request seq args) s held l =
    dispatch-IsListed i seq args (length s.tokens) (clean_out (new_token s))
      (clean_out-IsListed i s held l)
step-IsListed i (receiver_cloned j) s held l = record {
  inside = omega (arith, l.inside, length-modify j (operate clone_receiver) s.tokens);
  listed = l.listed;
}
step-IsListed i (receiver_dropped j) s held l = record {
  inside = omega (arith, l.inside, length-modify j (operate drop_receiver) s.tokens);
  listed = l.listed;
}
step-IsListed i (callback_added j c) s held l = record {
  inside = omega (arith, l.inside, length-modify j (operate (add_callback c)) s.tokens);
  listed = l.listed;
}

-- The session has the token's receiver all along.
abbrev pub StaysHeld : ℕ → List FilterEvent → FilterState → Type 0
StaysHeld i [] s = IsHeld i s
StaysHeld i (e ∷ es) s = IsHeld i s × StaysHeld i es (filter_step e s)

all-IsListed :
    (i : ℕ) (es : List FilterEvent) (s : FilterState)
    → StaysHeld i es s
    → IsListed i s
    → IsListed i (filter_all es s) × IsHeld i (filter_all es s)
unfolding filter_all
all-IsListed i [] s held l = (l, held)
all-IsListed i (e ∷ es) s held l =
    all-IsListed i es (filter_step e s) held.1 (step-IsListed i e s held.0 l)

pub dispatch-cancellable :
    (seq : ℕ) (args : RequestArguments) (token : ℕ) (s : FilterState)
    → (is_cancellable args ≡ true) ⊎ (is_cancelling args ≡ true)
    → dispatch seq args token s ≡ pass_on seq args token s
unfolding dispatch
dispatch-cancellable seq (cancel id) token s (inl h) = cc h
dispatch-cancellable seq (cancel id) token s (inr h) = cc h
dispatch-cancellable seq args token s h = refl

cancellable-ne-cancelling :
    (args : RequestArguments) → is_cancelling args ≡ true → is_cancellable args ≡ false
unfolding is_cancelling is_cancellable
cancellable-ne-cancelling scopes h = cc h
cancellable-ne-cancelling variables h = cc h
cancellable-ne-cancelling evaluate h = cc h
cancellable-ne-cancelling args h = refl

received-IsListed :
    (seq : ℕ) (args : RequestArguments) (s : FilterState)
    → is_cancellable args ≡ true
    → IsListed (length s.tokens) (receive seq args s)
      × ((receive seq args s).forwarded ≡ s.forwarded ++ (seq, args, length s.tokens) ∷ [])
unfolding receive
received-IsListed seq args s c =
    rw (dispatch-cancellable seq args (length s.tokens) (clean_out (new_token s)) (inl c)) (
      rw c (
        record {
          inside = omega (arith, length-new_token s);
          listed =
              IsIn-append (length s.tokens)
                (retain_held (new_token s).tokens s.cancellable_requests) (length s.tokens ∷ [])
                (inr (inl refl));
        },
        refl,
      ))

-- A `scopes`, `variables` or `evaluate` request is forwarded with a new token. If the session keeps the
-- token's receiver whatever else happens, a later `continue`, `pause`, `next`, `stepIn`, `stepOut`,
-- `stepBack`, `reverseContinue`, `terminate` or `disconnect` request cancels it.
pub resuming_cancels :
    (seq seq' : ℕ) (args args' : RequestArguments) (s : FilterState) (es : List FilterEvent)
    → IsQuery args
    → IsResumption args'
    → StaysHeld (length s.tokens) es (receive seq args s)
    → ((receive seq args s).forwarded ≡ s.forwarded ++ (seq, args, length s.tokens) ∷ [])
      × (is_flagged
            (receive seq' args' (filter_all es (receive seq args s))).tokens
            (length s.tokens)
          ≡ true)
unfolding receive
resuming_cancels seq seq' args args' s es query resumption held =
    let i : ℕ = length s.tokens in
    let c = IsQuery-cancellable query in
    let k = IsResumption-cancelling resumption in
    let (first, forwarded) = received-IsListed seq args s c in
    let (l, still) = all-IsListed i es (receive seq args s) held first in
    let u = filter_all es (receive seq args s) in
    let ready = clean_out-IsListed i u still l in
    (
      forwarded,
      rw (dispatch-cancellable seq' args' (length u.tokens) (clean_out (new_token u)) (inr k)) (
          rw (cancellable-ne-cancelling args' k) (
            rw k (
              is_flagged-send_all (clean_out (new_token u)).cancellable_requests
                (new_token u).tokens i ready.inside ready.listed))),
    )
