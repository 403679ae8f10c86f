-- ===== src/Session/CancelRequest.antt =====
-- The request `cancel`, which cancels a request by its number.
use vscode_lldb.Common.{
  ℕ, ◌<◌, ◌≡◌, ◌≢◌, inl, inr, refl, ◌∙◌, true, none, some, List, [], ◌∷◌, ◌++◌, ==_iff, length,
  arith, Bool-cases,
}
use vscode_lldb.Common.Int.{ℤ}
use vscode_lldb.Common.Map.{get, nat_eq, get-insert, get-remove}
use vscode_lldb.Cancellation.{clone_receiver, drop_receiver, add_callback, operate}
use vscode_lldb.Session.Filter.{
  RequestArguments, cancel, FilterState, send_optional, as_u32, is_cancellable, is_cancelling,
  dispatch, pass_on, receive, clean_out, new_token, FilterEvent, request, receiver_cloned,
  receiver_dropped, callback_added, filter_step, filter_all,
}
use vscode_lldb.Session.Tokens.{
  is_flagged, length-modify, length-send_all, is_flagged-modify, is_flagged-send,
  get-retain_pending,
}
use vscode_lldb.Session.Cancelling.{
  IsHeld, StaysHeld, is_held-new_token, length-new_token, length-send_optional,
}

-- A token that is in the store, and pending under the number of its request.
record IsPending (seq i : ℕ) (s : FilterState) : Type 0 where
  inside : i < length s.tokens
  pending : get seq s.pending_requests ≡ some i

clean_out-IsPending :
    (seq i : ℕ) (s : FilterState)
    → IsHeld i s
    → IsPending seq i s
    → IsPending seq i (clean_out (new_token s))
clean_out-IsPending seq i s held w = record {
  inside = omega (arith, length-new_token s, w.inside);
  pending =
      get-retain_pending (new_token s).tokens s.pending_requests seq i w.pending
        (is_held-new_token s i w.inside ∙ held);
}

pass_on-IsPending :
    (seq i seq' : ℕ) (args : RequestArguments) (token : ℕ) (s : FilterState)
    → seq ≢ seq'
    → IsPending seq i s
    → IsPending seq i (pass_on seq' args token s)
pass_on-IsPending seq i seq' args token s ne w = elim (Bool-cases (is_cancellable args)) [
  | inl c ↦ rw c (record {
    inside = w.inside;
    pending = ground (arith, get-insert seq seq' token s.pending_requests, w.pending);
  })
  | inr c ↦ elim (Bool-cases (is_cancelling args)) [
    | inl k ↦ rw c (
        rw k (record {
          inside = omega (arith, w.inside, length-send_all s.cancellable_requests s.tokens);
          pending = ground (arith, get-insert seq seq' token s.pending_requests, w.pending);
        }))
    | inr k ↦ rw c (
        rw k (record {
          inside = w.inside;
          pending = ground (arith, get-insert seq seq' token s.pending_requests, w.pending);
        }))
  ]
]

-- an event that neither reuses the request's number nor cancels it by that number
abbrev pub Spares : ℕ → FilterEvent → Type 0
Spares seq (request seq' (cancel none)) = Unit
Spares seq (request seq' (cancel (some id))) = seq ≢ as_u32 id
Spares seq (request seq' args) = seq ≢ seq'
Spares seq e = Unit

abbrev pub AllSpare : ℕ → List FilterEvent → Type 0
AllSpare seq [] = Unit
AllSpare seq (e ∷ es) = Spares seq e × AllSpare seq es

dispatch-IsPending :
    (seq i seq' : ℕ) (args : RequestArguments) (token : ℕ) (s : FilterState)
    → Spares seq (request seq' args)
    → IsPending seq i s
    → IsPending seq i (dispatch seq' args token s)
unfolding dispatch
dispatch-IsPending seq i seq' (cancel none) token s spare w = record {
  inside = omega (arith, w.inside, length-modify token (operate drop_receiver) s.tokens);
  pending = w.pending;
}
dispatch-IsPending seq i seq' (cancel (some id)) token s spare w =
    let o = get (as_u32 id) s.pending_requests in
    record {
      inside = omega (
        arith,
        w.inside,
        length-modify token (operate drop_receiver) (send_optional o s.tokens),
        length-send_optional o s.tokens,
      );
      pending = ground (arith, get-remove seq (as_u32 id) s.pending_requests, w.pending);
    }
dispatch-IsPending seq i seq' args token s spare w =
    pass_on-IsPending seq i seq' args token s spare w

step-IsPending :
    (seq i : ℕ) (e : FilterEvent) (s : FilterState)
    → Spares seq e
    → IsHeld i s
    → IsPending seq i s
    → IsPending seq i (filter_step e s)
unfolding filter_step receive
step-IsPending seq i (request seq' args) s spare held w =
    dispatch-IsPending seq i seq' args (length s.tokens) (clean_out (new_token s)) spare
      (clean_out-IsPending seq i s held w)
step-IsPending seq i (receiver_cloned j) s spare held w = record {
  inside = omega (arith, w.inside, length-modify j (operate clone_receiver) s.tokens);
  pending = w.pending;
}
step-IsPending seq i (receiver_dropped j) s spare held w = record {
  inside = omega (arith, w.inside, length-modify j (operate drop_receiver) s.tokens);
  pending = w.pending;
}
step-IsPending seq i (callback_added j c) s spare held w = record {
  inside = omega (arith, w.inside, length-modify j (operate (add_callback c)) s.tokens);
  pending = w.pending;
}

all-IsPending :
    (seq i : ℕ) (es : List FilterEvent) (s : FilterState)
    → AllSpare seq es
    → StaysHeld i es s
    → IsPending seq i s
    → IsPending seq i (filter_all es s) × IsHeld i (filter_all es s)
unfolding filter_all
all-IsPending seq i [] s spare held w = (w, held)
all-IsPending seq i (e ∷ es) s spare held w =
    all-IsPending seq i es (filter_step e s) spare.1 held.1
      (step-IsPending seq i e s spare.0 held.0 w)

-- a request that is forwarded
abbrev pub IsForwarded : RequestArguments → Type 0
IsForwarded (cancel id) = ⊥
IsForwarded args = Unit

passed_on-IsPending :
    (seq : ℕ) (args : RequestArguments) (token : ℕ) (s : FilterState)
    → token < length s.tokens
    → IsPending seq token (pass_on seq args token s)
      × ((pass_on seq args token s).forwarded ≡ s.forwarded ++ (seq, args, token) ∷ [])
passed_on-IsPending seq args token s h = elim (Bool-cases (is_cancellable args)) [
  | inl c ↦ rw c (
    record {
      inside = h;
      pending = ground (arith, get-insert seq seq token s.pending_requests, ==_iff seq seq);
    },
    refl,
  )
  | inr c ↦ elim (Bool-cases (is_cancelling args)) [
    | inl k ↦ rw c (
        rw k (
          record {
            inside = omega (arith, h, length-send_all s.cancellable_requests s.tokens);
            pending = ground (arith, get-insert seq seq token s.pending_requests, ==_iff seq seq);
          },
          refl,
        ))
    | inr k ↦ rw c (
        rw k (
          record {
            inside = h;
            pending = ground (arith, get-insert seq seq token s.pending_requests, ==_iff seq seq);
          },
          refl,
        ))
  ]
]

dispatch-forwarded :
    (seq : ℕ) (args : RequestArguments) (token : ℕ) (s : FilterState)
    → IsForwarded args
    → dispatch seq args token s ≡ pass_on seq args token s
unfolding dispatch
dispatch-forwarded seq (cancel id) token s h = absurd h
dispatch-forwarded seq args token s h = refl

received-IsPending :
    (seq : ℕ) (args : RequestArguments) (s : FilterState)
    → IsForwarded args
    → IsPending seq (length s.tokens) (receive seq args s)
      × ((receive seq args s).forwarded ≡ s.forwarded ++ (seq, args, length s.tokens) ∷ [])
unfolding receive
received-IsPending seq args s f =
    rw (dispatch-forwarded seq args (length s.tokens) (clean_out (new_token s)) f) (
      passed_on-IsPending seq args (length s.tokens) (clean_out (new_token s))
        (omega (arith, length-new_token s)))

cancel-flags :
    (seq' : ℕ) (id : ℤ) (i : ℕ) (s : FilterState)
    → IsHeld i s
    → IsPending (as_u32 id) i s
    → is_flagged (receive seq' (cancel (some id)) s).tokens i ≡ true
unfolding receive
cancel-flags seq' id i s held w =
    let ready = clean_out-IsPending (as_u32 id) i s held w in
    is_flagged-modify (length s.tokens) i drop_receiver
      (send_optional (get (as_u32 id) (clean_out (new_token s)).pending_requests)
        (new_token s).tokens)
      (rw ready.pending (is_flagged-send i (new_token s).tokens ready.inside))

-- Every request but `cancel` is forwarded with a new token. If the session keeps the token's receiver,
-- and no other request reuses the number or cancels it first, a `cancel` request with that number,
-- taken as a `u32`, cancels it.
pub cancel_request_cancels :
    (args : RequestArguments) (s : FilterState) (es : List FilterEvent) (seq' : ℕ) (id : ℤ)
    → IsForwarded args
    → AllSpare (as_u32 id) es
    → StaysHeld (length s.tokens) es (receive (as_u32 id) args s)
    → ((receive (as_u32 id) args s).forwarded
        ≡ s.forwarded ++ (as_u32 id, args, length s.tokens) ∷ [])
      × (is_flagged
            (receive seq' (cancel (some id)) (filter_all es (receive (as_u32 id) args s))).tokens
            (length s.tokens)
          ≡ true)
cancel_request_cancels args s es seq' id f spare held =
    let (first, forwarded) = received-IsPending (as_u32 id) args s f in
    let (w, still) =
      all-IsPending (as_u32 id) (length s.tokens) es (receive (as_u32 id) args s) spare held
        first in
    (
      forwarded,
      cancel-flags seq' id (length s.tokens) (filter_all es (receive (as_u32 id) args s)) still w,
    )
