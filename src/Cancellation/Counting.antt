-- ===== src/Cancellation/Counting.antt =====
-- The count of the receivers.
use vscode_lldb.Common.{
  ℕ, suc, zero, ◌^◌, ◌<◌, ◌≡◌, Option, none, some, List, [], ◌∷◌, arith, ltb, if◌then◌else◌,
}
use vscode_lldb.Cancellation.{
  Inner, Operation, subscribe, send, clone_receiver, drop_receiver, add_callback, operate,
  operate_all,
}

abbrev one_more : ℕ → Option ℕ
one_more n = if ltb (suc n) (2 ^ 16) then some (suc n) else none

abbrev one_less : ℕ → Option ℕ
one_less zero = none
one_less (suc n) = some n

-- how many receivers there are after an operation, if one is only dropped while there is one, and
-- there are never 2 ^ 16
abbrev pub receivers_after : Operation → ℕ → Option ℕ
receivers_after subscribe n = one_more n
receivers_after clone_receiver n = one_more n
receivers_after drop_receiver n = one_less n
receivers_after send n = some n
receivers_after (add_callback c) n = some n

abbrev pub Receivers : List Operation → ℕ → ℕ → Type 0
Receivers [] n m = n ≡ m
Receivers (o ∷ os) n m = (k : ℕ) × (receivers_after o n ≡ some k) × Receivers os k m

count-operate :
    (o : Operation) (inner : Inner) (n k : ℕ)
    → inner.receiver_count ≡ n
    → n < 2 ^ 16
    → receivers_after o n ≡ some k
    → ((operate o inner).receiver_count ≡ k) × (k < 2 ^ 16)
unfolding operate
count-operate subscribe inner n k h b r = (ground (arith, h, b, r), ground (arith, r))
count-operate clone_receiver inner n k h b r = (ground (arith, h, b, r), ground (arith, r))
count-operate drop_receiver inner zero k h b r = cc
count-operate drop_receiver inner (suc n) k h b r =
    let e : n ≡ k = ground (arith, r) in (omega (arith, h, b, e), omega (arith, b, e))
count-operate send inner n k h b r = (ground (arith, h, r), ground (arith, b, r))
count-operate (add_callback c) inner n k h b r = (ground (arith, h, r), ground (arith, b, r))

-- Whatever is done with the senders and receivers, and in whatever order: while there are fewer than
-- 2 ^ 16 receivers and only existing ones are dropped, the count is their number.
pub count-operate_all :
    (os : List Operation) (inner : Inner) (n m : ℕ)
    → inner.receiver_count ≡ n
    → n < 2 ^ 16
    → Receivers os n m
    → (operate_all os inner).receiver_count ≡ m
unfolding operate_all
count-operate_all [] inner n m h b r = ground (arith, h, r)
count-operate_all (o ∷ os) inner n m h b (k, step, rest) =
    let (count, bound) = count-operate o inner n k h b step in
    count-operate_all os (operate o inner) k m count bound rest
