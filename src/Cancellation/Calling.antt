-- ===== src/Cancellation/Calling.antt =====
-- Cancellation, and the callbacks that it calls.
use vscode_lldb.Common.{ℕ, ◌≡◌, refl, true, List, [], ◌∷◌, ◌++◌, ◌⊎◌, inl, inr}
use vscode_lldb.Cancellation.{
  Inner, Operation, subscribe, send, clone_receiver, drop_receiver, add_callback, operate,
  operate_all,
}

abbrev pub IsIn : ℕ → List ℕ → Type 0
IsIn c [] = ⊥
IsIn c (x ∷ xs) = (c ≡ x) ⊎ IsIn c xs

pub IsIn-append : (c : ℕ) (xs ys : List ℕ) → IsIn c xs ⊎ IsIn c ys → IsIn c (xs ++ ys)
IsIn-append c [] ys (inl h) = absurd h
IsIn-append c [] ys (inr h) = h
IsIn-append c (x ∷ xs) ys (inl (inl e)) = inl e
IsIn-append c (x ∷ xs) ys (inl (inr h)) = inr (IsIn-append c xs ys (inl h))
IsIn-append c (x ∷ xs) ys (inr h) = inr (IsIn-append c xs ys (inr h))

-- what no operation undoes
record Kept (before after : Inner) : Type 0 where
  flag : before.flag ≡ true → after.flag ≡ true
  callbacks : (c : ℕ) → IsIn c before.callbacks → IsIn c after.callbacks
  called : (c : ℕ) → IsIn c before.called → IsIn c after.called

operate-Kept : (o : Operation) (inner : Inner) → Kept inner (operate o inner)
unfolding operate
operate-Kept subscribe inner = record { flag = λ h. h; callbacks = λ c h. h; called = λ c h. h }
operate-Kept clone_receiver inner = record {
  flag = λ h. h;
  callbacks = λ c h. h;
  called = λ c h. h;
}
operate-Kept drop_receiver inner = record { flag = λ h. h; callbacks = λ c h. h; called = λ c h. h }
operate-Kept send inner = record {
  flag = λ h. refl;
  callbacks = λ c h. h;
  called = λ c h. IsIn-append c inner.called inner.callbacks (inl h);
}
operate-Kept (add_callback x) inner = record {
  flag = λ h. h;
  callbacks = λ c h. IsIn-append c inner.callbacks (x ∷ []) (inl h);
  called = λ c h. h;
}

operate_all-Kept : (os : List Operation) (inner : Inner) → Kept inner (operate_all os inner)
unfolding operate_all
operate_all-Kept [] inner = record { flag = λ h. h; callbacks = λ c h. h; called = λ c h. h }
operate_all-Kept (o ∷ os) inner =
    let first = operate-Kept o inner in
    let rest = operate_all-Kept os (operate o inner) in
    record {
      flag = λ h. rest.flag (first.flag h);
      callbacks = λ c h. rest.callbacks c (first.callbacks c h);
      called = λ c h. rest.called c (first.called c h);
    }

-- A callback that is added before a cancellation is requested is called by it, and from then on
-- the receivers see the cancellation, whatever happens before, between and afterwards.
pub cancellation_calls :
    (c : ℕ) (inner : Inner) (between after : List Operation)
    → IsIn c
        (operate_all after
          (operate send (operate_all between (operate (add_callback c) inner)))).called
      × ((operate_all after
            (operate send (operate_all between (operate (add_callback c) inner)))).flag
          ≡ true)
unfolding operate
cancellation_calls c inner between after =
    let added = operate (add_callback c) inner in
    let later = operate_all between added in
    let there =
      (operate_all-Kept between added).callbacks c
        (IsIn-append c inner.callbacks (c ∷ []) (inr (inl refl))) in
    let kept = operate_all-Kept after (operate send later) in
    (kept.called c (IsIn-append c later.called later.callbacks (inr there)), kept.flag refl)
