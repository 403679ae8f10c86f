-- ===== src/Session/Tokens.antt =====
-- Cancellation tokens in the filter's store, and what the filter's lists keep of them.
use vscode_lldb.Common.{
  ℕ, zero, suc, ◌<◌, ◌≡◌, inl, inr, refl, sym, ap, ◌∙◌, Bool, true, false, Option, none, some, List,
  [], ◌∷◌, ◌==◌, if◌then◌else◌, length, get_elem?, arith, Bool-cases,
}
use mathlib.Core.Option
use vscode_lldb.Common.Map.{Map, get, nat_eq}
use vscode_lldb.Cancellation.{
  Inner, Operation, subscribe, send, clone_receiver, drop_receiver, add_callback, operate,
}
use vscode_lldb.Cancellation.Calling.{IsIn}
use vscode_lldb.Session.Filter.{
  modify, get_elem?-modify, is_held, retain_pending, retain_held, send_all,
}

abbrev pub flag_of : Option Inner → Bool
flag_of none = false
flag_of (some inner) = inner.flag

abbrev pub is_flagged : List Inner → ℕ → Bool
is_flagged tokens i = flag_of (get_elem? tokens i)

pub length-modify :
    (i : ℕ) (f : Inner → Inner) (xs : List Inner) → length (modify i f xs) ≡ length xs
unfolding modify
length-modify i f [] = refl
length-modify zero f (x ∷ xs) = refl
length-modify (suc i) f (x ∷ xs) = ap suc (length-modify i f xs)

pub length-send_all :
    (is : List ℕ) (tokens : List Inner) → length (send_all is tokens) ≡ length tokens
unfolding send_all
length-send_all [] tokens = refl
length-send_all (i ∷ is) tokens = length-send_all is _ ∙ length-modify i (operate send) tokens

-- A cancellation stays, whatever is done with a token.
pub is_flagged-modify :
    (i j : ℕ) (o : Operation) (tokens : List Inner)
    → is_flagged tokens j ≡ true
    → is_flagged (modify i (operate o) tokens) j ≡ true
is_flagged-modify i j o tokens h =
    rw (get_elem?-modify i j (operate o) tokens) (by_case (get_elem? tokens j) (i == j) o h)
  where
    by_case :
        (t : Option Inner) (b : Bool) (o : Operation)
        → flag_of t ≡ true
        → flag_of (if b then Option.map (operate o) t else t) ≡ true
    by_case none b o h = cc h
    by_case (some inner) false o h = h
    by_case (some inner) true subscribe h = unfold operate in h
    by_case (some inner) true send h = unfold operate in refl
    by_case (some inner) true clone_receiver h = unfold operate in h
    by_case (some inner) true drop_receiver h = unfold operate in h
    by_case (some inner) true (add_callback c) h = unfold operate in h

pub is_flagged-send :
    (i : ℕ) (tokens : List Inner)
    → i < length tokens
    → is_flagged (modify i (operate send) tokens) i ≡ true
unfolding modify operate
is_flagged-send i [] h = absurd (omega arith)
is_flagged-send zero (t ∷ tokens) h = refl
is_flagged-send (suc i) (t ∷ tokens) h = is_flagged-send i tokens (omega arith)

pub is_flagged-send_all_old :
    (is : List ℕ) (tokens : List Inner) (i : ℕ)
    → is_flagged tokens i ≡ true
    → is_flagged (send_all is tokens) i ≡ true
unfolding send_all
is_flagged-send_all_old [] tokens i h = h
is_flagged-send_all_old (j ∷ is) tokens i h =
    is_flagged-send_all_old is _ i (is_flagged-modify j i send tokens h)

pub is_flagged-send_all :
    (is : List ℕ) (tokens : List Inner) (i : ℕ)
    → i < length tokens
    → IsIn i is
    → is_flagged (send_all is tokens) i ≡ true
unfolding send_all
is_flagged-send_all [] tokens i h m = absurd m
is_flagged-send_all (j ∷ is) tokens i h (inl e) =
    is_flagged-send_all_old is _ i (rw (sym e) (is_flagged-send i tokens h))
is_flagged-send_all (j ∷ is) tokens i h (inr m) =
    is_flagged-send_all is _ i (omega (arith, h, length-modify j (operate send) tokens)) m

pub IsIn-retain_held :
    (tokens : List Inner) (is : List ℕ) (i : ℕ)
    → IsIn i is
    → is_held tokens i ≡ true
    → IsIn i (retain_held tokens is)
unfolding retain_held
IsIn-retain_held tokens [] i m h = m
IsIn-retain_held tokens (j ∷ is) i (inl e) h = rw (sym e) (rw h (inl refl))
IsIn-retain_held tokens (j ∷ is) i (inr m) h = elim (Bool-cases (is_held tokens j)) [
  | inl k ↦ rw k (inr (IsIn-retain_held tokens is i m h))
  | inr k ↦ rw k (IsIn-retain_held tokens is i m h)
]

pub get-retain_pending :
    (tokens : List Inner) (m : Map ℕ ℕ) (seq i : ℕ)
    → get seq m ≡ some i
    → is_held tokens i ≡ true
    → get seq (retain_pending tokens m) ≡ some i
unfolding retain_pending get
get-retain_pending tokens [] seq i e h = cc e
get-retain_pending tokens ((s, j) ∷ m) seq i e h = elim (Bool-cases (seq == s)) [
  | inl same ↦ let eq : j ≡ i = ground (arith, same, e) in rw (eq, h) (rw same refl)
  | inr other ↦ elim (Bool-cases (is_held tokens j)) [
    | inl k ↦ rw k (rw other (get-retain_pending tokens m seq i (rw other at e) h))
    | inr k ↦ rw k (get-retain_pending tokens m seq i (rw other at e) h)
  ]
]
