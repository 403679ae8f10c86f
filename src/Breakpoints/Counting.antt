-- ===== src/Breakpoints/Counting.antt =====
-- Which hits of a breakpoint count, and what comes of one: the proofs about `on_breakpoint_hit`.
use vscode_lldb.Common.{
  ℕ, suc, ◌+◌, ◌*◌, ◌%◌, ◌^◌, ◌≤◌, ◌<◌, ◌≡◌, inl, inr, refl, subst, Bool, true, false, Option, none,
  some, List, [], ◌∷◌, arith, ltb, leb, ◌==◌, ==_iff, ◌/◌, if◌then◌else◌, not, ◌&&◌, Bool-cases, ap,
}
use native.Mathlib.Nat.{div-add-mod', mul-mod_left}
use vscode_lldb.Common.Outcome.{Outcome, ok}
use vscode_lldb.Common.Text.{Text}
use vscode_lldb.Breakpoints.{HitCondition, lt, le, eq, ge, gt, mod_, BreakpointInfo}
use vscode_lldb.Breakpoints.Hit.{
  Condition, unconditional, no_python, holds, failed, is_excluded, check_hit_condition,
  check_optional, Verdict, log_or_stop, count_hit, on_breakpoint_hit, Hit, hits,
}

-- The hit condition, as the documentation of its operators has it.
abbrev pub Meets : Option HitCondition → ℕ → Type 0
Meets none n = Unit
Meets (some (lt k)) n = n < k
Meets (some (le k)) n = n ≤ k
Meets (some (eq k)) n = n ≡ k
Meets (some (ge k)) n = k ≤ n
Meets (some (gt k)) n = k < n
Meets (some (mod_ k)) n = (q : ℕ) × (n ≡ q * k)

abbrev pub CanDivide : Option HitCondition → Type 0
CanDivide (some (mod_ k)) = 0 < k
CanDivide _ = Unit

-- The hit is the `n`-th: the debuggee stops, or the message is printed, where the condition is met.
abbrev pub IsNthHit : (Text → Outcome Text) → BreakpointInfo → ℕ → Verdict → Type 0
IsNthHit format info n v =
    (v.after ≡ record info { hit_count = n })
    × (v.stop ≡ true → Meets info.hit_condition n × (info.log_message ≡ none))
    × (Meets info.hit_condition n → info.log_message ≡ none → v.stop ≡ true)
    × ((m : Text)
        → Meets info.hit_condition n
        → info.log_message ≡ some m
        → (line : Text) × (format m ≡ ok line) × (v.printed ≡ some line))

-- the breakpoint's log message, if there is one, can be formatted
abbrev pub CanFormat : (Text → Outcome Text) → Option Text → Type 0
CanFormat format none = Unit
CanFormat format (some m) = (line : Text) × (format m ≡ ok line)

divides : (k n : ℕ) → (q : ℕ) × (n ≡ q * k) → (n % k == 0) ≡ true
divides k n (q, e) = (==_iff (n % k) 0).1 (rw e (mul-mod_left q k))

check-Meets :
    (c : Option HitCondition) (n : ℕ)
    → CanDivide c
    → (b : Bool) × (check_optional c n ≡ ok b) × (b ≡ true → Meets c n) × (Meets c n → b ≡ true)
unfolding check_hit_condition
check-Meets none n d = (true, refl, λ e. tt, λ m. refl)
check-Meets (some (lt k)) n d = (ltb n k, refl, λ e. ground arith, λ m. ground arith)
check-Meets (some (le k)) n d = (leb n k, refl, λ e. ground arith, λ m. ground arith)
check-Meets (some (eq k)) n d = (n == k, refl, λ e. ground arith, λ m. ground arith)
check-Meets (some (ge k)) n d = (leb k n, refl, λ e. ground arith, λ m. ground arith)
check-Meets (some (gt k)) n d = (ltb k n, refl, λ e. ground arith, λ m. ground arith)
check-Meets (some (mod_ k)) n d =
    (n % k == 0, ground arith, λ e. (n / k, ground (arith, div-add-mod' n k)), λ m. divides k n m)

module _ (format : Text → Outcome Text) (info : BreakpointInfo) (n : ℕ) where
  abbrev counted : BreakpointInfo
  counted = record info { hit_count = n }

  abbrev verdict : Bool → Option Text → Outcome Verdict
  verdict b message =
      if b
      then log_or_stop format counted message
      else ok (record { stop = false; printed = none; after = counted })

  IsNthHit-verdict :
      (b : Bool) (message : Option Text)
      → info.log_message ≡ message
      → CanFormat format message
      → (b ≡ true → Meets info.hit_condition n)
      → (Meets info.hit_condition n → b ≡ true)
      → (v : Verdict) × (verdict b message ≡ ok v) × IsNthHit format info n v
  IsNthHit-verdict true none e f sound complete = (
    record { stop = true; printed = none; after = counted },
    refl,
    (refl, λ s. (sound refl, e), λ m l. refl, λ m met l. cc (e, l)),
  )
  IsNthHit-verdict true (some t) e (line, runs) sound complete = (
    record { stop = false; printed = some line; after = counted },
    rw runs refl,
    (refl, λ s. cc, λ m l. cc (e, l), λ m met l. (line, cc (e, l, runs), refl)),
  )
  IsNthHit-verdict false message e f sound complete = (
    record { stop = false; printed = none; after = counted },
    refl,
    (refl, λ s. cc, λ m l. complete m, λ m met l. cc (complete met)),
  )

count_hit-IsNthHit :
    (format : Text → Outcome Text) (info : BreakpointInfo) (n : ℕ)
    → CanDivide info.hit_condition
    → CanFormat format info.log_message
    → suc n < 2 ^ 32
    → (v : Verdict) × (count_hit format (record info { hit_count = n }) ≡ ok v)
      × IsNthHit format info (suc n) v
unfolding count_hit
count_hit-IsNthHit format info n d f h =
    let next : (n + 1) % 2 ^ 32 ≡ suc n = omega arith in
    let (b, runs, sound, complete) = check-Meets info.hit_condition (suc n) d in
    let (v, ends, nth) =
      IsNthHit-verdict format info (suc n) b info.log_message refl f sound complete in
    (v, rw next (rw runs ends), nth)

-- The condition is fulfilled.
abbrev pub passes : Condition → Bool
passes unconditional = true
passes no_python = false
passes failed = false
passes (holds b) = b

-- The hit is not excluded, and the condition is fulfilled.
abbrev pub counts : List Text → Hit → Bool
counts exclusions h = not (is_excluded exclusions h.symbols) && passes h.condition

-- the number of the hits that count
abbrev pub number : List Text → List Hit → ℕ
number exclusions [] = 0
number exclusions (h ∷ hs) =
    let rest = number exclusions hs in if counts exclusions h then suc rest else rest

-- Nobody can say whether the condition is fulfilled.
abbrev pub is_unknown : Condition → Bool
is_unknown no_python = true
is_unknown failed = true
is_unknown _ = false

-- The verdict on a hit, after `n` that have counted: on the next hit that counts if it does, and
-- otherwise a stop only where the hit is not excluded and its condition cannot be evaluated.
abbrev pub IsJudged : BreakpointInfo → Hit → ℕ → Verdict → Type 0
IsJudged info h n v =
    (counts info.exclusions h ≡ true → IsNthHit h.format info (suc n) v)
    × (counts info.exclusions h ≡ false
        → v ≡ record {
          stop = not (is_excluded info.exclusions h.symbols) && is_unknown h.condition;
          printed = none;
          after = record info { hit_count = n };
        })

-- What the log message of a breakpoint needs at each of its hits.
abbrev pub CanFormatAll : Option Text → List Hit → Type 0
CanFormatAll message [] = Unit
CanFormatAll message (h ∷ hs) = CanFormat h.format message × CanFormatAll message hs

module _ (info : BreakpointInfo) (h : Hit) (n : ℕ) where
  abbrev before : BreakpointInfo
  before = record info { hit_count = n }

  abbrev Judged : Outcome Verdict → Type 0
  Judged o = (v : Verdict) × (o ≡ ok v) × IsJudged info h n v

  count_hit-Judged :
      counts info.exclusions h ≡ true
      → CanDivide info.hit_condition
      → CanFormat h.format info.log_message
      → suc n < 2 ^ 32
      → Judged (count_hit h.format before)
  count_hit-Judged e d f small =
      let (v, runs, nth) = count_hit-IsNthHit h.format info n d f small in
      (v, runs, (λ yes'. nth, λ no'. cc (e, no')))

  on_breakpoint_hit-Judged :
      CanDivide info.hit_condition
      → CanFormat h.format info.log_message
      → suc n < 2 ^ 32
      → (x : Bool) (c : Condition) → is_excluded info.exclusions h.symbols ≡ x
      → h.condition ≡ c
      → Judged (on_breakpoint_hit h.format h.symbols h.condition before)
  unfolding on_breakpoint_hit
  on_breakpoint_hit-Judged d f small true c e k = rw e (
    record { stop = false; printed = none; after = before },
    refl,
    (λ yes'. cc yes', λ no'. refl),
  )
  on_breakpoint_hit-Judged d f small false unconditional e k =
      subst Judged (rw (e, k) refl) (count_hit-Judged (rw (e, k) refl) d f small)
  on_breakpoint_hit-Judged d f small false no_python e k =
      rw (e, k)
        (
          record { stop = true; printed = none; after = before },
          refl,
          (λ yes'. cc yes', λ no'. refl),
        )
  on_breakpoint_hit-Judged d f small false failed e k =
      rw (e, k)
        (
          record { stop = true; printed = none; after = before },
          refl,
          (λ yes'. cc yes', λ no'. refl),
        )
  on_breakpoint_hit-Judged d f small false (holds true) e k =
      subst Judged (rw (e, k) refl) (count_hit-Judged (rw (e, k) refl) d f small)
  on_breakpoint_hit-Judged d f small false (holds false) e k =
      rw (e, k)
        (
          record { stop = false; printed = none; after = before },
          refl,
          (λ yes'. cc yes', λ no'. refl),
        )

IsJudged-after :
    (info : BreakpointInfo) (h : Hit) (earlier : List Hit) (v : Verdict)
    → IsJudged info h (number info.exclusions earlier) v
    → v.after ≡ record info { hit_count = number info.exclusions (h ∷ earlier) }
IsJudged-after info h earlier v j = elim (Bool-cases (counts info.exclusions h)) [
  | inl e ↦ rw e (j.0 e).0
  | inr e ↦ rw e (ap (λ (w : Verdict). w.after) (j.1 e))
]

hits-counted :
    (hs : List Hit) (info : BreakpointInfo)
    → info.hit_count ≡ 0
    → CanDivide info.hit_condition
    → CanFormatAll info.log_message hs
    → suc (number info.exclusions hs) < 2 ^ 32
    → (v : Verdict) × (hits hs info ≡ ok v)
      × (v.after ≡ record info { hit_count = number info.exclusions hs })
unfolding hits
hits-counted [] info z d f small = (
  record { stop = false; printed = none; after = info },
  refl,
  λ i. record info { hit_count = z i },
)
hits-counted (h ∷ earlier) info z d f small =
    let fewer : suc (number info.exclusions earlier) < 2 ^ 32 = ground (arith, small) in
    let (v, runs, after) = hits-counted earlier info z d f.1 fewer in
    let (w, runs', judged) =
      on_breakpoint_hit-Judged info h (number info.exclusions earlier) d f.0 fewer
        (is_excluded info.exclusions h.symbols) h.condition refl refl in
    (w, rw runs (rw after runs'), IsJudged-after info h earlier w judged)

-- A breakpoint without hits, with no `% 0` as its hit condition and whose log message, if it has
-- one, can be formatted, is hit again and again, each time with some stack and some outcome of its
-- Python condition. Let n of the earlier hits, fewer than 2^32 - 1, count, that is be not excluded and
-- with a condition that is fulfilled. If the latest hit counts too, the count becomes n + 1, the
-- debuggee stops exactly if the hit condition holds of n + 1 and there is no log message, and where it
-- holds the formatted log message is printed. If it does not count, the count stays n, nothing is
-- printed, and the debuggee stops exactly if the hit is not excluded and its condition cannot be
-- evaluated.
pub hits-IsNthHit :
    (h : Hit) (earlier : List Hit) (info : BreakpointInfo)
    → info.hit_count ≡ 0
    → CanDivide info.hit_condition
    → CanFormatAll info.log_message (h ∷ earlier)
    → suc (number info.exclusions earlier) < 2 ^ 32
    → (v : Verdict) × (hits (h ∷ earlier) info ≡ ok v)
      × IsJudged info h (number info.exclusions earlier) v
unfolding hits
hits-IsNthHit h earlier info z d f small =
    let (v, runs, after) = hits-counted earlier info z d f.1 small in
    let (w, runs', judged) =
      on_breakpoint_hit-Judged info h (number info.exclusions earlier) d f.0 small
        (is_excluded info.exclusions h.symbols) h.condition refl refl in
    (w, rw runs (rw after runs'), judged)
