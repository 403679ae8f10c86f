-- ===== src/Breakpoints/Hit.antt =====
-- `on_breakpoint_hit`: whether the debuggee stops at a breakpoint, and the count of its hits. The
-- symbols on the stack, the verdict of the Python condition and the text of a log message come from
-- the rest of the session.
use vscode_lldb.Common.{
  ℕ, ◌+◌, ◌%◌, ◌^◌, ◌≡◌, ◌⊎◌, inl, inr, refl, Bool, true, false, Option, none, some, List, [], ◌∷◌,
  ltb, leb, ◌==◌, ◌∙◌, if◌then◌else◌,
}
use vscode_lldb.Common.Outcome.{Outcome, ok, panic, ◌>>=◌}
use vscode_lldb.Common.Text.{Text, text_eq}
use vscode_lldb.Breakpoints.{HitCondition, lt, le, eq, ge, gt, mod_, BreakpointInfo}

-- What the callback finds out about the condition of the breakpoint: there is none that it must
-- evaluate, Python is not there, or Python has evaluated it, with or without an error.
pub data Condition : Type 0 where
  unconditional : Condition
  no_python : Condition
  holds : Bool → Condition
  failed : Condition

unfoldable pub on_stack : Text → List Text → Bool
on_stack e [] = false
on_stack e (s ∷ symbols) = if text_eq s e then true else on_stack e symbols

-- `for exclusion in &bp_info.exclusions`
unfoldable pub is_excluded : List Text → List Text → Bool
unfolding on_stack
is_excluded [] symbols = false
is_excluded (e ∷ exclusions) symbols =
    if on_stack e symbols then true else is_excluded exclusions symbols

-- `hit_count % *n` panics where n is 0
unfoldable pub check_hit_condition : HitCondition → ℕ → Outcome Bool
check_hit_condition (lt n) count = ok (ltb count n)
check_hit_condition (le n) count = ok (leb count n)
check_hit_condition (eq n) count = ok (count == n)
check_hit_condition (ge n) count = ok (leb n count)
check_hit_condition (gt n) count = ok (ltb n count)
check_hit_condition (mod_ n) count = if n == 0 then panic else ok (count % n == 0)

abbrev pub check_optional : Option HitCondition → ℕ → Outcome Bool
check_optional none count = ok true
check_optional (some c) count = check_hit_condition c count

-- Whether to stop, what is printed, and the breakpoint behind the call.
pub record Verdict : Type 0 where
  pub stop : Bool
  pub printed : Option Text
  pub after : BreakpointInfo

-- the end of the callback: a log message is printed in place of a stop
abbrev pub log_or_stop : (Text → Outcome Text) → BreakpointInfo → Option Text → Outcome Verdict
log_or_stop format info none = ok (record { stop = true; printed = none; after = info })
log_or_stop format info (some m) = do
  line ← format m
  ok (record { stop = false; printed = some line; after = info })

-- the part of the callback behind the condition; the count is a `u32`
unfoldable pub count_hit : (Text → Outcome Text) → BreakpointInfo → Outcome Verdict
unfolding check_hit_condition
count_hit format info =
    let info' = record info { hit_count = (info.hit_count + 1) % 2 ^ 32 } in
    do
      should_stop ← check_optional info'.hit_condition info'.hit_count
      (if should_stop
          then log_or_stop format info' info'.log_message
          else ok (record { stop = false; printed = none; after = info' }))

abbrev pub unchanged : Bool → BreakpointInfo → Outcome Verdict
unchanged stop info = ok (record { stop = stop; printed = none; after = info })

unfoldable pub on_breakpoint_hit :
    (Text → Outcome Text) → List Text → Condition → BreakpointInfo → Outcome Verdict
unfolding is_excluded
on_breakpoint_hit format symbols condition info =
    let counted = count_hit format info in
    if is_excluded info.exclusions symbols then unchanged false info else (elim condition [
      | unconditional ↦ counted
      | no_python ↦ unchanged true info
      | failed ↦ unchanged true info
      | holds b ↦ if b then counted else unchanged false info
    ])

-- The condition lets the hit count.
abbrev pub Passes : Condition → Type 0
Passes unconditional = Unit
Passes no_python = ⊥
Passes failed = ⊥
Passes (holds b) = b ≡ true

-- What a call of the callback finds: the symbols on the stack, the condition, and what formatting a
-- log message in the frame comes to.
pub record Hit : Type 0 where
  pub symbols : List Text
  pub condition : Condition
  pub format : Text → Outcome Text

-- the breakpoint is hit again and again, the latest hit first
unfoldable pub hits : List Hit → BreakpointInfo → Outcome Verdict
hits [] info = unchanged false info
hits (h ∷ earlier) info =
    hits earlier info >>= λ v. on_breakpoint_hit h.format h.symbols h.condition v.after

-- A callback that passes the exclusions and the condition counts the hit.
Passes-count :
    (format : Text → Outcome Text) (symbols : List Text) (c : Condition) (info : BreakpointInfo)
    → is_excluded info.exclusions symbols ≡ false
    → Passes c
    → on_breakpoint_hit format symbols c info ≡ count_hit format info
unfolding on_breakpoint_hit
Passes-count format symbols unconditional info h p = rw h refl
Passes-count format symbols no_python info h p = absurd p
Passes-count format symbols failed info h p = absurd p
Passes-count format symbols (holds b) info h p = rw (h, p) refl

-- An excluded hit, and one whose condition is false, neither stops nor counts; one whose condition
-- fails to evaluate, or cannot be evaluated for want of Python, stops whatever the hit condition and
-- the log message say, and does not count either.
pub on_breakpoint_hit-uncounted :
    (format : Text → Outcome Text) (symbols : List Text) (c : Condition) (info : BreakpointInfo)
    → ((is_excluded info.exclusions symbols ≡ true
          → on_breakpoint_hit format symbols c info ≡ unchanged false info)
        × (is_excluded info.exclusions symbols ≡ false
            → c ≡ holds false
            → on_breakpoint_hit format symbols c info ≡ unchanged false info)
        × (is_excluded info.exclusions symbols ≡ false
            → (c ≡ failed) ⊎ (c ≡ no_python)
            → on_breakpoint_hit format symbols c info ≡ unchanged true info))
unfolding on_breakpoint_hit
on_breakpoint_hit-uncounted format symbols c info = (
  λ h. rw h refl,
  λ h e. rw (h, e) refl,
  λ h e. elim e [ inl f ↦ rw (h, f) refl | inr f ↦ rw (h, f) refl ],
)

-- A hit condition `% 0` panics at the first hit that passes the exclusions and the condition.
pub mod_zero_panics :
    (format : Text → Outcome Text) (symbols : List Text) (c : Condition) (info : BreakpointInfo)
    → is_excluded info.exclusions symbols ≡ false
    → Passes c
    → info.hit_condition ≡ some (mod_ 0)
    → on_breakpoint_hit format symbols c info ≡ panic
unfolding count_hit
mod_zero_panics format symbols c info h p e = Passes-count format symbols c info h p ∙ rw e refl
