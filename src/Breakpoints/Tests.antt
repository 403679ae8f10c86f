-- ===== src/Breakpoints/Tests.antt =====
-- Runs and instances.
use vscode_lldb.Common.{◌≡◌, refl, inl, true, false, ◌⊎◌, none, some, List, [], ◌∷◌, arith}
use vscode_lldb.Common.Map.{contains_key, nat_eq}
use vscode_lldb.Common.Outcome.{ok}
use vscode_lldb.Common.Text.{Text, codes, text_eq}
use vscode_lldb.Breakpoints.{mod_, exception, BreakpointInfo}
use vscode_lldb.Breakpoints.Exclusions.{
  Infos, BreakpointEvent, handle_breakpoint_events, Shows, Expected, client,
  handle_breakpoint_events-Shows, filter, ExcludedCaller,
}
use vscode_lldb.Breakpoints.Hit.{
  Verdict, Condition, unconditional, holds, failed, Hit, on_stack, is_excluded, hits,
}
use vscode_lldb.Breakpoints.Counting.{IsJudged, hits-IsNthHit}
use vscode_lldb.Breakpoints.Logpoint.{
  Segment, text, expr, write, value, replace_logpoint_expressions, balanced, replace-write,
}

abbrev every_third : BreakpointInfo
every_third = record {
  id = 1;
  kind = exception (codes "rust_panic");
  condition = none;
  log_message = none;
  hit_condition = some (mod_ 3);
  hit_count = 0;
  exclusions = codes "main" ∷ [];
}

abbrev echo : Text → Text ⊎ Text
echo t = inl t

abbrev hit_from : List Text → Condition → Hit
hit_from symbols c = record { symbols = symbols; condition = c; format = λ t. ok t }

abbrev counted_hit : Hit
counted_hit = hit_from (codes "run" ∷ []) (holds true)

abbrev excluded_hit : Hit
excluded_hit = hit_from (codes "run" ∷ codes "main" ∷ []) unconditional

abbrev broken_hit : Hit
broken_hit = hit_from [] failed

abbrev earlier_hits : List Hit
earlier_hits = excluded_hit ∷ counted_hit ∷ broken_hit ∷ counted_hit ∷ []

hits-IsNthHit_example :
    (v : Verdict) × (hits (counted_hit ∷ earlier_hits) every_third ≡ ok v)
    × IsJudged every_third counted_hit 2 v
unfolding is_excluded on_stack text_eq
hits-IsNthHit_example =
    hits-IsNthHit counted_hit earlier_hits every_third refl (omega arith)
      (tt, (tt, (tt, (tt, (tt, tt))))) (omega arith)

abbrev segments : List Segment
segments = text (codes "x = ") ∷ expr (codes "{x}") ∷ text (codes "}") ∷ []

replace-write_example : replace_logpoint_expressions echo (write segments) ≡ value echo segments
unfolding balanced
replace-write_example = replace-write echo segments (omega arith, (refl, omega arith))

abbrev tracked : Infos
tracked = (1, every_third) ∷ []

abbrev events : List BreakpointEvent
events =
    record { added = true; locations_changed = false; removed = false; id = 2; is_valid = true }
    ∷ record { added = false; locations_changed = false; removed = true; id = 1; is_valid = true }
    ∷ []

handle_breakpoint_events-Shows_example :
    Shows
      (client (λ k. contains_key k tracked) (handle_breakpoint_events tracked events).1)
      (handle_breakpoint_events tracked events).0
    × Expected (λ k. contains_key k tracked) (handle_breakpoint_events tracked events).1
handle_breakpoint_events-Shows_example =
    handle_breakpoint_events-Shows tracked events (λ k. contains_key k tracked) (λ k. refl)

abbrev callers : List ExcludedCaller
callers = record { site_id = filter (codes "rust_panic"); symbol = codes "helper" } ∷ []
