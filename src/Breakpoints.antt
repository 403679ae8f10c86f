-- ===== src/Breakpoints.antt =====
-- src/codelldb/src/debug_session/breakpoints.rs: the breakpoints that the session tracks.
pub mod Hit
pub mod Counting
pub mod Logpoint
pub mod Exclusions
pub mod Setting
pub mod Reuse
pub mod Filters
pub mod Loop
pub mod Tracking
pub mod Listings
pub mod Restored
pub mod Source
pub mod Requests
pub mod Stale
pub mod Files
pub mod Responses
pub mod Callers
mod FileTests
mod Tests
mod SettingTests
use vscode_lldb.Common.{ℕ, Bool, true, false, Option, List, []}
use vscode_lldb.Common.Map.{Map}
use vscode_lldb.Common.Text.{Text}

-- src/codelldb/src/expressions/hit_condition.rs: `HitCondition`, with a `u32` in each case.
pub data HitCondition : Type 0 where
  lt le eq ge gt mod_ : ℕ → HitCondition

pub data BreakpointKind : Type 0 where
  source disassembly instruction function : BreakpointKind
  exception : Text → BreakpointKind

-- The breakpoint of liblldb is its identifier.
pub record BreakpointInfo : Type 0 where
  pub id : ℕ
  pub kind : BreakpointKind
  pub condition : Option Text
  pub log_message : Option Text
  pub hit_condition : Option HitCondition
  pub hit_count : ℕ
  pub exclusions : List Text
