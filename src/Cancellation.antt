-- ===== src/Cancellation.antt =====
-- src/codelldb/src/cancellation.rs: the state that the senders and receivers of a cancellation share.
-- A callback is a number; `called` records the calls. Clones of a sender share the state and change
-- nothing in it; what several threads do is a list of operations in the order of their effects.
pub mod Counting
pub mod Calling
mod Tests
use vscode_lldb.Common.{ℕ, ◌+◌, ◌-◌, ◌%◌, ◌^◌, Bool, true, false, List, [], ◌∷◌, ◌++◌}

pub record Inner : Type 0 where
  pub flag : Bool
  pub receiver_count : ℕ
  pub callbacks : List ℕ
  pub called : List ℕ

pub data Operation : Type 0 where
  subscribe send clone_receiver drop_receiver : Operation
  add_callback : ℕ → Operation

abbrev pub new : Inner
new = record { flag = false; receiver_count = 0; callbacks = []; called = [] }

-- `fetch_add` and `fetch_sub` on an `AtomicU16`
abbrev pub fetch_add : Inner → Inner
fetch_add inner = record inner { receiver_count = (inner.receiver_count + 1) % 2 ^ 16 }

abbrev pub fetch_sub : Inner → Inner
fetch_sub inner = record inner { receiver_count = (inner.receiver_count + (2 ^ 16 - 1)) % 2 ^ 16 }

unfoldable pub operate : Operation → Inner → Inner
operate subscribe inner = fetch_add inner
operate clone_receiver inner = fetch_add inner
operate drop_receiver inner = fetch_sub inner
operate send inner = record inner { flag = true; called = inner.called ++ inner.callbacks }
operate (add_callback c) inner = record inner { callbacks = inner.callbacks ++ c ∷ [] }

unfoldable pub operate_all : List Operation → Inner → Inner
unfolding operate
operate_all [] inner = inner
operate_all (o ∷ os) inner = operate_all os (operate o inner)
