-- ===== src/Errors.antt =====
-- src/codelldb/src/error.rs: errors, with whom they are blamed on. A boxed error is a text, an error that
-- carries a blame, or the marker by which a handler hands over a future.
use vscode_lldb.Common.Text.{Text}

pub data Blame : Type 0 where
  internal user nobody : Blame

pub data Error (Future : Type 0) : Type 0 where
  str_error : Text → Error Future
  blamed_error : Blame → Error Future → Error Future
  async_response : Future → Error Future

pub record BlamedError (Future : Type 0) : Type 0 where
  pub blame : Blame
  pub inner : Error Future

pub data Result (Future A : Type 0) : Type 0 where
  ok : A → Result Future A
  err : Error Future → Result Future A

module _ {Future : Type 0} where
  -- An error that carries a blame keeps it; any other is the adapter's own.
  abbrev pub from_error : Error Future → BlamedError Future
  from_error (blamed_error b e) = record { blame = b; inner = e }
  from_error (str_error m) = record { blame = internal; inner = str_error m }
  from_error (async_response f) = record { blame = internal; inner = async_response f }

  abbrev pub assign_blame : Blame → BlamedError Future → BlamedError Future
  assign_blame b e = record { blame = b; inner = e.inner }

  abbrev pub boxed : BlamedError Future → Error Future
  boxed e = blamed_error e.blame e.inner

  abbrev pub blame_user : Error Future → Error Future
  blame_user e = boxed (assign_blame user (from_error e))

  abbrev pub blame_nobody : Error Future → Error Future
  blame_nobody e = boxed (assign_blame nobody (from_error e))

  infixl 5 ◌>>=◌
  abbrev pub ◌>>=◌ : {A B : Type 0} → Result Future A → (A → Result Future B) → Result Future B
  ok a >>= f = f a
  err e >>= f = err e

  abbrev pub map_err :
      {A : Type 0} → (Error Future → Error Future) → Result Future A → Result Future A
  map_err f (ok a) = ok a
  map_err f (err e) = err (f e)

  abbrev pub map_ok : {A B : Type 0} → (A → B) → Result Future A → Result Future B
  map_ok f (ok a) = ok (f a)
  map_ok f (err e) = err e
