-- ===== src/Converse/Sqlite.antt =====
-- How converse/exe_server/src/service/main/impl.cpp uses its database, through `Db::execute` of
-- converse/exe_server/src/database.hpp. A statement stands for its text in the source with what is
-- bound to it; what SQLite does is a parameter. An exception is `none`, without its text. Ids are
-- numbers below 2 ^ 63.
pub mod Laws
use cs.Prelude.{ℕ, ◌-◌, ◌%◌, ◌^◌, ltb, Bool, if◌then◌else◌, Option, none, some, List, [], ◌∷◌}
use cs.Converse.Models.{ℤ, pos, negsuc}

pub data Statement : Type 0 where
  begin_transaction commit rollback insert_conversation : Statement
  insert_user : List ℕ → List ℕ → Statement
  find_user : List ℕ → Statement
  find_others : ℕ → List ℕ → ℕ → ℕ → Statement
  find_password mark_user find_username : ℕ → Statement
  mark_conversation find_conversations find_messages : ℕ → Statement
  insert_members : ℕ → ℕ → ℕ → ℕ → Statement
  find_conversation find_receiver mark_message : ℕ → ℕ → Statement
  insert_message : ℕ → ℕ → List ℕ → Statement
  mark_read : ℤ → List ℤ → Statement

-- The template arguments of `execute`.
abbrev pub Row : Statement → Type 0
Row insert_conversation = ℕ
Row (insert_user username password_encoded) = ℕ
Row (find_user username) = ℕ × List ℕ
Row (find_others user like_pattern limit offset) = ℕ × List ℕ
Row (find_password user) = List ℕ
Row (find_username user) = List ℕ
Row (find_conversations user) = ℕ × ℕ × List ℕ × List ℕ
Row (find_messages conversation) = ℕ × ℕ × Bool × List ℕ
Row (find_conversation conversation user) = ℕ × List ℕ × List ℕ
Row (find_receiver conversation user) = ℕ
Row (insert_message conversation user content) = ℕ
Row (mark_read user ids) = ℕ
Row begin_transaction = Unit {0}
Row commit = Unit {0}
Row rollback = Unit {0}
Row (insert_members first_conversation first second_conversation second) = Unit {0}
Row (mark_user user) = Unit {0}
Row (mark_conversation conversation) = Unit {0}
Row (mark_message conversation message) = Unit {0}

-- What preparing, binding and stepping a statement gives: the rows until it is done, SQLITE_ERROR, one of
-- SQLITE_BUSY, SQLITE_FULL, SQLITE_IOERR, SQLITE_NOMEM and SQLITE_INTERRUPT, or another code, as
-- SQLITE_CONSTRAINT.
pub data Answer (A : Type 0) : Type 0 where
  done disturbed other_code : List A → Answer A
  unprepared error : Answer A

pub record Sqlite : Type 1 where
  pub Connection : Type 0
  pub answer : (s : Statement) → Connection → Connection × Answer (Row s)

-- The `switch` on the last code has no case for another one.
unfoldable pub rows_of : {A : Type 0} → Answer A → Option (List A)
rows_of (done rows) = some rows
rows_of (disturbed rows) = some rows
rows_of (other_code rows) = some rows
rows_of unprepared = none
rows_of error = none

-- Code that uses the database, up to an exception.
module _ (db : Sqlite) where
  abbrev pub Run : Type 0 → Type 0
  Run A = db.Connection → db.Connection × Option A

  unfoldable pub return : {A : Type 0} → A → Run A
  return a c = (c, some a)

  unfoldable pub throw : {A : Type 0} → Run A
  throw c = (c, none)

  unfoldable pub go_on :
      {A B : Type 0} → (A → Run B) → db.Connection × Option A → db.Connection × Option B
  go_on f (c, none) = (c, none)
  go_on f (c, some a) = f a c

  unfoldable pub and_then : {A B : Type 0} → Run A → (A → Run B) → Run B
  and_then run f c = go_on f (run c)

  unfoldable pub execute : (s : Statement) → Run (List (Row s))
  execute s c = let (c', a) = db.answer s c in (c', rows_of a)

  -- `rows.at(0)`, behind the test of `rows.empty()`.
  unfoldable pub first_row : {A : Type 0} → List A → Run A
  first_row [] = throw
  first_row (row ∷ rows) = return row

  -- BEGIN TRANSACTION and COMMIT around a handler's statements.
  unfoldable pub transaction : {A : Type 0} → Run A → Run A
  transaction run =
      and_then (execute begin_transaction)
        (λ rows. and_then run (λ a. and_then (execute commit) (λ done_rows. return a)))

-- `bind_arg` of an `unsigned long`, which a `uint64_t` is, converts it to `int`.
pub bound_as_int : ℕ → ℤ
bound_as_int value =
    let low = value % 2 ^ 32 in if ltb low (2 ^ 31) then pos low else negsuc (2 ^ 32 - 1 - low)
