-- ===== src/Converse/Sqlite/Laws.antt =====
-- What the service relies on in SQLite, and what it gives code that uses the database.
use cs.Prelude.{◌≡◌, ◌⊎◌, true, false, Bool, []}
use cs.Converse.Sqlite.{
  Statement, begin_transaction, commit, rollback, insert_user, find_user, find_others,
  find_password, find_username, find_receiver, find_conversations, find_conversation, find_messages,
  mark_read, Answer, done, disturbed, other_code, unprepared, error, Sqlite,
}

abbrev pub is_done : {A : Type 0} → Answer A → Bool
is_done (done rows) = true
is_done (disturbed rows) = false
is_done (other_code rows) = false
is_done unprepared = false
is_done error = false

-- Codes at which SQLite documents that a transaction may have been rolled back by itself, or that a COMMIT
-- may have left it open.
abbrev pub is_disturbed : {A : Type 0} → Answer A → Bool
is_disturbed (disturbed rows) = true
is_disturbed (done rows) = false
is_disturbed (other_code rows) = false
is_disturbed unprepared = false
is_disturbed error = false

-- Statements that are no part of the control of transactions, and those that only read.
abbrev pub ordinary : Statement → Bool
ordinary begin_transaction = false
ordinary commit = false
ordinary rollback = false
ordinary _ = true

abbrev pub reads : Statement → Bool
reads (find_user username) = true
reads (find_others user like_pattern limit offset) = true
reads (find_password user) = true
reads (find_username user) = true
reads (find_conversations user) = true
reads (find_conversation conversation user) = true
reads (find_messages conversation) = true
reads (find_receiver conversation user) = true
reads _ = false

-- Writing statements with RETURNING.
abbrev pub returns : Statement → Bool
returns (insert_user username password_encoded) = true
returns (mark_read user ids) = true
returns _ = false

-- What SQLite documents of the transactions of a connection: a BEGIN inside one is an error, and a
-- ROLLBACK restores inside one what the tables were at its BEGIN, and is an error outside one.
pub record Documented (db : Sqlite) : Type 1 where
  pub Tables : Type 0
  pub tables : db.Connection → Tables
  pub at_begin : db.Connection → Tables
  pub in_transaction : db.Connection → Bool
  pub begin_nested :
      (c : db.Connection)
      → in_transaction c ≡ true
      → (in_transaction (db.answer begin_transaction c).0 ≡ true)
        × (at_begin (db.answer begin_transaction c).0 ≡ at_begin c)
        × ((db.answer begin_transaction c).1 ≡ error)
  pub rollback_restores :
      (c : db.Connection)
      → in_transaction c ≡ true
      → (in_transaction (db.answer rollback c).0 ≡ false)
        × (tables (db.answer rollback c).0 ≡ at_begin c)
        × (is_done (db.answer rollback c).1 ≡ true)
  pub rollback_outside :
      (c : db.Connection)
      → in_transaction c ≡ false
      → (in_transaction (db.answer rollback c).0 ≡ false)
        × (tables (db.answer rollback c).0 ≡ tables c)
        × ((db.answer rollback c).1 ≡ error)

-- The same with the rest, for a connection that no other thread or process uses, where no statement meets
-- one of the codes above, and for tables without deferred constraints: BEGIN succeeds outside a
-- transaction, a COMMIT is done or an error, any other statement keeps the transaction, one that is not
-- done changes nothing, and RETURNING gives a row for each row changed.
pub record Undisturbed (db : Sqlite) : Type 1 where
  pub documented : Documented db
  pub never_disturbed : (s : Statement) (c : db.Connection) → is_disturbed (db.answer s c).1 ≡ false
  pub begin_opens :
      (c : db.Connection)
      → documented.in_transaction c ≡ false
      → (documented.in_transaction (db.answer begin_transaction c).0 ≡ true)
        × (documented.at_begin (db.answer begin_transaction c).0 ≡ documented.tables c)
        × (is_done (db.answer begin_transaction c).1 ≡ true)
  pub commit_closes :
      (c : db.Connection)
      → documented.in_transaction c ≡ true
      → ((documented.in_transaction (db.answer commit c).0 ≡ false)
          × (is_done (db.answer commit c).1 ≡ true))
        ⊎ ((documented.in_transaction (db.answer commit c).0 ≡ true)
            × (documented.at_begin (db.answer commit c).0 ≡ documented.at_begin c)
            × ((db.answer commit c).1 ≡ error))
  pub ordinary_keeps :
      (s : Statement) (c : db.Connection)
      → ordinary s ≡ true
      → (documented.in_transaction (db.answer s c).0 ≡ documented.in_transaction c)
        × (documented.at_begin (db.answer s c).0 ≡ documented.at_begin c)
  pub undone_keeps :
      (s : Statement) (c : db.Connection)
      → ordinary s ≡ true
      → is_done (db.answer s c).1 ≡ false
      → documented.tables (db.answer s c).0 ≡ documented.tables c
  pub reading_keeps :
      (s : Statement) (c : db.Connection)
      → reads s ≡ true
      → documented.tables (db.answer s c).0 ≡ documented.tables c
  pub returning_nothing :
      (s : Statement) (c : db.Connection)
      → returns s ≡ true
      → (db.answer s c).1 ≡ done []
      → documented.tables (db.answer s c).0 ≡ documented.tables c
