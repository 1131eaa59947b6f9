-- ===== src/Converse/Replay.antt =====
-- The replica of converse/exe_server/src/server.cpp that replays the leader's transactions.
-- A statement is the list of its pieces; what the database does with it is left out.
pub mod Bindings
mod Runs
use cs.Prelude.{ℕ, Option, none, some, List, [], ◌∷◌, ◌++◌, map}
use cs.Prelude.Options.{◌>>=◌}

-- "INSERT INTO ", " (", ") VALUES (", ")", "UPDATE ", " SET ", " WHERE ", ", ", " AND ", a table or a
-- column, "?" and " = ?".
pub data Piece : Type 0 where
  insert_into open_columns open_values close_values update set_columns where_columns : Piece
  comma conjunction question equals_question : Piece
  name : List ℕ → Piece

-- A column and its value.
abbrev pub Entries : Type 0
Entries = List (List ℕ × List ℕ)

pub data OperationType : Type 0 where
  inserts updates removes : OperationType

pub record Operation : Type 0 where
  pub type : OperationType
  pub table_name : List ℕ
  pub new_values : Entries
  pub old_key_values : Entries

-- The loops that put a separator between all parts but the last.
pub separated : Piece → List (List Piece) → List Piece
separated between [] = []
separated between (part ∷ []) = part
separated between (part ∷ next ∷ parts) = part ++ between ∷ separated between (next ∷ parts)

pub columns_of : Entries → List (List Piece)
columns_of [] = []
columns_of (e ∷ entries) = (name e.0 ∷ []) ∷ columns_of entries

pub placeholders_of : Entries → List (List Piece)
placeholders_of [] = []
placeholders_of (e ∷ entries) = (question ∷ []) ∷ placeholders_of entries

pub clauses_of : Entries → List (List Piece)
clauses_of [] = []
clauses_of (e ∷ entries) = (name e.0 ∷ equals_question ∷ []) ∷ clauses_of entries

pub values_of : Entries → List (List ℕ)
values_of [] = []
values_of (e ∷ entries) = e.1 ∷ values_of entries

pub insert_statement : Operation → List Piece
insert_statement op =
    let columns = separated comma (columns_of op.new_values) in
    let questions = separated comma (placeholders_of op.new_values) in
    let in_values = open_values ∷ (questions ++ (close_values ∷ [])) in
    insert_into ∷ (name op.table_name ∷ (open_columns ∷ (columns ++ in_values)))

pub where_part : List (List Piece) → List Piece
where_part [] = []
where_part (clause ∷ clauses) = where_columns ∷ separated conjunction (clause ∷ clauses)

pub update_statement : Operation → List Piece
update_statement op =
    update ∷ name op.table_name ∷ set_columns ∷ []
    ++ separated comma (clauses_of op.new_values)
    ++ where_part (clauses_of op.old_key_values)

-- The statement with the values bound to it; `none` is the exception on another type.
unfoldable pub statement_of : OperationType → Operation → Option (List Piece × List (List ℕ))
statement_of inserts op = some (insert_statement op, values_of op.new_values)
statement_of updates op =
    some (update_statement op, values_of op.new_values ++ values_of op.old_key_values)
statement_of removes op = none

unfoldable pub replay : Operation → Option (List Piece × List (List ℕ))
replay op = statement_of op.type op
