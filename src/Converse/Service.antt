-- ===== src/Converse/Service.antt =====
-- The handlers of converse/exe_server/src/service/main/impl.cpp, which run one at a time. The cluster's
-- writers and those of the users are numbers, and what a handler writes to them is a list. Argon2 is
-- a parameter, with the salt that is drawn inside. The fields of a request are arguments.
pub mod Users
pub mod Conversations
pub mod Messages
pub mod Requests
pub mod Keeps
pub mod Attempts
pub mod Atomic
pub mod Replicated
pub mod Interleaved
mod Runs
use cs.Prelude.{ℕ, ◌==◌, if◌then◌else◌, Bool, Option, none, some, List, [], ◌∷◌, ◌++◌}
use cs.Prelude.Options.{◌>>=◌}
use cs.Converse.Models.{User, Conversation}
use cs.Converse.Replay.{OperationType, Operation, Entries, updates}
use cs.Converse.Writers.{Writers, UserWriters, find_writers}
use cs.Converse.Text.{c_str, to_string}
use cs.Converse.Sqlite.{Sqlite, Run, go_on, execute, rollback}

pub record Argon2 : Type 0 where
  pub encode : List ℕ → Option (List ℕ)
  pub verify : List ℕ → List ℕ → Bool

-- The string without a last byte of zero.
pub without_null : List ℕ → List ℕ
without_null [] = []
without_null (x ∷ []) = if x == 0 then [] else x ∷ []
without_null (x ∷ y ∷ xs) = x ∷ without_null (y ∷ xs)

pub verify_password : Argon2 → List ℕ → List ℕ → Bool
verify_password argon2 password password_encoded = argon2.verify password_encoded (c_str password)

pub generate_password_encoded : Argon2 → List ℕ → Option (List ℕ)
generate_password_encoded argon2 password =
    argon2.encode (c_str password) >>= λ encoded. some (without_null encoded)

pub record Message : Type 0 where
  pub id : ℕ
  pub send_user_id : ℕ
  pub content : List ℕ

-- What is written to the streams of the other servers and of the users.
pub data Sent : Type 0 where
  transactions : ℕ → List Operation → Sent
  message : ℕ → ℕ → Message → Sent
  read_messages : ℕ → ℕ → List ℕ → Sent

pub data Reply : Type 0 where
  user_id message_id : ℕ → Reply
  nothing : Reply
  users : List User → Reply
  conversation : Conversation → Reply
  conversations : List Conversation → Reply
  messages : List Message → Reply

-- OK, INTERNAL, and an exception that leaves the handler.
pub data Status : Type 0 where
  ok : Reply → List Sent → Status
  internal escaped : Status

-- The loops over `cluster_writers_`.
pub to_cluster : List ℕ → List Operation → List Sent
to_cluster [] operations = []
to_cluster (writer ∷ cluster) operations =
    transactions writer operations ∷ to_cluster cluster operations

-- The stream that a user has open, if there is one.
pub message_writer : ℕ → UserWriters → Option ℕ
message_writer user writers = find_writers user writers >>= λ w. w.receive_message_writer

pub read_messages_writer : ℕ → UserWriters → Option ℕ
read_messages_writer user writers =
    find_writers user writers >>= λ w. w.receive_read_messages_writer

pub written : Option ℕ → (ℕ → Sent) → List Sent
written none item = []
written (some writer) item = item writer ∷ []

-- An update of one column in the row with the id, as the handlers replicate it.
pub update_by_id : List ℕ → List ℕ → ℕ → Operation
update_by_id table_name column id = record {
  type = updates;
  table_name = table_name;
  new_values = (column, b'1' ∷ []) ∷ [];
  old_key_values = (b'i' ∷ b'd' ∷ [], to_string id) ∷ [];
}

module _ (db : Sqlite) where
  -- A `try` whose `catch` answers INTERNAL, and one that executes ROLLBACK first.
  unfoldable pub caught : db.Connection × Option (Reply × List Sent) → db.Connection × Status
  caught (c, none) = (c, internal)
  caught (c, some (reply, sent)) = (c, ok reply sent)

  unfoldable pub attempt : Run db (Reply × List Sent) → db.Connection → db.Connection × Status
  attempt body c = caught (body c)

  unfoldable pub rolled_back : {A : Type 0} → db.Connection × Option A → db.Connection × Status
  rolled_back (c, none) = (c, escaped)
  rolled_back (c, some rows) = (c, internal)

  unfoldable pub caught_rollback :
      db.Connection × Option (Reply × List Sent) → db.Connection × Status
  caught_rollback (c, none) = rolled_back (execute db rollback c)
  caught_rollback (c, some (reply, sent)) = (c, ok reply sent)

  unfoldable pub attempt_rollback :
      Run db (Reply × List Sent) → db.Connection → db.Connection × Status
  attempt_rollback body c = caught_rollback (body c)
