-- ===== src/Converse/Service/Messages.antt =====
-- `SendMessage`, `GetMessages`, `ReadMessages` and `DeleteMessage`.
use cs.Prelude.{ℕ, Bool, List, [], ◌∷◌, ◌++◌, map}
use cs.Converse.Replay.{Operation, inserts}
use cs.Converse.Text.{to_string}
use cs.Converse.Writers.{UserWriters}
use cs.Converse.Sqlite.{
  Sqlite, Run, return, throw, and_then, execute, first_row, transaction, insert_message,
  find_receiver, find_messages, mark_read, mark_message, bound_as_int,
}
use cs.Converse.Service.{
  Message, Sent, message, read_messages, nothing, message_id, messages, Status, to_cluster,
  message_writer, read_messages_writer, written, update_by_id, attempt, attempt_rollback,
}
use cs.Converse.Service.Users.{id_column, is_deleted_column}
use cs.Converse.Service.Conversations.{conversation_id_column, user_id_column}

abbrev pub messages_table : List ℕ
messages_table = b'm' ∷ b'e' ∷ b's' ∷ b's' ∷ b'a' ∷ b'g' ∷ b'e' ∷ b's' ∷ []

abbrev pub content_column : List ℕ
content_column = b'c' ∷ b'o' ∷ b'n' ∷ b't' ∷ b'e' ∷ b'n' ∷ b't' ∷ []

abbrev pub is_read_column : List ℕ
is_read_column = b'i' ∷ b's' ∷ b'_' ∷ b'r' ∷ b'e' ∷ b'a' ∷ b'd' ∷ []

unfoldable pub message_operation : ℕ → Message → Operation
message_operation conversation m = record {
  type = inserts;
  table_name = messages_table;
  new_values =
      (id_column, to_string m.id)
      ∷ (conversation_id_column, to_string conversation)
      ∷ (user_id_column, to_string m.send_user_id)
      ∷ (content_column, m.content)
      ∷ [];
  old_key_values = [];
}

unfoldable pub read_operations : List ℕ → List Operation
read_operations [] = []
read_operations (id ∷ ids) = update_by_id messages_table is_read_column id ∷ read_operations ids

-- What is written to the streams of the receiver and of the sender.
unfoldable pub tell_message : UserWriters → ℕ → ℕ → Message → List Sent
tell_message writers conversation recv_user m =
    written (message_writer recv_user writers) (λ w. message w conversation m)
    ++ written (message_writer m.send_user_id writers) (λ w. message w conversation m)

unfoldable pub tell_read : UserWriters → ℕ → ℕ → ℕ → List ℕ → List Sent
tell_read writers conversation user recv_user ids =
    written (read_messages_writer user writers) (λ w. read_messages w conversation ids)
    ++ written (read_messages_writer recv_user writers) (λ w. read_messages w conversation ids)

pub messages_of : List (ℕ × ℕ × Bool × List ℕ) → List Message
messages_of [] = []
messages_of ((id, user, is_read, content) ∷ rows) =
    record { id = id; send_user_id = user; content = content } ∷ messages_of rows

module _ (db : Sqlite) where
  -- The statements of `SendMessage`: the new id and the other user.
  unfoldable pub insert_message_of : ℕ → ℕ → List ℕ → Run db (ℕ × ℕ)
  insert_message_of conversation send_user content =
      and_then db (execute db (insert_message conversation send_user content)) (λ ids.
        and_then db (first_row db ids) (λ id.
          and_then db (execute db (find_receiver conversation send_user)) (λ receivers.
            and_then db (first_row db receivers) (λ receiver. return db (id, receiver)))))

  unfoldable pub send_checked : ℕ → ℕ → List ℕ → Run db (ℕ × ℕ)
  send_checked conversation send_user [] = throw db
  send_checked conversation send_user (x ∷ content) =
      transaction db (insert_message_of conversation send_user (x ∷ content))

  unfoldable pub send_message :
      List ℕ → UserWriters → ℕ → ℕ → List ℕ → db.Connection → db.Connection × Status
  send_message cluster writers conversation send_user content = attempt_rollback db (
      and_then db (send_checked conversation send_user content) (λ row.
        let m : Message = record { id = row.0; send_user_id = send_user; content = content } in
        return db (
          message_id row.0,
          to_cluster cluster (message_operation conversation m ∷ [])
              ++ tell_message writers conversation row.1 m,
        )))

  unfoldable pub get_messages : ℕ → db.Connection → db.Connection × Status
  get_messages conversation = attempt db (
      and_then db (execute db (find_messages conversation))
        (λ rows. return db (messages (messages_of rows), [])))

  unfoldable pub mark_read_messages :
      List ℕ → UserWriters → ℕ → ℕ → List ℕ → db.Connection → db.Connection × Status
  mark_read_messages cluster writers user conversation ids = attempt db (
      and_then db (execute db (mark_read (bound_as_int user) (map bound_as_int ids))) (λ rows.
        and_then db (first_row db rows) (λ recv_user. return db (
          nothing,
          to_cluster cluster (read_operations ids)
              ++ tell_read writers conversation user recv_user ids,
        ))))

  unfoldable pub delete_message : List ℕ → ℕ → ℕ → db.Connection → db.Connection × Status
  delete_message cluster conversation id = attempt db (
      and_then db (execute db (mark_message conversation id)) (λ marked.
        return db
          (nothing, to_cluster cluster (update_by_id messages_table is_deleted_column id ∷ []))))
