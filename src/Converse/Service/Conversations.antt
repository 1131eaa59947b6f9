-- ===== src/Converse/Service/Conversations.antt =====
-- `CreateConversation`, `GetConversation`, `GetConversations` and `DeleteConversation`.
use cs.Prelude.{ℕ, Option, some, List, [], ◌∷◌, ◌++◌}
use cs.Prelude.Options.{◌>>=◌}
use cs.Converse.Models.{Conversation}
use cs.Converse.Replay.{Operation, inserts}
use cs.Converse.Text.{to_string, read_ids}
use cs.Converse.Sqlite.{
  Sqlite, Run, return, and_then, execute, first_row, transaction, insert_conversation,
  insert_members, find_username, find_conversation, find_conversations, mark_conversation,
}
use cs.Converse.Service.{
  nothing, conversation, conversations, Status, to_cluster, update_by_id, attempt, attempt_rollback,
}
use cs.Converse.Service.Users.{id_column, is_deleted_column, or_throw}

abbrev pub conversations_table : List ℕ
conversations_table =
    b'c' ∷ b'o' ∷ b'n' ∷ b'v' ∷ b'e' ∷ b'r' ∷ b's' ∷ b'a' ∷ b't' ∷ b'i' ∷ b'o' ∷ b'n' ∷ b's' ∷ []

abbrev pub members_table : List ℕ
members_table = conversations_table ++ (b'_' ∷ b'u' ∷ b's' ∷ b'e' ∷ b'r' ∷ b's' ∷ [])

abbrev pub conversation_id_column : List ℕ
conversation_id_column =
    b'c' ∷ b'o' ∷ b'n' ∷ b'v' ∷ b'e' ∷ b'r' ∷ b's' ∷ b'a' ∷ b't' ∷ b'i' ∷ b'o' ∷ b'n' ∷ b'_' ∷ b'i'
    ∷ b'd' ∷ []

abbrev pub user_id_column : List ℕ
user_id_column = b'u' ∷ b's' ∷ b'e' ∷ b'r' ∷ b'_' ∷ b'i' ∷ b'd' ∷ []

unfoldable pub conversation_operation : ℕ → Operation
conversation_operation id = record {
  type = inserts;
  table_name = conversations_table;
  new_values = (id_column, to_string id) ∷ [];
  old_key_values = [];
}

unfoldable pub member_operation : ℕ → ℕ → Operation
member_operation conversation_id user = record {
  type = inserts;
  table_name = members_table;
  new_values =
      (conversation_id_column, to_string conversation_id) ∷ (user_id_column, to_string user) ∷ [];
  old_key_values = [];
}

unfoldable pub create_operations : ℕ → ℕ → ℕ → List Operation
create_operations id send_user recv_user =
    conversation_operation id ∷ member_operation id send_user ∷ member_operation id recv_user ∷ []

-- A row with the ids that GROUP_CONCAT has joined.
pub conversation_of : ℕ → ℕ → List ℕ → List ℕ → Option Conversation
conversation_of id recv_user recv_username unread = read_ids unread >>= λ ids. some (record {
  id = id;
  recv_user_id = recv_user;
  recv_user_username = recv_username;
  unread_message_ids = ids;
})

pub conversations_of : List (ℕ × ℕ × List ℕ × List ℕ) → Option (List Conversation)
conversations_of [] = some []
conversations_of ((id, recv_user, recv_username, unread) ∷ rows) =
    let rest = conversations_of rows in
    conversation_of id recv_user recv_username unread >>= λ c. rest >>= λ cs. some (c ∷ cs)

module _ (db : Sqlite) where
  -- The statements of `CreateConversation`: the name of the other user and the new id.
  unfoldable pub insert_conversation_of : ℕ → ℕ → Run db (ℕ × List ℕ)
  insert_conversation_of send_user recv_user =
      and_then db (execute db (find_username recv_user)) (λ names.
        and_then db (first_row db names) (λ name.
          and_then db (execute db insert_conversation) (λ ids. and_then db (first_row db ids) (λ id.
            and_then db (execute db (insert_members id send_user id recv_user))
              (λ inserted. return db (id, name))))))

  unfoldable pub create_conversation : List ℕ → ℕ → ℕ → db.Connection → db.Connection × Status
  create_conversation cluster send_user recv_user = attempt_rollback db (
      and_then db (transaction db (insert_conversation_of send_user recv_user)) (λ row. return db (
        conversation (record {
          id = row.0;
          recv_user_id = recv_user;
          recv_user_username = row.1;
          unread_message_ids = [];
        }),
        to_cluster cluster (create_operations row.0 send_user recv_user),
      )))

  unfoldable pub get_conversation : ℕ → ℕ → db.Connection → db.Connection × Status
  get_conversation user id = attempt db (
      and_then db (execute db (find_conversation id user)) (λ rows.
        and_then db (first_row db rows) (λ (recv_user, recv_username, unread).
          and_then db (or_throw db (conversation_of id recv_user recv_username unread))
            (λ c. return db (conversation c, [])))))

  unfoldable pub get_conversations : ℕ → db.Connection → db.Connection × Status
  get_conversations user = attempt db (
      and_then db (execute db (find_conversations user)) (λ rows.
        and_then db (or_throw db (conversations_of rows)) (λ cs. return db (conversations cs, []))))

  unfoldable pub delete_conversation : List ℕ → ℕ → db.Connection → db.Connection × Status
  delete_conversation cluster id = attempt db (
      and_then db (execute db (mark_conversation id)) (λ marked.
        return db (
          nothing,
          to_cluster cluster (update_by_id conversations_table is_deleted_column id ∷ []),
        )))
