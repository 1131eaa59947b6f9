-- ===== src/Converse/Service/Requests.antt =====
-- The requests of the main service that the database answers.
use cs.Prelude.{ℕ, List}
use cs.Converse.Writers.{UserWriters}
use cs.Converse.Sqlite.{Sqlite}
use cs.Converse.Service.{Argon2, Status}
use cs.Converse.Service.Users.{signup_user, signin_user, signout_user, delete_user, get_other_users}
use cs.Converse.Service.Conversations.{
  create_conversation, get_conversation, get_conversations, delete_conversation,
}
use cs.Converse.Service.Messages.{send_message, get_messages, mark_read_messages, delete_message}

pub data Request : Type 0 where
  signup_user_request signin_user_request : List ℕ → List ℕ → Request
  signout_user_request : ℕ → Request
  delete_user_request : ℕ → List ℕ → Request
  get_other_users_request : ℕ → List ℕ → ℕ → ℕ → Request
  create_conversation_request get_conversation_request : ℕ → ℕ → Request
  get_conversations_request delete_conversation_request get_messages_request : ℕ → Request
  send_message_request : ℕ → ℕ → List ℕ → Request
  read_messages_request : ℕ → ℕ → List ℕ → Request
  delete_message_request : ℕ → ℕ → Request

-- The handler of each request.
unfoldable pub serve :
    (db : Sqlite) → Argon2 → List ℕ → UserWriters → Request → db.Connection → db.Connection × Status
serve db argon2 cluster writers (signup_user_request username password) =
    signup_user db argon2 cluster username password
serve db argon2 cluster writers (signin_user_request username password) =
    signin_user db argon2 cluster username password
serve db argon2 cluster writers (signout_user_request user) = signout_user db argon2 cluster user
serve db argon2 cluster writers (delete_user_request user password) =
    delete_user db argon2 cluster user password
serve db argon2 cluster writers (get_other_users_request user query limit offset) =
    get_other_users db user query limit offset
serve db argon2 cluster writers (create_conversation_request user other) =
    create_conversation db cluster user other
serve db argon2 cluster writers (get_conversation_request user conversation) =
    get_conversation db user conversation
serve db argon2 cluster writers (get_conversations_request user) = get_conversations db user
serve db argon2 cluster writers (delete_conversation_request conversation) =
    delete_conversation db cluster conversation
serve db argon2 cluster writers (get_messages_request conversation) = get_messages db conversation
serve db argon2 cluster writers (send_message_request conversation user content) =
    send_message db cluster writers conversation user content
serve db argon2 cluster writers (read_messages_request user conversation ids) =
    mark_read_messages db cluster writers user conversation ids
serve db argon2 cluster writers (delete_message_request conversation message) =
    delete_message db cluster conversation message
