-- ===== src/Converse/Client/Events.antt =====
-- What happens to the backend: the requests of its user, and what its streams tell it.
use cs.Prelude.{ℕ, ◌≡◌, ◌≢◌, [], Bool, true, false, some, List}
use cs.Converse.Link.{Address}
use cs.Converse.Models.{User, Conversation}
use cs.Converse.Service as Service
use cs.Converse.Client.{Backend, Code, unavailable, Rpc, failed, Action}
use cs.Converse.Client.Session.{set_user, set_conversation, servers_told, handle_reconnect}
use cs.Converse.Client.Requests.{
  conversation_of, request_signin_user, request_signup_user, request_signout_user,
  request_delete_user, request_get_other_users, request_create_conversation,
  request_get_conversation, request_get_conversations, request_delete_conversation,
  request_send_message, request_read_messages, request_get_messages, request_delete_message,
  message_received, read_messages_received,
}

-- What happens to the backend, with the answers to the requests that it makes.
pub data Event : Type 0 where
  signs_in signs_up : List ℕ → List ℕ → Rpc ℕ → Event
  signs_out : Rpc (Unit {0}) → Event
  deletes_user : List ℕ → Rpc (Unit {0}) → Event
  gets_other_users : List ℕ → Rpc (List User) → Event
  creates_conversation gets_conversation : ℕ → Rpc Conversation → Event
  gets_conversations : Rpc (List Conversation) → Event
  deletes_conversation deletes_message : ℕ → ℕ → Rpc (Unit {0}) → Event
  sends_message : List ℕ → Rpc ℕ → Event
  reads_messages : ℕ → List ℕ → Rpc (Unit {0}) → Event
  gets_messages : Rpc (List Service.Message) → Rpc (Unit {0}) → Event
  sets_user : User → Event
  sets_conversation : Conversation → Event
  stream_ends : Code → Event
  told : List Address → Event
  receives : ℕ → Service.Message → Rpc (Unit {0}) → Event
  receives_read : ℕ → List ℕ → Event

unfoldable pub perform : (Address → Bool) → Event → Action (Unit {0})
perform healthy (signs_in username password rpc) = request_signin_user healthy username password rpc
perform healthy (signs_up username password rpc) = request_signup_user healthy username password rpc
perform healthy (signs_out rpc) = request_signout_user healthy rpc
perform healthy (deletes_user password rpc) = request_delete_user healthy password rpc
perform healthy (gets_other_users query rpc) = request_get_other_users healthy query rpc
perform healthy (creates_conversation recv_user rpc) =
    request_create_conversation healthy recv_user rpc
perform healthy (gets_conversation id rpc) = request_get_conversation healthy id rpc
perform healthy (gets_conversations rpc) = request_get_conversations healthy rpc
perform healthy (deletes_conversation id index rpc) =
    request_delete_conversation healthy id index rpc
perform healthy (deletes_message id index rpc) = request_delete_message healthy id index rpc
perform healthy (sends_message content rpc) = request_send_message healthy content rpc
perform healthy (reads_messages id ids rpc) = request_read_messages healthy id ids rpc
perform healthy (gets_messages rpc read_rpc) = request_get_messages healthy rpc read_rpc
perform healthy (sets_user u) = set_user (some u)
perform healthy (sets_conversation c) = set_conversation (some (conversation_of c))
perform healthy (stream_ends code) = handle_reconnect healthy code
perform healthy (told addresses) = servers_told addresses
perform healthy (receives id m rpc) = message_received healthy id m rpc
perform healthy (receives_read id ids) = read_messages_received healthy id ids

-- The requests about messages need an open conversation, opening one needs a user, and so does a
-- message that is received.
abbrev pub needs_conversation : Event → Bool
needs_conversation (deletes_message id index rpc) = true
needs_conversation (sends_message content rpc) = true
needs_conversation (reads_messages id ids rpc) = true
needs_conversation (gets_messages rpc read_rpc) = true
needs_conversation _ = false

abbrev pub needs_user : Event → Bool
needs_user (sets_conversation c) = true
needs_user (receives id m rpc) = true
needs_user _ = false

-- A request of the event finds its server unavailable, or a stream ends for that reason.
abbrev pub MeetsUnavailable : Event → Type 0
MeetsUnavailable (signs_in username password rpc) = rpc ≡ failed unavailable
MeetsUnavailable (signs_up username password rpc) = rpc ≡ failed unavailable
MeetsUnavailable (signs_out rpc) = rpc ≡ failed unavailable
MeetsUnavailable (deletes_user password rpc) = rpc ≡ failed unavailable
MeetsUnavailable (gets_other_users query rpc) = rpc ≡ failed unavailable
MeetsUnavailable (creates_conversation recv_user rpc) = rpc ≡ failed unavailable
MeetsUnavailable (gets_conversation id rpc) = rpc ≡ failed unavailable
MeetsUnavailable (gets_conversations rpc) = rpc ≡ failed unavailable
MeetsUnavailable (deletes_conversation id index rpc) = rpc ≡ failed unavailable
MeetsUnavailable (deletes_message id index rpc) = rpc ≡ failed unavailable
MeetsUnavailable (sends_message content rpc) = rpc ≡ failed unavailable
MeetsUnavailable (reads_messages id ids rpc) = rpc ≡ failed unavailable
MeetsUnavailable (gets_messages rpc read_rpc) = rpc ≡ failed unavailable
MeetsUnavailable (sets_user u) = ⊥
MeetsUnavailable (sets_conversation c) = ⊥
MeetsUnavailable (stream_ends code) = code ≡ unavailable
MeetsUnavailable (told addresses) = ⊥
MeetsUnavailable (receives id m rpc) = rpc ≡ failed unavailable
MeetsUnavailable (receives_read id ids) = ⊥

-- Messages are got for a conversation with unread ones, which it then tells the server have been read.
abbrev pub RereadsUnread : Event → Backend → Type 0
RereadsUnread (gets_messages rpc read_rpc) b =
    (c : Conversation) × (b.conversation ≡ some c) × (c.unread_message_ids ≢ [])
RereadsUnread _ b = ⊥

-- Where an event may block, and where it may lock the mutex that it holds.
abbrev pub Stops : Event → Backend → Bool → Type 0
Stops e b true = MeetsUnavailable e
Stops e b false = RereadsUnread e b
