-- ===== src/Converse/Client/Requests.antt =====
-- The requests of the backend and what its streams call.
use cs.Prelude.{ℕ, ◌==◌, if◌then◌else◌, Bool, true, false, Option, none, some, List, [], ◌∷◌, map}
use cs.Converse.Link.{Address}
use cs.Converse.Models.{User, Conversation, Message}
use cs.Converse.Service as Service
use cs.Converse.Service.Requests.{
  signup_user_request, signin_user_request, signout_user_request, delete_user_request,
  get_other_users_request, create_conversation_request, get_conversation_request,
  get_conversations_request, delete_conversation_request, get_messages_request,
  send_message_request, read_messages_request, delete_message_request,
}
use cs.Converse.Client.{
  Rpc, answered, failed, is_ok, signin_response, signup_response, signout_response,
  delete_user_response, other_users_response, create_conversation_response, add_conversation,
  conversations_response, delete_conversation_response, delete_message_response, messages_response,
  receive_message_response, receive_read_messages_response, unread_message, Action, return,
  and_then, emit, locked, follow, send,
}
use cs.Converse.Client.Unread.{set_of}
use cs.Converse.Client.Session.{set_user, set_conversation, respond}

-- `if (!user_) return;`
unfoldable pub for_user : Option User → (User → Action (Unit {0})) → Action (Unit {0})
for_user none m = return tt
for_user (some u) m = m u

unfoldable pub if_user : (User → Action (Unit {0})) → Action (Unit {0})
if_user m b = for_user b.user m b

unfoldable pub with_conversation : (Conversation → Action (Unit {0})) → Action (Unit {0})
with_conversation m b = and_then (follow b.conversation) m b

-- The objects that are made of an answer.
pub conversation_of : Conversation → Conversation
conversation_of c = record c { unread_message_ids = set_of [] c.unread_message_ids }

pub message_of : Service.Message → Message
message_of m = record {
  id = m.id;
  send_user_id = m.send_user_id;
  is_read = true;
  content = m.content;
}

pub users_answered : Rpc (List User) → List User
users_answered (answered users) = users
users_answered (failed code) = []

pub conversations_answered : Rpc (List Conversation) → List Conversation
conversations_answered (answered conversations) = map conversation_of conversations
conversations_answered (failed code) = []

pub messages_answered : Rpc (List Service.Message) → List Message
messages_answered (answered messages) = map message_of messages
messages_answered (failed code) = []

-- The conversation that is created keeps the id of the user that was asked for.
unfoldable pub created : ℕ → Rpc Conversation → Option Conversation
created recv_user (answered c) = some (record (conversation_of c) { recv_user_id = recv_user })
created recv_user (failed code) = none

unfoldable pub nothing_more : {A : Type 0} → A → Action (Unit {0})
nothing_more a = return tt

module _ (healthy : Address → Bool) where
  unfoldable pub request_signin_user : List ℕ → List ℕ → Rpc ℕ → Action (Unit {0})
  request_signin_user username password rpc =
      and_then
        (locked (
          and_then (send (signin_user_request username password)) (λ s.
            respond healthy rpc (λ id. set_user (some (record { id = id; username = username }))))))
        (λ l. emit (signin_response (is_ok rpc)))

  unfoldable pub request_signup_user : List ℕ → List ℕ → Rpc ℕ → Action (Unit {0})
  request_signup_user username password rpc =
      and_then
        (locked (
          and_then (send (signup_user_request username password)) (λ s.
            respond healthy rpc (λ id. set_user (some (record { id = id; username = username }))))))
        (λ l. emit (signup_response (is_ok rpc)))

  unfoldable pub request_signout_user : Rpc (Unit {0}) → Action (Unit {0})
  request_signout_user rpc = if_user (λ u.
      and_then
        (locked (
          and_then (send (signout_user_request u.id))
            (λ s. respond healthy rpc (λ a. set_user none))))
        (λ l. emit (signout_response (is_ok rpc))))

  -- The lock is held until the end, the test and the signal included.
  unfoldable pub request_delete_user : List ℕ → Rpc (Unit {0}) → Action (Unit {0})
  request_delete_user password rpc = locked (
      if_user (λ u. and_then (send (delete_user_request u.id password)) (λ s.
        and_then (respond healthy rpc (λ a. set_user none))
          (λ r. emit (delete_user_response (is_ok rpc))))))

  unfoldable pub request_get_other_users : List ℕ → Rpc (List User) → Action (Unit {0})
  request_get_other_users query rpc = if_user (λ u.
      and_then
        (locked (
          and_then (send (get_other_users_request u.id query 10 0))
            (λ s. respond healthy rpc nothing_more)))
        (λ l. emit (other_users_response (is_ok rpc) (users_answered rpc))))

  unfoldable pub request_create_conversation : ℕ → Rpc Conversation → Action (Unit {0})
  request_create_conversation recv_user rpc = if_user (λ u.
      and_then
        (locked (
          and_then (send (create_conversation_request u.id recv_user))
            (λ s. respond healthy rpc (λ c. set_conversation (created recv_user rpc)))))
        (λ l.
          and_then (emit (create_conversation_response (is_ok rpc)))
            (λ e. emit (add_conversation (is_ok rpc) (created recv_user rpc)))))

  -- The request's user is not set, which makes it 0.
  unfoldable pub request_get_conversation : ℕ → Rpc Conversation → Action (Unit {0})
  request_get_conversation id rpc = if_user (λ u. locked (
      and_then (send (get_conversation_request 0 id)) (λ s.
        respond healthy rpc
          (λ c. emit (add_conversation true (some (record (conversation_of c) { id = id })))))))

  unfoldable pub request_get_conversations : Rpc (List Conversation) → Action (Unit {0})
  request_get_conversations rpc = if_user (λ u.
      and_then
        (locked (
          and_then (send (get_conversations_request u.id)) (λ s. respond healthy rpc nothing_more)))
        (λ l. emit (conversations_response (is_ok rpc) (conversations_answered rpc))))

  unfoldable pub request_delete_conversation : ℕ → ℕ → Rpc (Unit {0}) → Action (Unit {0})
  request_delete_conversation id index rpc = if_user (λ u.
      and_then
        (locked (
          and_then (send (delete_conversation_request id)) (λ s. respond healthy rpc nothing_more)))
        (λ l. emit (delete_conversation_response (is_ok rpc) index)))

  unfoldable pub request_send_message : List ℕ → Rpc ℕ → Action (Unit {0})
  request_send_message content rpc = if_user (λ u. with_conversation (λ c. locked (
      and_then (send (send_message_request c.id u.id content))
        (λ s. respond healthy rpc nothing_more))))

  -- The message that is logged behind the call uses the conversation that is open.
  unfoldable pub request_read_messages : ℕ → List ℕ → Rpc (Unit {0}) → Action (Unit {0})
  request_read_messages conversation_id ids rpc = if_user (λ u. locked (
      and_then (send (read_messages_request u.id conversation_id ids))
        (λ s. with_conversation (λ c. respond healthy rpc nothing_more))))

  unfoldable pub read_unread : Conversation → List ℕ → Rpc (Unit {0}) → Action (Unit {0})
  read_unread c [] rpc = return tt
  read_unread c (id ∷ ids) rpc = request_read_messages c.id (id ∷ ids) rpc

  unfoldable pub request_get_messages :
      Rpc (List Service.Message) → Rpc (Unit {0}) → Action (Unit {0})
  request_get_messages rpc read_rpc = if_user (λ u. with_conversation (λ c.
      and_then
        (locked (
          and_then (send (get_messages_request c.id))
            (λ s. respond healthy rpc (λ ms. read_unread c c.unread_message_ids read_rpc))))
        (λ l. emit (messages_response (is_ok rpc) c.id (messages_answered rpc)))))

  unfoldable pub request_delete_message : ℕ → ℕ → Rpc (Unit {0}) → Action (Unit {0})
  request_delete_message id index rpc = if_user (λ u. with_conversation (λ c.
      and_then
        (locked (
          and_then (send (delete_message_request c.id id)) (λ s. respond healthy rpc nothing_more)))
        (λ l. emit (delete_message_response (is_ok rpc) index))))

  -- What the stream of `ReceiveMessage` calls for a message: one that another user has sent is read at
  -- once where its conversation is open.
  unfoldable pub read_or_tell : Option Conversation → ℕ → ℕ → Rpc (Unit {0}) → Action (Unit {0})
  read_or_tell none conversation_id id read_rpc = emit (unread_message conversation_id id)
  read_or_tell (some c) conversation_id id read_rpc =
      if c.id == conversation_id
      then request_read_messages c.id (id ∷ []) read_rpc
      else emit (unread_message conversation_id id)

  unfoldable pub from_another : User → ℕ → Service.Message → Rpc (Unit {0}) → Action (Unit {0})
  from_another u conversation_id m read_rpc b =
      if m.send_user_id == u.id
      then return tt b
      else read_or_tell b.conversation conversation_id m.id read_rpc b

  unfoldable pub message_received : ℕ → Service.Message → Rpc (Unit {0}) → Action (Unit {0})
  message_received conversation_id m read_rpc b =
      and_then (follow b.user)
        (λ u. and_then (from_another u conversation_id m read_rpc) (λ f.
          emit
            (receive_message_response conversation_id (record (message_of m) { is_read = false }))))
        b

  unfoldable pub read_messages_received : ℕ → List ℕ → Action (Unit {0})
  read_messages_received conversation_id ids =
      emit (receive_read_messages_response conversation_id ids)
