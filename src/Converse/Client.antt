-- ===== src/Converse/Client.antt =====
-- The backend of the client, converse/exe_client/src/backend.cpp.
-- What a server answers is an argument of each request, and whether one is healthy a function of its
-- address. The code runs in one thread, which knows how often it holds `channel_mutex_` shared:
-- asking for it exclusively then blocks for good, and asking for it shared once more is undefined,
-- as of any `std::shared_mutex`. Ids are numbers below 2 ^ 31. The arguments of log messages are left
-- out, but where they are the first use of a pointer.
pub mod Unread
pub mod Session
pub mod Requests
pub mod Events
pub mod Asking
pub mod Consistent
pub mod Kept
pub mod Changes
pub mod Blocks
pub mod Reconnect
mod Runs
use cs.Prelude.{
  ℕ, ◌+◌, ◌-◌, ◌==◌, if◌then◌else◌, Bool, true, false, Option, none, some, List, [], ◌∷◌, ◌++◌,
}
use cs.Converse.Link.{Address}
use cs.Converse.Models.{User, Conversation, Message}
use cs.Converse.Service.Requests.{Request}

-- The codes that matter, and what a call returns.
pub data Code : Type 0 where
  unavailable other_error : Code

pub data Rpc (A : Type 0) : Type 0 where
  answered : A → Rpc A
  failed : Code → Rpc A

abbrev pub is_ok : {A : Type 0} → Rpc A → Bool
is_ok (answered a) = true
is_ok (failed code) = false

pub data Signal : Type 0 where
  user_changed conversation_changed : Bool → Signal
  signin_response signup_response signout_response delete_user_response : Bool → Signal
  other_users_response : Bool → List User → Signal
  create_conversation_response : Bool → Signal
  add_conversation : Bool → Option Conversation → Signal
  conversations_response : Bool → List Conversation → Signal
  delete_conversation_response delete_message_response : Bool → ℕ → Signal
  messages_response : Bool → ℕ → List Message → Signal
  receive_message_response : ℕ → Message → Signal
  receive_read_messages_response : ℕ → List ℕ → Signal
  unread_message : ℕ → ℕ → Signal

-- A reader is the server that it reads from, with the user that it reads for.
pub record Backend : Type 0 where
  pub server : Address
  pub cluster_addresses : List Address
  pub servers_reader : Address
  pub message_reader : Option (Address × ℕ)
  pub read_messages_reader : Option (Address × ℕ)
  pub user : Option User
  pub conversation : Option Conversation
  pub shared : ℕ
  pub sent : List (Address × Request)
  pub signals : List Signal

-- The code returns, blocks, locks the mutex that it holds, or follows a null pointer.
pub data Ended (A : Type 0) : Type 0 where
  returned : A → Backend → Ended A
  blocked relocked null_access : Ended A

abbrev pub Action : Type 0 → Type 0
Action A = Backend → Ended A

unfoldable pub return : {A : Type 0} → A → Action A
return a b = returned a b

unfoldable pub go_on : {A B : Type 0} → (A → Action B) → Ended A → Ended B
go_on f (returned a b) = f a b
go_on f blocked = blocked
go_on f relocked = relocked
go_on f null_access = null_access

unfoldable pub and_then : {A B : Type 0} → Action A → (A → Action B) → Action B
and_then m f b = go_on f (m b)

unfoldable pub emit : Signal → Action (Unit {0})
emit signal b = returned tt (record b { signals = b.signals ++ (signal ∷ []) })

unfoldable pub lock_shared : Action (Unit {0})
lock_shared b = if b.shared == 0 then returned tt (record b { shared = b.shared + 1 }) else relocked

unfoldable pub unlock_shared : Action (Unit {0})
unlock_shared b = returned tt (record b { shared = b.shared - 1 })

unfoldable pub lock_unique : Action (Unit {0})
lock_unique b = if b.shared == 0 then returned tt b else blocked

-- A block that holds `std::shared_lock lock(channel_mutex_)`.
unfoldable pub locked : {A : Type 0} → Action A → Action A
locked m = and_then lock_shared (λ l. and_then m (λ a. and_then unlock_shared (λ u. return a)))

-- A use of what a pointer points to.
unfoldable pub follow : {A : Type 0} → Option A → Action A
follow none b = null_access
follow (some a) b = returned a b

unfoldable pub send : Request → Action (Unit {0})
send request b = returned tt (record b { sent = b.sent ++ ((b.server, request) ∷ []) })
