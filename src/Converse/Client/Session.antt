-- ===== src/Converse/Client/Session.antt =====
-- `set_user`, `set_conversation` and `handle_reconnect`.
use cs.Prelude.{Bool, true, false, if◌then◌else◌, Option, none, some, List, [], ◌∷◌, ◌++◌}
use cs.Converse.Link.{Address}
use cs.Converse.Models.{User, Conversation}
use cs.Converse.Client.{
  Code, unavailable, other_error, Rpc, answered, failed, user_changed, conversation_changed,
  returned, Action, return, and_then, emit, lock_unique, follow,
}

-- `value == nullptr`
abbrev pub is_null : {A : Type 0} → Option A → Bool
is_null none = true
is_null (some a) = false

unfoldable pub put_conversation : Option Conversation → Action (Unit {0})
put_conversation value b = returned tt (record b { conversation = value })

unfoldable pub change_conversation : Option Conversation → Action (Unit {0})
change_conversation value =
    and_then (put_conversation value) (λ p. emit (conversation_changed (is_null value)))

-- Two pointers are the same only where both are null, as a new object is passed otherwise.
unfoldable pub set_conversation_from : Option Conversation → Option Conversation → Action (Unit {0})
set_conversation_from none none = return tt
set_conversation_from none (some c) = change_conversation (some c)
set_conversation_from (some old) value = change_conversation value

unfoldable pub set_conversation : Option Conversation → Action (Unit {0})
set_conversation value b = set_conversation_from b.conversation value b

-- New readers for a user, or none.
unfoldable pub put_readers : Option User → Action (Unit {0})
put_readers none b =
    returned tt (record b { user = none; message_reader = none; read_messages_reader = none })
put_readers (some u) b = returned tt (record b {
  user = some u;
  message_reader = some (b.server, u.id);
  read_messages_reader = some (b.server, u.id);
})

-- The readers of the user before are cancelled and waited for.
unfoldable pub cancel_readers : Action (Unit {0})
cancel_readers b =
    and_then (follow b.message_reader)
      (λ m. and_then (follow b.read_messages_reader) (λ r. return tt)) b

unfoldable pub change_user : Option User → Action (Unit {0})
change_user value = and_then (put_readers value) (λ p. emit (user_changed (is_null value)))

unfoldable pub leave_user : Action (Unit {0})
leave_user = and_then cancel_readers (λ c. set_conversation none)

unfoldable pub set_user_from : Option User → Option User → Action (Unit {0})
set_user_from none none = return tt
set_user_from none (some u) = change_user (some u)
set_user_from (some old) value = and_then leave_user (λ l. change_user value)

unfoldable pub set_user : Option User → Action (Unit {0})
set_user value b = set_user_from b.user value b

-- The servers that are told on the stream of `GetServers`.
unfoldable pub put_addresses : List Address → Action (Unit {0})
put_addresses addresses b =
    returned tt (record b { cluster_addresses = b.cluster_addresses ++ addresses })

unfoldable pub servers_told : List Address → Action (Unit {0})
servers_told addresses = and_then lock_unique (λ l. put_addresses addresses)

module _ (healthy : Address → Bool) where
  -- The loop: addresses are taken from the front until one is healthy.
  unfoldable pub connect_first : List Address → Option Address
  connect_first [] = none
  connect_first (address ∷ addresses) =
      let rest = connect_first addresses in if healthy address then some address else rest

  unfoldable pub connected_to : Address → Action (Unit {0})
  connected_to address b =
      returned tt (record b { server = address; cluster_addresses = []; servers_reader = address })

  unfoldable pub read_again : Option User → Action (Unit {0})
  read_again none b = returned tt b
  read_again (some u) b = returned tt (record b {
    message_reader = some (b.server, u.id);
    read_messages_reader = some (b.server, u.id);
  })

  unfoldable pub resume : Option Address → Action (Unit {0})
  resume none b = returned tt (record b { cluster_addresses = [] })
  resume (some address) b = and_then (connected_to address) (λ c. read_again b.user) b

  -- Behind the tests.
  unfoldable pub reconnect : Action (Unit {0})
  reconnect = and_then lock_unique (λ l b. resume (connect_first b.cluster_addresses) b)

  unfoldable pub reconnect_from : List Address → Action (Unit {0})
  reconnect_from [] = return tt
  reconnect_from (address ∷ addresses) = reconnect

  unfoldable pub handle_reconnect : Code → Action (Unit {0})
  handle_reconnect other_error b = returned tt b
  handle_reconnect unavailable b = reconnect_from b.cluster_addresses b

  -- Behind a call: what is done with its answer, or the change of the server.
  unfoldable pub respond : {A : Type 0} → Rpc A → (A → Action (Unit {0})) → Action (Unit {0})
  respond (answered a) f = f a
  respond (failed code) f = handle_reconnect code
