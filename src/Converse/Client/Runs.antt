-- ===== src/Converse/Client/Runs.antt =====
-- Runs of the backend.
use cs.Prelude.{ℕ, ◌≡◌, ◌⊎◌, refl, ◌==◌, Bool, some, [], ◌∷◌}
use cs.Converse.Link.{Address}
use cs.Converse.Models.{User, Conversation}
use cs.Converse.Client.{
  relocked, and_then, go_on, follow, send, locked, lock_shared, unavailable, answered, failed,
  Backend, returned, blocked,
}
use cs.Converse.Client.Session.{handle_reconnect}
use cs.Converse.Client.Session.{respond}
use cs.Converse.Client.Requests.{
  request_get_messages, if_user, for_user, with_conversation, read_unread, request_read_messages,
}
use cs.Converse.Client.Events.{sends_message, perform}
use cs.Converse.Client.Kept.{Consistent}
use cs.Converse.Client.Blocks.{perform-blocked}
use cs.Converse.Client.Reconnect.{FirstUp, AllDown, moved, lost, handle_reconnect-moves}

abbrev port_up : Address → Bool
port_up a = a.port == 3

abbrev at_port : ℕ → Address
at_port port = record { host = b'h' ∷ []; port = port }

abbrev ann : User
ann = record { id = 7; username = b'a' ∷ [] }

abbrev chat : Conversation
chat = record {
  id = 5;
  recv_user_id = 8;
  recv_user_username = b'b' ∷ [];
  unread_message_ids = 2 ∷ [];
}

abbrev in_chat : Backend
in_chat = record {
  server = at_port 1;
  cluster_addresses = at_port 2 ∷ at_port 3 ∷ at_port 4 ∷ [];
  servers_reader = at_port 1;
  message_reader = some (at_port 1, 7);
  read_messages_reader = some (at_port 1, 7);
  user = some ann;
  conversation = some chat;
  shared = 0;
  sent = [];
  signals = [];
}

-- Getting the messages of a conversation with unread ones locks the mutex twice.
get_messages_relocks : request_get_messages port_up (answered []) (answered tt) in_chat ≡ relocked
unfolding request_get_messages if_user for_user with_conversation and_then go_on follow send locked
    lock_shared respond read_unread request_read_messages
get_messages_relocks = refl

perform-blocked_example :
    perform port_up (sends_message (b'x' ∷ []) (failed unavailable)) in_chat ≡ blocked
perform-blocked_example =
    perform-blocked port_up in_chat refl (at_port 2) (at_port 3 ∷ at_port 4 ∷ []) refl ann refl chat
      refl (sends_message (b'x' ∷ []) (failed unavailable)) refl

handle_reconnect-moves_example :
    ((u : FirstUp port_up in_chat.cluster_addresses) × (handle_reconnect port_up unavailable in_chat
        ≡ returned tt (moved u.next in_chat)))
    ⊎ (AllDown port_up in_chat.cluster_addresses
        × (handle_reconnect port_up unavailable in_chat ≡ returned tt (lost in_chat)))
handle_reconnect-moves_example =
    handle_reconnect-moves port_up in_chat refl (at_port 2) (at_port 3 ∷ at_port 4 ∷ []) refl
