-- ===== src/Converse/Service/Interleaved.antt =====
-- A request that begins while the transaction of another thread is open on the shared connection.
use cs.Prelude.{ℕ, ◌≡◌, true, false, List}
use cs.Converse.Writers.{UserWriters}
use cs.Converse.Sqlite.{Sqlite}
use cs.Converse.Sqlite.Laws.{Documented}
use cs.Converse.Service.{Argon2, internal}
use cs.Converse.Service.Conversations.{insert_conversation_of, create_conversation}
use cs.Converse.Service.Requests.{create_conversation_request, serve}
use cs.Converse.Service.Attempts.{attempt_rollback_nested}

-- CreateConversation, begun while another thread has a transaction open on the connection, is refused,
-- and takes back what the other thread has done since its BEGIN.
pub create_conversation_undoes :
    (db : Sqlite) (l : Documented db) (argon2 : Argon2) (cluster : List ℕ) (writers : UserWriters)
    (user other : ℕ) (c : db.Connection)
    → l.in_transaction c ≡ true
    → let (c', status) =
        serve db argon2 cluster writers (create_conversation_request user other) c in
      (l.in_transaction c' ≡ false) × (l.tables c' ≡ l.at_begin c) × (status ≡ internal)
unfolding serve create_conversation
create_conversation_undoes db l argon2 cluster writers user other c h =
    attempt_rollback_nested db l (insert_conversation_of db user other) _ c h
