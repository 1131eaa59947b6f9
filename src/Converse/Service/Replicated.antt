-- ===== src/Converse/Service/Replicated.antt =====
-- A replica can execute what the handlers send to the cluster.
use cs.Prelude.{ℕ, ◌≡◌, refl, Option, none, some, List, [], ◌∷◌, ◌++◌}
use cs.Converse.Replay.{Operation, Piece, statement_of, replay}
use cs.Converse.Writers.{UserWriters}
use cs.Converse.Sqlite.{Sqlite, Run, return, go_on, and_then}
use cs.Converse.Service.{
  Argon2, Sent, transactions, message, read_messages, Reply, Status, ok, internal, escaped,
  to_cluster, written, update_by_id, caught, attempt, rolled_back, caught_rollback,
  attempt_rollback,
}
use cs.Converse.Service.Users.{
  user_operation, signup_user, signin_user, signout_user, delete_user, get_other_users,
}
use cs.Converse.Service.Conversations.{
  create_operations, conversation_operation, member_operation, create_conversation,
  get_conversation, get_conversations, delete_conversation,
}
use cs.Converse.Service.Messages.{
  message_operation, read_operations, tell_message, tell_read, send_message, get_messages,
  mark_read_messages, delete_message,
}
use cs.Converse.Service.Requests.{
  Request, signup_user_request, signin_user_request, signout_user_request, delete_user_request,
  get_other_users_request, create_conversation_request, get_conversation_request,
  get_conversations_request, delete_conversation_request, get_messages_request,
  send_message_request, read_messages_request, delete_message_request, serve,
}

-- The operations are inserts or updates.
abbrev pub AllReplayed : List Operation → Type 0
AllReplayed [] = Unit {0}
AllReplayed (op ∷ ops) =
    ((statement : List Piece × List (List ℕ)) × (replay op ≡ some statement)) × AllReplayed ops

abbrev pub Executable : Sent → Type 0
Executable (transactions writer operations) = AllReplayed operations
Executable (message writer conversation_id m) = Unit {0}
Executable (read_messages writer conversation_id ids) = Unit {0}

abbrev pub AllExecutable : List Sent → Type 0
AllExecutable [] = Unit {0}
AllExecutable (s ∷ sent) = Executable s × AllExecutable sent

abbrev pub SendsExecutable : Status → Type 0
SendsExecutable (ok reply sent) = AllExecutable sent
SendsExecutable internal = Unit {0}
SendsExecutable escaped = Unit {0}

AllExecutable-append :
    (xs ys : List Sent) → AllExecutable xs → AllExecutable ys → AllExecutable (xs ++ ys)
AllExecutable-append [] ys e f = f
AllExecutable-append (x ∷ xs) ys (e, es) f = (e, AllExecutable-append xs ys es f)

to_cluster-AllExecutable :
    (cluster : List ℕ) (ops : List Operation)
    → AllReplayed ops
    → AllExecutable (to_cluster cluster ops)
unfolding to_cluster
to_cluster-AllExecutable [] ops r = tt
to_cluster-AllExecutable (writer ∷ cluster) ops r = (r, to_cluster-AllExecutable cluster ops r)

update-AllReplayed :
    (table_name column : List ℕ) (id : ℕ) → AllReplayed (update_by_id table_name column id ∷ [])
unfolding update_by_id replay statement_of
update-AllReplayed table_name column id = ((_, refl), tt)

read_operations-AllReplayed : (ids : List ℕ) → AllReplayed (read_operations ids)
unfolding read_operations update_by_id replay statement_of
read_operations-AllReplayed [] = tt
read_operations-AllReplayed (id ∷ ids) = ((_, refl), read_operations-AllReplayed ids)

written-AllExecutable :
    (writer : Option ℕ) (item : ℕ → Sent)
    → ((w : ℕ) → Executable (item w))
    → AllExecutable (written writer item)
unfolding written
written-AllExecutable none item e = tt
written-AllExecutable (some w) item e = (e w, tt)

module _ (db : Sqlite) where
  -- Whenever the code returns, what it has to send can be executed.
  abbrev SendsAt : db.Connection × Option (Reply × List Sent) → Type 0
  SendsAt (c, none) = Unit {0}
  SendsAt (c, some (reply, sent)) = AllExecutable sent

  abbrev Sends : Run db (Reply × List Sent) → Type 0
  Sends run = (c : db.Connection) → SendsAt (run c)

  Sends-and_then :
      {A : Type 0} (run : Run db A) (f : A → Run db (Reply × List Sent))
      → ((a : A) → Sends (f a))
      → Sends (and_then db run f)
  unfolding and_then go_on
  Sends-and_then {A} run f s c = from (run c)
    where
      from : (p : db.Connection × Option A) → SendsAt (go_on db f p)
      from (c', none) = tt
      from (c', some a) = s a c'

  Sends-return :
      (reply : Reply) (sent : List Sent) → AllExecutable sent → Sends (return db (reply, sent))
  unfolding return
  Sends-return reply sent e c = e

  attempt-Executable :
      (body : Run db (Reply × List Sent)) (c : db.Connection)
      → Sends body
      → SendsExecutable (attempt db body c).1
  unfolding attempt caught
  attempt-Executable body c s = from (body c) (s c)
    where
      from :
          (p : db.Connection × Option (Reply × List Sent))
          → SendsAt p
          → SendsExecutable (caught db p).1
      from (c', none) e = tt
      from (c', some (reply, sent)) e = e

  rolled_back-Executable :
      {A : Type 0} (p : db.Connection × Option A) → SendsExecutable (rolled_back db p).1
  unfolding rolled_back
  rolled_back-Executable (c, none) = tt
  rolled_back-Executable (c, some rows) = tt

  attempt_rollback-Executable :
      (body : Run db (Reply × List Sent)) (c : db.Connection)
      → Sends body
      → SendsExecutable (attempt_rollback db body c).1
  unfolding attempt_rollback caught_rollback
  attempt_rollback-Executable body c s = from (body c) (s c)
    where
      from :
          (p : db.Connection × Option (Reply × List Sent))
          → SendsAt p
          → SendsExecutable (caught_rollback db p).1
      from (c', none) e = rolled_back-Executable _
      from (c', some (reply, sent)) e = e

  -- What any handler sends to the other servers, a replica turns into a statement: no operation is of
  -- the type at which the replay stops with an exception.
  pub serve-Executable :
      (argon2 : Argon2) (cluster : List ℕ) (writers : UserWriters) (request : Request)
      (c : db.Connection)
      → SendsExecutable (serve db argon2 cluster writers request c).1
  unfolding serve signup_user signin_user signout_user delete_user get_other_users
      create_conversation get_conversation get_conversations delete_conversation get_messages
      send_message mark_read_messages delete_message replay statement_of user_operation
      create_operations conversation_operation member_operation message_operation tell_message
      tell_read
  serve-Executable argon2 cluster writers (signup_user_request name password) c =
      attempt-Executable _ c (
        Sends-and_then _ _ (λ trimmed_name. Sends-and_then _ _ (λ username.
          Sends-and_then _ _ (λ encoded. Sends-and_then _ _ (λ rows. Sends-and_then _ _ (λ id.
            Sends-return _ _ (
              to_cluster-AllExecutable cluster (user_operation id username encoded ∷ [])
                ((_, refl), tt))))))))
  serve-Executable argon2 cluster writers (signin_user_request name password) c =
      attempt-Executable _ c (
        Sends-and_then _ _
          (λ rows. Sends-and_then _ _ (λ row. Sends-and_then _ _ (λ fine. Sends-return _ [] tt))))
  serve-Executable argon2 cluster writers (signout_user_request user) c = tt
  serve-Executable argon2 cluster writers (delete_user_request user password) c =
      attempt_rollback-Executable _ c (
        Sends-and_then _ _ (λ marked.
          Sends-return _ _ (to_cluster-AllExecutable cluster _ (update-AllReplayed _ _ user))))
  serve-Executable argon2 cluster writers (get_other_users_request user query limit offset) c =
      attempt-Executable _ c (Sends-and_then _ _ (λ rows. Sends-return _ [] tt))
  serve-Executable argon2 cluster writers (create_conversation_request user other) c =
      attempt_rollback-Executable _ c (
        Sends-and_then _ _ (λ row. Sends-return _ _ (
          to_cluster-AllExecutable cluster (create_operations row.0 user other)
            ((_, refl), ((_, refl), ((_, refl), tt))))))
  serve-Executable argon2 cluster writers (get_conversation_request user id) c =
      attempt-Executable _ c (
        Sends-and_then _ _
          (λ rows. Sends-and_then _ _ (λ row. Sends-and_then _ _ (λ found. Sends-return _ [] tt))))
  serve-Executable argon2 cluster writers (get_conversations_request user) c =
      attempt-Executable _ c
        (Sends-and_then _ _ (λ rows. Sends-and_then _ _ (λ found. Sends-return _ [] tt)))
  serve-Executable argon2 cluster writers (delete_conversation_request id) c =
      attempt-Executable _ c (
        Sends-and_then _ _ (λ marked.
          Sends-return _ _ (to_cluster-AllExecutable cluster _ (update-AllReplayed _ _ id))))
  serve-Executable argon2 cluster writers (get_messages_request id) c =
      attempt-Executable _ c (Sends-and_then _ _ (λ rows. Sends-return _ [] tt))
  serve-Executable argon2 cluster writers (send_message_request id user content) c =
      attempt_rollback-Executable _ c (
        Sends-and_then _ _ (λ row. Sends-return _ _ (
          AllExecutable-append (to_cluster cluster _) _
            (to_cluster-AllExecutable cluster _ ((_, refl), tt))
            (AllExecutable-append (written _ _) _ (written-AllExecutable _ _ (λ w. tt))
              (written-AllExecutable _ _ (λ w. tt))))))
  serve-Executable argon2 cluster writers (read_messages_request user id ids) c =
      attempt-Executable _ c (
        Sends-and_then _ _ (λ rows. Sends-and_then _ _ (λ recv_user. Sends-return _ _ (
          AllExecutable-append (to_cluster cluster _) _
            (to_cluster-AllExecutable cluster _ (read_operations-AllReplayed ids))
            (AllExecutable-append (written _ _) _ (written-AllExecutable _ _ (λ w. tt))
              (written-AllExecutable _ _ (λ w. tt)))))))
  serve-Executable argon2 cluster writers (delete_message_request id m) c = attempt-Executable _ c (
      Sends-and_then _ _ (λ marked.
        Sends-return _ _ (to_cluster-AllExecutable cluster _ (update-AllReplayed _ _ m))))
