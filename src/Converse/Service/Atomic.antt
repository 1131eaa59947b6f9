-- ===== src/Converse/Service/Atomic.antt =====
-- A request that is refused leaves the tables as they were, and none leaves a transaction open.
use cs.Prelude.{
  ℕ, ◌≡◌, refl, inl, inr, not, true, false, Bool, Option, none, some, List, [], ◌∷◌, map,
}
use cs.Converse.Writers.{UserWriters}
use cs.Converse.Text.{trimmed}
use cs.Converse.Sqlite.{
  Statement, Row, insert_user, find_user, find_password, mark_user, find_others,
  insert_conversation, insert_members, find_username, find_conversation, find_conversations,
  mark_conversation, insert_message, find_receiver, find_messages, mark_read, mark_message,
  bound_as_int, Sqlite, Run, return, throw, go_on, and_then, execute, first_row,
}
use cs.Converse.Sqlite.Laws.{Undisturbed, ordinary}
use cs.Converse.Service.{
  Argon2, verify_password, generate_password_encoded, escaped, attempt_rollback,
}
use cs.Converse.Service.Users.{
  signup_name, or_throw, unless, signup_user, signin_user, signout_user, delete_user,
  get_other_users,
}
use cs.Converse.Service.Conversations.{
  conversation_of, conversations_of, insert_conversation_of, create_conversation, get_conversation,
  get_conversations, delete_conversation,
}
use cs.Converse.Service.Messages.{
  insert_message_of, send_checked, send_message, get_messages, mark_read_messages, delete_message,
}
use cs.Converse.Service.Requests.{
  Request, signup_user_request, signin_user_request, signout_user_request, delete_user_request,
  get_other_users_request, create_conversation_request, get_conversation_request,
  get_conversations_request, delete_conversation_request, get_messages_request,
  send_message_request, read_messages_request, delete_message_request, serve,
}
use cs.Converse.Service.Keeps.{
  Reads, Steady, Within, Reads-Steady, Reads-execute, Within-execute, Reads-and_then,
  Within-and_then, Within-return, Within-first_row, Reads-first_row, Reads-return, Steady-write,
  Steady-returning,
}
use cs.Converse.Service.Attempts.{
  Settled, attempt-Settled, rolled_back-outside, attempt_rollback-Settled,
}

module _ (db : Sqlite) (l : Undisturbed db) where
  Reads-or_throw : {A : Type 0} (o : Option A) → Reads db l (or_throw db o)
  unfolding or_throw throw return
  Reads-or_throw none c = (refl, refl)
  Reads-or_throw (some a) c = (refl, refl)

  Reads-unless : (b : Bool) → Reads db l (unless db b)
  unfolding unless throw return
  Reads-unless true c = (refl, refl)
  Reads-unless false c = (refl, refl)

  Within-unless : (b : Bool) → Within db l (unless db b)
  unfolding unless throw return
  Within-unless true c h = (h, refl)
  Within-unless false c h = (h, refl)

  Steady-return : {A : Type 0} (a : A) → Steady db l (return db a)
  Steady-return a = Reads-Steady db l (return db a) (Reads-return db l a)

  -- A handler that reads and answers with a row.
  Steady-reading :
      {A B : Type 0} (rows : List A) (f : A → Run db B)
      → ((a : A) → Steady db l (f a))
      → Steady db l (and_then db (first_row db rows) f)
  Steady-reading rows f s = Reads-and_then db l (first_row db rows) f (Reads-first_row db l rows) s

  Steady-checking :
      {A B : Type 0} (o : Option A) (f : A → Run db B)
      → ((a : A) → Steady db l (f a))
      → Steady db l (and_then db (or_throw db o) f)
  Steady-checking o f s = Reads-and_then db l (or_throw db o) f (Reads-or_throw o) s

  Within-row_of :
      {B : Type 0} (s : Statement) (f : Row s → Run db B)
      → ordinary s ≡ true
      → ((r : Row s) → Within db l (f r))
      → Within db l (and_then db (execute db s) (λ rows. and_then db (first_row db rows) f))
  Within-row_of s f o w =
      Within-and_then db l (execute db s) _ (Within-execute db l s o)
        (λ rows. Within-and_then db l (first_row db rows) f (Within-first_row db l rows) w)

  -- A message without content is not answered: no transaction has been begun, so the ROLLBACK that
  -- the handler executes is an error, and its exception leaves the handler. The tables are as
  -- they were.
  pub send_empty_escapes :
      (cluster : List ℕ) (writers : UserWriters) (id user : ℕ) (c : db.Connection)
      → l.documented.in_transaction c ≡ false
      → let (c', status) = send_message db cluster writers id user [] c in
        (l.documented.in_transaction c' ≡ false)
        × (l.documented.tables c' ≡ l.documented.tables c)
        × (status ≡ escaped)
  unfolding send_message send_checked and_then go_on throw attempt_rollback
  send_empty_escapes cluster writers id user c h = rolled_back-outside db l c h

  -- On a connection that nobody else uses and that has no transaction open, where SQLite answers no
  -- statement with SQLITE_BUSY, SQLITE_FULL, SQLITE_IOERR, SQLITE_NOMEM or SQLITE_INTERRUPT, and a COMMIT
  -- with SQLITE_DONE or SQLITE_ERROR only, no request leaves one open, and the tables are as they were
  -- unless the request is answered with OK, whichever statement fails, the COMMIT included.
  pub serve-Settled :
      (argon2 : Argon2) (cluster : List ℕ) (writers : UserWriters) (request : Request)
      (c : db.Connection)
      → l.documented.in_transaction c ≡ false
      → Settled db l c (serve db argon2 cluster writers request c)
  unfolding serve signup_user signin_user signout_user delete_user get_other_users
      create_conversation get_conversation get_conversations delete_conversation get_messages
      send_message send_checked mark_read_messages delete_message insert_conversation_of
      insert_message_of
  serve-Settled argon2 cluster writers (signup_user_request name password) c h =
      attempt-Settled db l _ c h (
        Steady-checking (trimmed name) _ (λ trimmed_name.
          Steady-checking (signup_name trimmed_name password) _ (λ username.
            Steady-checking (generate_password_encoded argon2 password) _
              (λ encoded. Steady-returning db l (insert_user name encoded) _ refl refl))))
  serve-Settled argon2 cluster writers (signin_user_request name password) c h =
      attempt-Settled db l _ c h (
        Reads-and_then db l (execute db (find_user name)) _
          (Reads-execute db l (find_user name) refl refl)
          (λ rows. Steady-reading rows _ (λ row.
            Reads-and_then db l (unless db (not (verify_password argon2 password row.1))) _
              (Reads-unless (not (verify_password argon2 password row.1)))
              (λ fine. Steady-return _))))
  serve-Settled argon2 cluster writers (signout_user_request user) c h = (h, inl refl)
  serve-Settled argon2 cluster writers (delete_user_request user password) c h =
      attempt_rollback-Settled db l _ _ c h (
        Within-row_of (find_password user) _ refl (λ encoded.
          Within-and_then db l (unless db (not (verify_password argon2 password encoded))) _
            (Within-unless (not (verify_password argon2 password encoded)))
            (λ fine. Within-execute db l (mark_user user) refl)))
  serve-Settled argon2 cluster writers (get_other_users_request user query limit offset) c h =
      attempt-Settled db l _ c h (
        Reads-and_then db l (execute db (find_others user _ limit offset)) _
          (Reads-execute db l (find_others user _ limit offset) refl refl)
          (λ rows. Steady-return _))
  serve-Settled argon2 cluster writers (create_conversation_request user other) c h =
      attempt_rollback-Settled db l _ _ c h (
        Within-row_of (find_username other) _ refl (λ name.
          Within-row_of insert_conversation _ refl (λ id.
            Within-and_then db l (execute db (insert_members id user id other)) _
              (Within-execute db l (insert_members id user id other) refl)
              (λ inserted. Within-return db l (id, name)))))
  serve-Settled argon2 cluster writers (get_conversation_request user id) c h =
      attempt-Settled db l _ c h (
        Reads-and_then db l (execute db (find_conversation id user)) _
          (Reads-execute db l (find_conversation id user) refl refl)
          (λ rows. Steady-reading rows _ (λ (recv_user, name, unread).
            Steady-checking (conversation_of id recv_user name unread) _
              (λ found. Steady-return _))))
  serve-Settled argon2 cluster writers (get_conversations_request user) c h =
      attempt-Settled db l _ c h (
        Reads-and_then db l (execute db (find_conversations user)) _
          (Reads-execute db l (find_conversations user) refl refl)
          (λ rows. Steady-checking (conversations_of rows) _ (λ found. Steady-return _)))
  serve-Settled argon2 cluster writers (delete_conversation_request id) c h =
      attempt-Settled db l _ c h (Steady-write db l (mark_conversation id) _ refl)
  serve-Settled argon2 cluster writers (get_messages_request id) c h = attempt-Settled db l _ c h (
      Reads-and_then db l (execute db (find_messages id)) _
        (Reads-execute db l (find_messages id) refl refl) (λ rows. Steady-return _))
  serve-Settled argon2 cluster writers (send_message_request id user []) c h =
      let (closed, same, out) = send_empty_escapes cluster writers id user c h in (closed, inr same)
  serve-Settled argon2 cluster writers (send_message_request id user (x ∷ content)) c h =
      attempt_rollback-Settled db l _ _ c h (
        Within-row_of (insert_message id user (x ∷ content)) _ refl (λ message.
          Within-row_of (find_receiver id user) _ refl
            (λ receiver. Within-return db l (message, receiver))))
  serve-Settled argon2 cluster writers (read_messages_request user id ids) c h =
      attempt-Settled db l _ c h
        (Steady-returning db l (mark_read (bound_as_int user) (map bound_as_int ids)) _ refl refl)
  serve-Settled argon2 cluster writers (delete_message_request id message) c h =
      attempt-Settled db l _ c h (Steady-write db l (mark_message id message) _ refl)
