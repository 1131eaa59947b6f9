-- ===== src/Converse/Service/Runs.antt =====
-- Runs of the service over a database that remembers the statements that write.
use cs.Prelude.{◌≡◌, ◌⊎◌, refl, inl, true, false, Bool, some, List, [], ◌∷◌, ◌++◌}
use cs.Converse.Sqlite.{
  Statement, begin_transaction, commit, rollback, insert_conversation, insert_user, find_user,
  find_others, find_password, mark_user, find_username, mark_conversation, find_conversations,
  find_messages, insert_members, find_conversation, find_receiver, mark_message, insert_message,
  mark_read, Row, Answer, done, error, Sqlite,
}
use cs.Converse.Sqlite.Laws.{
  is_done, is_disturbed, ordinary, reads, returns, Documented, Undisturbed,
}
use cs.Converse.Service.{Argon2, internal}
use cs.Converse.Service.Requests.{Request, send_message_request, create_conversation_request, serve}
use cs.Converse.Service.Attempts.{Settled}
use cs.Converse.Service.Atomic.{serve-Settled}
use cs.Converse.Service.Interleaved.{create_conversation_undoes}
use cs.Converse.Service.Replicated.{SendsExecutable, serve-Executable}

record Remembered : Type 0 where
  log : List Statement
  saved : List Statement
  begun : Bool

abbrev logged : Statement → Remembered → Remembered
logged s c = record c { log = c.log ++ (s ∷ []) }

abbrev begin_on : Bool → Remembered → Remembered × Answer (Unit {0})
begin_on true c = (c, error)
begin_on false c = (record { log = c.log; saved = c.log; begun = true }, done [])

abbrev commit_on : Bool → Remembered → Remembered × Answer (Unit {0})
commit_on false c = (c, error)
commit_on true c = (record c { begun = false }, done [])

abbrev rollback_on : Bool → Remembered → Remembered × Answer (Unit {0})
rollback_on false c = (c, error)
rollback_on true c = (record { log = c.saved; saved = c.saved; begun = false }, done [])

abbrev answer_of : (s : Statement) → Remembered → Remembered × Answer (Row s)
answer_of begin_transaction c = begin_on c.begun c
answer_of commit c = commit_on c.begun c
answer_of rollback c = rollback_on c.begun c
answer_of insert_conversation c = (logged insert_conversation c, done (7 ∷ []))
answer_of (insert_user a b) c = (logged (insert_user a b) c, done (7 ∷ []))
answer_of (find_user a) c = (c, done [])
answer_of (find_others a b d e) c = (c, done [])
answer_of (find_password a) c = (c, done ((b'x' ∷ []) ∷ []))
answer_of (mark_user a) c = (logged (mark_user a) c, done [])
answer_of (find_username a) c = (c, done ((b'n' ∷ []) ∷ []))
answer_of (mark_conversation a) c = (logged (mark_conversation a) c, done [])
answer_of (find_conversations a) c = (c, done [])
answer_of (find_messages a) c = (c, done [])
answer_of (insert_members a b d e) c = (logged (insert_members a b d e) c, done [])
answer_of (find_conversation a b) c = (c, done [])
answer_of (find_receiver a b) c = (c, done (8 ∷ []))
answer_of (mark_message a b) c = (logged (mark_message a b) c, done [])
answer_of (insert_message a b d) c = (logged (insert_message a b d) c, done (7 ∷ []))
answer_of (mark_read a b) c = (logged (mark_read a b) c, done (8 ∷ []))

abbrev remembering : Sqlite
remembering = record { Connection = Remembered; answer = answer_of }

ordinary_kept :
    (s : Statement) (c : Remembered)
    → ordinary s ≡ true
    → ((answer_of s c).0.begun ≡ c.begun) × ((answer_of s c).0.saved ≡ c.saved)
ordinary_kept begin_transaction c h = absurd (cc)
ordinary_kept commit c h = absurd (cc)
ordinary_kept rollback c h = absurd (cc)
ordinary_kept insert_conversation c h = (refl, refl)
ordinary_kept (insert_user a b) c h = (refl, refl)
ordinary_kept (find_user a) c h = (refl, refl)
ordinary_kept (find_others a b d e) c h = (refl, refl)
ordinary_kept (find_password a) c h = (refl, refl)
ordinary_kept (mark_user a) c h = (refl, refl)
ordinary_kept (find_username a) c h = (refl, refl)
ordinary_kept (mark_conversation a) c h = (refl, refl)
ordinary_kept (find_conversations a) c h = (refl, refl)
ordinary_kept (find_messages a) c h = (refl, refl)
ordinary_kept (insert_members a b d e) c h = (refl, refl)
ordinary_kept (find_conversation a b) c h = (refl, refl)
ordinary_kept (find_receiver a b) c h = (refl, refl)
ordinary_kept (mark_message a b) c h = (refl, refl)
ordinary_kept (insert_message a b d) c h = (refl, refl)
ordinary_kept (mark_read a b) c h = (refl, refl)

undone_kept :
    (s : Statement) (c : Remembered)
    → ordinary s ≡ true
    → is_done (answer_of s c).1 ≡ false
    → (answer_of s c).0.log ≡ c.log
undone_kept begin_transaction c h u = absurd (cc)
undone_kept commit c h u = absurd (cc)
undone_kept rollback c h u = absurd (cc)
undone_kept insert_conversation c h u = absurd (cc)
undone_kept (insert_user a b) c h u = absurd (cc)
undone_kept (find_user a) c h u = absurd (cc)
undone_kept (find_others a b d e) c h u = absurd (cc)
undone_kept (find_password a) c h u = absurd (cc)
undone_kept (mark_user a) c h u = absurd (cc)
undone_kept (find_username a) c h u = absurd (cc)
undone_kept (mark_conversation a) c h u = absurd (cc)
undone_kept (find_conversations a) c h u = absurd (cc)
undone_kept (find_messages a) c h u = absurd (cc)
undone_kept (insert_members a b d e) c h u = absurd (cc)
undone_kept (find_conversation a b) c h u = absurd (cc)
undone_kept (find_receiver a b) c h u = absurd (cc)
undone_kept (mark_message a b) c h u = absurd (cc)
undone_kept (insert_message a b d) c h u = absurd (cc)
undone_kept (mark_read a b) c h u = absurd (cc)

reading_kept : (s : Statement) (c : Remembered) → reads s ≡ true → (answer_of s c).0.log ≡ c.log
reading_kept begin_transaction c h = absurd (cc)
reading_kept commit c h = absurd (cc)
reading_kept rollback c h = absurd (cc)
reading_kept insert_conversation c h = absurd (cc)
reading_kept (insert_user a b) c h = absurd (cc)
reading_kept (find_user a) c h = refl
reading_kept (find_others a b d e) c h = refl
reading_kept (find_password a) c h = refl
reading_kept (mark_user a) c h = absurd (cc)
reading_kept (find_username a) c h = refl
reading_kept (mark_conversation a) c h = absurd (cc)
reading_kept (find_conversations a) c h = refl
reading_kept (find_messages a) c h = refl
reading_kept (insert_members a b d e) c h = absurd (cc)
reading_kept (find_conversation a b) c h = refl
reading_kept (find_receiver a b) c h = refl
reading_kept (mark_message a b) c h = absurd (cc)
reading_kept (insert_message a b d) c h = absurd (cc)
reading_kept (mark_read a b) c h = absurd (cc)

returning_kept :
    (s : Statement) (c : Remembered)
    → returns s ≡ true
    → (answer_of s c).1 ≡ done []
    → (answer_of s c).0.log ≡ c.log
returning_kept begin_transaction c h u = absurd (cc)
returning_kept commit c h u = absurd (cc)
returning_kept rollback c h u = absurd (cc)
returning_kept insert_conversation c h u = absurd (cc)
returning_kept (insert_user a b) c h u = absurd (cc)
returning_kept (find_user a) c h u = absurd (cc)
returning_kept (find_others a b d e) c h u = absurd (cc)
returning_kept (find_password a) c h u = absurd (cc)
returning_kept (mark_user a) c h u = absurd (cc)
returning_kept (find_username a) c h u = absurd (cc)
returning_kept (mark_conversation a) c h u = absurd (cc)
returning_kept (find_conversations a) c h u = absurd (cc)
returning_kept (find_messages a) c h u = absurd (cc)
returning_kept (insert_members a b d e) c h u = absurd (cc)
returning_kept (find_conversation a b) c h u = absurd (cc)
returning_kept (find_receiver a b) c h u = absurd (cc)
returning_kept (mark_message a b) c h u = absurd (cc)
returning_kept (insert_message a b d) c h u = absurd (cc)
returning_kept (mark_read a b) c h u = absurd (cc)

begin_on-closed :
    (c : Remembered) (b : Bool)
    → b ≡ false
    → ((begin_on b c).0.begun ≡ true)
      × ((begin_on b c).0.saved ≡ c.log)
      × (is_done (begin_on b c).1 ≡ true)
begin_on-closed c true h = absurd (cc)
begin_on-closed c false h = (refl, refl, refl)

begin_on-open :
    (c : Remembered) (b : Bool)
    → b ≡ true
    → c.begun ≡ true
    → ((begin_on b c).0.begun ≡ true)
      × ((begin_on b c).0.saved ≡ c.saved)
      × ((begin_on b c).1 ≡ error)
begin_on-open c true h o = (o, refl, refl)
begin_on-open c false h o = absurd (cc)

commit_on-open :
    (c : Remembered) (b : Bool)
    → b ≡ true
    → (((commit_on b c).0.begun ≡ false) × (is_done (commit_on b c).1 ≡ true))
      ⊎ (((commit_on b c).0.begun ≡ true)
          × ((commit_on b c).0.saved ≡ c.saved)
          × ((commit_on b c).1 ≡ error))
commit_on-open c true h = inl (refl, refl)
commit_on-open c false h = absurd (cc)

rollback_on-open :
    (c : Remembered) (b : Bool)
    → b ≡ true
    → ((rollback_on b c).0.begun ≡ false)
      × ((rollback_on b c).0.log ≡ c.saved)
      × (is_done (rollback_on b c).1 ≡ true)
rollback_on-open c true h = (refl, refl, refl)
rollback_on-open c false h = absurd (cc)

rollback_on-closed :
    (c : Remembered) (b : Bool)
    → b ≡ false
    → c.begun ≡ false
    → ((rollback_on b c).0.begun ≡ false)
      × ((rollback_on b c).0.log ≡ c.log)
      × ((rollback_on b c).1 ≡ error)
rollback_on-closed c true h o = absurd (cc)
rollback_on-closed c false h o = (o, refl, refl)

never_on :
    (on : Bool → Remembered → Remembered × Answer (Unit {0})) (b : Bool) (c : Remembered)
    → is_disturbed (on true c).1 ≡ false
    → is_disturbed (on false c).1 ≡ false
    → is_disturbed (on b c).1 ≡ false
never_on on true c t f = t
never_on on false c t f = f

undisturbed : (s : Statement) (c : Remembered) → is_disturbed (answer_of s c).1 ≡ false
undisturbed begin_transaction c = never_on begin_on c.begun c refl refl
undisturbed commit c = never_on commit_on c.begun c refl refl
undisturbed rollback c = never_on rollback_on c.begun c refl refl
undisturbed insert_conversation c = refl
undisturbed (insert_user a b) c = refl
undisturbed (find_user a) c = refl
undisturbed (find_others a b d e) c = refl
undisturbed (find_password a) c = refl
undisturbed (mark_user a) c = refl
undisturbed (find_username a) c = refl
undisturbed (mark_conversation a) c = refl
undisturbed (find_conversations a) c = refl
undisturbed (find_messages a) c = refl
undisturbed (insert_members a b d e) c = refl
undisturbed (find_conversation a b) c = refl
undisturbed (find_receiver a b) c = refl
undisturbed (mark_message a b) c = refl
undisturbed (insert_message a b d) c = refl
undisturbed (mark_read a b) c = refl

abbrev with_transactions : Documented remembering
with_transactions = record {
  Tables = List Statement;
  tables = λ c. c.log;
  at_begin = λ c. c.saved;
  in_transaction = λ c. c.begun;
  begin_nested = λ c h. begin_on-open c c.begun h h;
  rollback_restores = λ c h. rollback_on-open c c.begun h;
  rollback_outside = λ c h. rollback_on-closed c c.begun h h;
}

abbrev never_disturbs : Undisturbed remembering
never_disturbs = record {
  documented = with_transactions;
  never_disturbed = undisturbed;
  begin_opens = λ c h. begin_on-closed c c.begun h;
  commit_closes = λ c h. commit_on-open c c.begun h;
  ordinary_keeps = ordinary_kept;
  undone_keeps = undone_kept;
  reading_keeps = reading_kept;
  returning_nothing = returning_kept;
}

abbrev closed : Remembered
closed = record { log = insert_conversation ∷ []; saved = []; begun = false }

abbrev of_another : Remembered
of_another = record { log = insert_conversation ∷ []; saved = []; begun = true }

abbrev plain : Argon2
plain = record { encode = some; verify = λ encoded password. true }

abbrev hello : Request
hello = send_message_request 3 7 (b'h' ∷ b'i' ∷ [])

serve-Settled_example :
    Settled remembering never_disturbs closed (serve remembering plain (5 ∷ []) [] hello closed)
serve-Settled_example = serve-Settled remembering never_disturbs plain (5 ∷ []) [] hello closed refl

create_conversation_undoes_example :
    let (c', status) =
      serve remembering plain (5 ∷ []) [] (create_conversation_request 7 8) of_another in
    (c'.begun ≡ false) × (c'.log ≡ []) × (status ≡ internal)
create_conversation_undoes_example =
    create_conversation_undoes remembering with_transactions plain (5 ∷ []) [] 7 8 of_another refl

serve-Executable_example : SendsExecutable (serve remembering plain (5 ∷ []) [] hello closed).1
serve-Executable_example = serve-Executable remembering plain (5 ∷ []) [] hello closed
