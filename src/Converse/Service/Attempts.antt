-- ===== src/Converse/Service/Attempts.antt =====
-- How a handler leaves the connection, from what its code keeps of it.
use cs.Prelude.{◌≡◌, refl, ◌∙◌, ◌⊎◌, inl, inr, true, false, Bool, Option, none, some, List}
use cs.Converse.Sqlite.{
  begin_transaction, commit, rollback, Answer, done, disturbed, other_code, unprepared, error,
  Sqlite, rows_of, Run, return, throw, go_on, and_then, execute, transaction,
}
use cs.Converse.Sqlite.Laws.{is_done, Documented, Undisturbed}
use cs.Converse.Service.{
  Sent, Reply, Status, ok, internal, escaped, caught, attempt, rolled_back, caught_rollback,
  attempt_rollback,
}
use cs.Converse.Service.Keeps.{Steady, SteadyAt, Within}

abbrev pub answered : Status → Bool
answered (ok reply sent) = true
answered internal = false
answered escaped = false

module _ (db : Sqlite) (l : Undisturbed db) where
  -- No transaction is open, and the tables are as they were unless the request was answered.
  abbrev pub Settled : db.Connection → db.Connection × Status → Type 0
  Settled c p =
      (l.documented.in_transaction p.0 ≡ false)
      × ((answered p.1 ≡ true) ⊎ (l.documented.tables p.0 ≡ l.documented.tables c))

  pub attempt-Settled :
      (body : Run db (Reply × List Sent)) (c : db.Connection)
      → l.documented.in_transaction c ≡ false
      → Steady db l body
      → Settled c (attempt db body c)
  unfolding attempt caught
  attempt-Settled body c h s = from (body c) (s c)
    where
      from :
          (p : db.Connection × Option (Reply × List Sent))
          → SteadyAt db l c p
          → Settled c (caught db p)
      from (c', some (reply, sent)) (i, k) = (i ∙ h, inl refl)
      from (c', none) (i, inr same) = (i ∙ h, inr same)
      from (c', none) (i, inl (a, e)) = absurd (cc)

  -- After the transaction of a handler: closed, or open for the ROLLBACK.
  abbrev pub Transacted : {A : Type 0} → db.Connection → db.Connection × Option A → Type 0
  Transacted c (c', none) =
      (l.documented.in_transaction c' ≡ true) × (l.documented.at_begin c' ≡ l.documented.tables c)
  Transacted c (c', some a) = l.documented.in_transaction c' ≡ false

  transaction-end :
      {A : Type 0} (c : db.Connection) (p : db.Connection × Option A)
      → (l.documented.in_transaction p.0 ≡ true)
      → (l.documented.at_begin p.0 ≡ l.documented.tables c)
      → Transacted c (go_on db (λ a. and_then db (execute db commit) (λ done_rows. return db a)) p)
  unfolding go_on and_then execute return rows_of
  transaction-end {A} c (c', none) i b = (i, b)
  transaction-end {A} c (c', some a) i b = from (db.answer commit c') (l.commit_closes c' i)
    where
      from :
          (q : db.Connection × Answer (Unit {0}))
          → ((l.documented.in_transaction q.0 ≡ false) × (is_done q.1 ≡ true))
            ⊎ ((l.documented.in_transaction q.0 ≡ true)
                × (l.documented.at_begin q.0 ≡ l.documented.at_begin c')
                × (q.1 ≡ error))
          → Transacted c (go_on db (λ done_rows e. (e, some a)) (q.0, rows_of q.1))
      from (d, done rows) (inl (j, e)) = j
      from (d, disturbed rows) (inl (j, e)) = absurd (cc)
      from (d, other_code rows) (inl (j, e)) = absurd (cc)
      from (d, unprepared) (inl (j, e)) = absurd (cc)
      from (d, error) (inl (j, e)) = absurd (cc)
      from (d, done rows) (inr (j, k, e)) = absurd (cc)
      from (d, disturbed rows) (inr (j, k, e)) = absurd (cc)
      from (d, other_code rows) (inr (j, k, e)) = absurd (cc)
      from (d, unprepared) (inr (j, k, e)) = absurd (cc)
      from (d, error) (inr (j, k, e)) = (j, k ∙ b)

  pub transaction-Transacted :
      {A : Type 0} (run : Run db A) (c : db.Connection)
      → l.documented.in_transaction c ≡ false
      → Within db l run
      → Transacted c (transaction db run c)
  unfolding transaction and_then go_on execute rows_of
  transaction-Transacted {A} run c h w = from (db.answer begin_transaction c) (l.begin_opens c h)
    where
      commits : A → Run db A
      commits a = and_then db (execute db commit) (λ done_rows. return db a)

      from :
          (q : db.Connection × Answer (Unit {0}))
          → (l.documented.in_transaction q.0 ≡ true)
            × (l.documented.at_begin q.0 ≡ l.documented.tables c)
            × (is_done q.1 ≡ true)
          → Transacted c (go_on db (λ rows d. go_on db commits (run d)) (q.0, rows_of q.1))
      from (d, done rows) (i, b, e) = let (j, k) = w d i in transaction-end c (run d) j (k ∙ b)
      from (d, disturbed rows) (i, b, e) = absurd (cc)
      from (d, other_code rows) (i, b, e) = absurd (cc)
      from (d, unprepared) (i, b, e) = absurd (cc)
      from (d, error) (i, b, e) = absurd (cc)

  -- The ROLLBACK of a handler, inside a transaction and outside one.
  rolled_back-inside :
      (c c' : db.Connection)
      → l.documented.in_transaction c' ≡ true
      → l.documented.at_begin c' ≡ l.documented.tables c
      → Settled c (rolled_back db (execute db rollback c'))
  unfolding rolled_back execute rows_of
  rolled_back-inside c c' i b = from (db.answer rollback c') (l.documented.rollback_restores c' i)
    where
      from :
          (q : db.Connection × Answer (Unit {0}))
          → (l.documented.in_transaction q.0 ≡ false)
            × (l.documented.tables q.0 ≡ l.documented.at_begin c')
            × (is_done q.1 ≡ true)
          → Settled c (rolled_back db (q.0, rows_of q.1))
      from (d, done rows) (j, t, e) = (j, inr (t ∙ b))
      from (d, disturbed rows) (j, t, e) = absurd (cc)
      from (d, other_code rows) (j, t, e) = absurd (cc)
      from (d, unprepared) (j, t, e) = absurd (cc)
      from (d, error) (j, t, e) = absurd (cc)

  pub rolled_back-outside :
      (c : db.Connection)
      → l.documented.in_transaction c ≡ false
      → (l.documented.in_transaction (attempt_rollback db (throw db) c).0 ≡ false)
        × (l.documented.tables (attempt_rollback db (throw db) c).0 ≡ l.documented.tables c)
        × ((attempt_rollback db (throw db) c).1 ≡ escaped)
  unfolding attempt_rollback caught_rollback throw rolled_back execute rows_of
  rolled_back-outside c h = from (db.answer rollback c) (l.documented.rollback_outside c h)
    where
      from :
          (q : db.Connection × Answer (Unit {0}))
          → (l.documented.in_transaction q.0 ≡ false)
            × (l.documented.tables q.0 ≡ l.documented.tables c)
            × (q.1 ≡ error)
          → (l.documented.in_transaction (rolled_back db (q.0, rows_of q.1)).0 ≡ false)
            × (l.documented.tables (rolled_back db (q.0, rows_of q.1)).0 ≡ l.documented.tables c)
            × ((rolled_back db (q.0, rows_of q.1)).1 ≡ escaped)
      from (d, error) (j, t, e) = (j, t, refl)
      from (d, done rows) (j, t, e) = absurd (cc)
      from (d, disturbed rows) (j, t, e) = absurd (cc)
      from (d, other_code rows) (j, t, e) = absurd (cc)
      from (d, unprepared) (j, t, e) = absurd (cc)

  pub attempt_rollback-Settled :
      {A : Type 0} (run : Run db A) (f : A → Reply × List Sent) (c : db.Connection)
      → l.documented.in_transaction c ≡ false
      → Within db l run
      → Settled c (attempt_rollback db (and_then db (transaction db run) (λ a. return db (f a))) c)
  unfolding attempt_rollback caught_rollback and_then go_on return
  attempt_rollback-Settled {A} run f c h w =
      from (transaction db run c) (transaction-Transacted run c h w)
    where
      from :
          (p : db.Connection × Option A)
          → Transacted c p
          → Settled c (caught_rollback db (go_on db (λ a d. (d, some (f a))) p))
      from (c', none) (i, b) = rolled_back-inside c c' i b
      from (c', some a) i = (i, inl refl)

module _ (db : Sqlite) (l : Documented db) where
  -- A handler that begins inside the transaction of another thread: its BEGIN is an error, and its
  -- ROLLBACK takes back what the other has done.
  pub attempt_rollback_nested :
      {A : Type 0} (run : Run db A) (f : A → Reply × List Sent) (c : db.Connection)
      → l.in_transaction c ≡ true
      → let (c', status) =
          attempt_rollback db (and_then db (transaction db run) (λ a. return db (f a))) c in
        (l.in_transaction c' ≡ false) × (l.tables c' ≡ l.at_begin c) × (status ≡ internal)
  unfolding attempt_rollback and_then transaction go_on execute rows_of caught_rollback rolled_back
  attempt_rollback_nested {A} run f c h = from (db.answer begin_transaction c) (l.begin_nested c h)
    where
      Undone : db.Connection × Status → Type 0
      Undone p = (l.in_transaction p.0 ≡ false) × (l.tables p.0 ≡ l.at_begin c) × (p.1 ≡ internal)

      undone :
          (d : db.Connection) (q : db.Connection × Answer (Unit {0}))
          → l.at_begin d ≡ l.at_begin c
          → (l.in_transaction q.0 ≡ false) × (l.tables q.0 ≡ l.at_begin d) × (is_done q.1 ≡ true)
          → Undone (rolled_back db (q.0, rows_of q.1))
      undone d (e, done rows) b (j, t, k) = (j, t ∙ b, refl)
      undone d (e, disturbed rows) b (j, t, k) = absurd (cc)
      undone d (e, other_code rows) b (j, t, k) = absurd (cc)
      undone d (e, unprepared) b (j, t, k) = absurd (cc)
      undone d (e, error) b (j, t, k) = absurd (cc)

      after : db.Connection × Option (List (Unit {0})) → db.Connection × Status
      after p = caught_rollback db (
          go_on db (λ a d. return db (f a) d)
            (go_on db
              (λ rows.
                and_then db run (λ a. and_then db (execute db commit) (λ done_rows. return db a)))
              p))

      from :
          (q : db.Connection × Answer (Unit {0}))
          → (l.in_transaction q.0 ≡ true) × (l.at_begin q.0 ≡ l.at_begin c) × (q.1 ≡ error)
          → Undone (after (q.0, rows_of q.1))
      from (d, error) (i, b, e) = undone d (db.answer rollback d) b (l.rollback_restores d i)
      from (d, done rows) (i, b, e) = absurd (cc)
      from (d, disturbed rows) (i, b, e) = absurd (cc)
      from (d, other_code rows) (i, b, e) = absurd (cc)
      from (d, unprepared) (i, b, e) = absurd (cc)
