-- ===== src/Converse/Service/Keeps.antt =====
-- What the handlers' code keeps of the connection.
use cs.Prelude.{◌≡◌, refl, ◌∙◌, ◌⊎◌, inl, inr, true, false, Option, none, some, List, [], ◌∷◌}
use cs.Converse.Sqlite.{
  Statement, Row, Answer, done, disturbed, other_code, unprepared, error, Sqlite, rows_of, Run,
  return, throw, go_on, and_then, execute, first_row,
}
use cs.Converse.Sqlite.Laws.{is_done, ordinary, reads, returns, Undisturbed}

module _ (db : Sqlite) (l : Undisturbed db) where
  -- How a piece of code leaves the connection: it keeps all, it changes nothing unless it returns, and
  -- it stays inside the transaction.
  abbrev pub SameTables : {A : Type 0} → db.Connection → db.Connection × Option A → Type 0
  SameTables c p =
      (l.documented.in_transaction p.0 ≡ l.documented.in_transaction c)
      × (l.documented.tables p.0 ≡ l.documented.tables c)

  abbrev pub SteadyAt : {A : Type 0} → db.Connection → db.Connection × Option A → Type 0
  SteadyAt {A} c p =
      (l.documented.in_transaction p.0 ≡ l.documented.in_transaction c)
      × (((a : A) × (p.1 ≡ some a)) ⊎ (l.documented.tables p.0 ≡ l.documented.tables c))

  abbrev pub WithinAt : {A : Type 0} → db.Connection → db.Connection × Option A → Type 0
  WithinAt c p =
      (l.documented.in_transaction p.0 ≡ true)
      × (l.documented.at_begin p.0 ≡ l.documented.at_begin c)

  abbrev pub Reads : {A : Type 0} → Run db A → Type 0
  Reads run = (c : db.Connection) → SameTables c (run c)

  abbrev pub Steady : {A : Type 0} → Run db A → Type 0
  Steady run = (c : db.Connection) → SteadyAt c (run c)

  abbrev pub Within : {A : Type 0} → Run db A → Type 0
  Within run = (c : db.Connection) → l.documented.in_transaction c ≡ true → WithinAt c (run c)

  pub Reads-Steady : {A : Type 0} (run : Run db A) → Reads run → Steady run
  Reads-Steady run r c = let (i, t) = r c in (i, inr t)

  pub Reads-execute : (s : Statement) → ordinary s ≡ true → reads s ≡ true → Reads (execute db s)
  unfolding execute
  Reads-execute s o r c = ((l.ordinary_keeps s c o).0, l.reading_keeps s c r)

  pub Within-execute : (s : Statement) → ordinary s ≡ true → Within (execute db s)
  unfolding execute
  Within-execute s o c h = let (i, b) = l.ordinary_keeps s c o in (i ∙ h, b)

  pub Reads-and_then :
      {A B : Type 0} (run : Run db A) (f : A → Run db B)
      → Reads run
      → ((a : A) → Steady (f a))
      → Steady (and_then db run f)
  unfolding and_then go_on
  Reads-and_then {A} {B} run f r s c = from (run c) (r c)
    where
      later :
          (c' : db.Connection) (q : db.Connection × Option B)
          → l.documented.tables c' ≡ l.documented.tables c
          → ((b : B) × (q.1 ≡ some b)) ⊎ (l.documented.tables q.0 ≡ l.documented.tables c')
          → ((b : B) × (q.1 ≡ some b)) ⊎ (l.documented.tables q.0 ≡ l.documented.tables c)
      later c' q t (inl returned) = inl returned
      later c' q t (inr same) = inr (same ∙ t)

      from : (p : db.Connection × Option A) → SameTables c p → SteadyAt c (go_on db f p)
      from (c', none) (i, t) = (i, inr t)
      from (c', some a) (i, t) = let (j, u) = s a c' in (j ∙ i, later c' (f a c') t u)

  pub Within-and_then :
      {A B : Type 0} (run : Run db A) (f : A → Run db B)
      → Within run
      → ((a : A) → Within (f a))
      → Within (and_then db run f)
  unfolding and_then go_on
  Within-and_then {A} {B} run f w ws c h = from (run c) (w c h)
    where
      from : (p : db.Connection × Option A) → WithinAt c p → WithinAt c (go_on db f p)
      from (c', none) (i, b) = (i, b)
      from (c', some a) (i, b) = let (j, d) = ws a c' i in (j, d ∙ b)

  pub Within-return : {A : Type 0} (a : A) → Within (return db a)
  unfolding return
  Within-return a c h = (h, refl)

  pub Within-first_row : {A : Type 0} (rows : List A) → Within (first_row db rows)
  unfolding first_row throw return
  Within-first_row [] c h = (h, refl)
  Within-first_row (row ∷ rows) c h = (h, refl)

  pub Reads-first_row : {A : Type 0} (rows : List A) → Reads (first_row db rows)
  unfolding first_row throw return
  Reads-first_row [] c = (refl, refl)
  Reads-first_row (row ∷ rows) c = (refl, refl)

  pub Reads-return : {A : Type 0} (a : A) → Reads (return db a)
  unfolding return
  Reads-return a c = (refl, refl)

  -- A statement that writes, with nothing behind it that throws.
  pub Steady-write :
      {B : Type 0} (s : Statement) (f : List (Row s) → B)
      → ordinary s ≡ true
      → Steady (and_then db (execute db s) (λ rows. return db (f rows)))
  unfolding and_then go_on execute return rows_of
  Steady-write {B} s f o c = from (db.answer s c) (l.ordinary_keeps s c o).0 (l.undone_keeps s c o)
    where
      from :
          (p : db.Connection × Answer (Row s))
          → l.documented.in_transaction p.0 ≡ l.documented.in_transaction c
          → (is_done p.1 ≡ false → l.documented.tables p.0 ≡ l.documented.tables c)
          → SteadyAt c (go_on db (λ rows d. (d, some (f rows))) (p.0, rows_of p.1))
      from (c', done rows) i u = (i, inl (f rows, refl))
      from (c', disturbed rows) i u = (i, inl (f rows, refl))
      from (c', other_code rows) i u = (i, inl (f rows, refl))
      from (c', unprepared) i u = (i, inr (u refl))
      from (c', error) i u = (i, inr (u refl))

  -- One whose result is the first of the rows that it returns.
  pub Steady-returning :
      {B : Type 0} (s : Statement) (f : Row s → B)
      → ordinary s ≡ true
      → returns s ≡ true
      → Steady (
          and_then db
            (execute db s)
            (λ rows. and_then db (first_row db rows) (λ row. return db (f row))))
  unfolding and_then go_on execute return first_row throw rows_of
  Steady-returning {B} s f o r c =
      from (db.answer s c) (l.ordinary_keeps s c o).0 (l.undone_keeps s c o)
        (l.returning_nothing s c r)
    where
      from :
          (p : db.Connection × Answer (Row s))
          → l.documented.in_transaction p.0 ≡ l.documented.in_transaction c
          → (is_done p.1 ≡ false → l.documented.tables p.0 ≡ l.documented.tables c)
          → (p.1 ≡ done [] → l.documented.tables p.0 ≡ l.documented.tables c)
          → SteadyAt c (
              go_on db
                (λ rows d. go_on db (λ row e. (e, some (f row))) (first_row db rows d))
                (p.0, rows_of p.1))
      from (c', done []) i u n = (i, inr (n refl))
      from (c', done (row ∷ rows)) i u n = (i, inl (f row, refl))
      from (c', disturbed []) i u n = (i, inr (u refl))
      from (c', other_code []) i u n = (i, inr (u refl))
      from (c', disturbed (row ∷ rows)) i u n = (i, inl (f row, refl))
      from (c', other_code (row ∷ rows)) i u n = (i, inl (f row, refl))
      from (c', unprepared) i u n = (i, inr (u refl))
      from (c', error) i u n = (i, inr (u refl))
