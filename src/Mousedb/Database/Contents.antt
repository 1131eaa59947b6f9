-- ===== src/Mousedb/Database/Contents.antt =====
-- What the memtables hold.
use cs.Prelude.{
  ℕ, ◌≡◌, refl, sym, ap, ◌∙◌, ltb, Bool-cases, inl, inr, List, [], ◌∷◌, ◌++◌, map, length,
}
use cs.Prelude.Members.{Same, Same-append, Same-refl, Same-trans, Same-swap}
use cs.Mousedb.Hlc.{Hlc}
use cs.Mousedb.Database.{
  Pair, MemTable, memtable_insert, Database, clock_bytes, stamped, wal_insert, enqueue_memtable,
  internal_insert, insert, erase, take_front, start_work, flush_recovered,
}
use mathlib.Core.List.{append_assoc, append-nil}
use mathlib.Core.Path.{subst}

abbrev pub all_pairs : List MemTable → MemTable
all_pairs [] = []
all_pairs (m ∷ tables) = m ++ all_pairs tables

-- All that is in memory.
abbrev pub stored : Database → MemTable
stored db = db.memtable ++ (all_pairs db.queue ++ all_pairs db.working)

-- An insertion, or an erasure, whose value is empty.
pub record Write : Type 0 where
  pub key : List ℕ
  pub value : List ℕ
  pub clock : Hlc

unfoldable pub pair_of : Write → Pair
pair_of w = record { key = w.key; value = stamped w.clock w.value }

-- Writes with the shard that logs them, and workers that take a memtable; the other step of a
-- worker, which gives it up, is in Database.Forgets.
pub data Step : Type 0 where
  inserts : ℕ → Write → Step
  erases : ℕ → List ℕ → Hlc → Step
  starts : Step

unfoldable pub step : Step → Database → Database
step (inserts shard w) db = insert shard w.key w.value w.clock db
step (erases shard key clock) db = erase shard key clock db
step starts db = start_work db

unfoldable pub run : List Step → Database → Database
run [] db = db
run (s ∷ steps) db = run steps (step s db)

abbrev pub write_of : Step → List Write
write_of (inserts shard w) = w ∷ []
write_of (erases shard key clock) = record { key = key; value = []; clock = clock } ∷ []
write_of starts = []

unfoldable pub writes_of : List Step → List Write
writes_of [] = []
writes_of (s ∷ steps) = write_of s ++ writes_of steps

all_pairs-append : (ts us : List MemTable) → all_pairs (ts ++ us) ≡ all_pairs ts ++ all_pairs us
all_pairs-append [] us = refl
all_pairs-append (t ∷ ts) us =
    ap (λ (k : MemTable). t ++ k) (all_pairs-append ts us)
    ∙ sym (append_assoc t (all_pairs ts) (all_pairs us))

pub Same-of_eq : {xs ys : MemTable} → xs ≡ ys → Same xs ys
Same-of_eq {xs} e = subst (Same xs) e (Same-refl xs)

-- A memtable that goes to the queue stays in memory.
flush-Same :
    (m : MemTable) (db : Database)
    → Same
        (stored (record (enqueue_memtable m db) { memtable = [] }))
        (m ++ (all_pairs db.queue ++ all_pairs db.working))
unfolding enqueue_memtable
flush-Same m db =
    let q = all_pairs db.queue in
    let w = all_pairs db.working in
    Same-trans _ ((q ++ m) ++ w) _
      (Same-of_eq (
        ap (λ (k : MemTable). k ++ w)
          (all_pairs-append db.queue (m ∷ []) ∙ ap (λ (k : MemTable). q ++ k) (append-nil m))))
      (Same-trans _ ((m ++ q) ++ w) _
        (Same-append (q ++ m) w (m ++ q) w (Same-swap q m) (Same-refl w))
        (Same-of_eq (append_assoc m q w)))

pub flush_recovered-Same :
    (used : MemTable → ℕ) (db : Database) → Same (stored (flush_recovered used db)) (stored db)
unfolding flush_recovered
flush_recovered-Same used db = elim (Bool-cases (ltb db.flush_threshold (used db.memtable))) [
  | inl full ↦ rw full (flush-Same db.memtable db)
  | inr fits ↦ rw fits (Same-refl (stored db))
]

pub internal_insert-Same :
    (key value : List ℕ) (db : Database)
    → Same
        (stored (internal_insert key value db))
        (stored db ++ (record { key = key; value = value } ∷ []))
unfolding internal_insert memtable_insert
internal_insert-Same key value db =
    let p : Pair = record { key = key; value = value } in
    let m = db.memtable ++ (p ∷ []) in
    let q = all_pairs db.queue in
    let w = all_pairs db.working in
    let kept : Same (m ++ (q ++ w)) ((db.memtable ++ (q ++ w)) ++ (p ∷ [])) =
      Same-trans _ (db.memtable ++ ((p ∷ []) ++ (q ++ w))) _
        (Same-of_eq (append_assoc db.memtable (p ∷ []) (q ++ w)))
        (Same-trans _ (db.memtable ++ ((q ++ w) ++ (p ∷ []))) _
          (Same-append db.memtable _ db.memtable _ (Same-refl db.memtable)
            (Same-swap (p ∷ []) (q ++ w)))
          (Same-of_eq (sym (append_assoc db.memtable (q ++ w) (p ∷ []))))) in
    elim (Bool-cases (ltb db.flush_threshold (length m))) [
      | inl full ↦ rw full (Same-trans _ (m ++ (q ++ w)) _ (flush-Same m db) kept)
      | inr fits ↦ rw fits kept
    ]

take_front-Same :
    (db : Database) (queue : List MemTable)
    → db.queue ≡ queue
    → Same (stored (take_front queue db)) (stored db)
unfolding take_front
take_front-Same db [] e = Same-refl (stored db)
take_front-Same db (m ∷ queue) e =
    let w = all_pairs db.working in
    let q = all_pairs queue in
    subst
      (λ (k : List MemTable).
        Same (db.memtable ++ (q ++ all_pairs (db.working ++ (m ∷ []))))
          (db.memtable ++ (all_pairs k ++ w)))
      (sym e)
      (Same-append db.memtable _ db.memtable _ (Same-refl db.memtable) (
        Same-trans _ (q ++ (w ++ m)) _
          (Same-of_eq (
            ap (λ (k : MemTable). q ++ k)
              (all_pairs-append db.working (m ∷ [])
                ∙ ap (λ (k : MemTable). w ++ k) (append-nil m))))
          (Same-trans _ ((w ++ m) ++ q) _ (Same-swap q (w ++ m)) (
            Same-trans _ ((m ++ w) ++ q) _
              (Same-append (w ++ m) q (m ++ w) q (Same-swap w m) (Same-refl q))
              (Same-trans _ (m ++ (w ++ q)) _ (Same-of_eq (append_assoc m w q)) (
                Same-trans _ (m ++ (q ++ w)) _
                  (Same-append m (w ++ q) m (q ++ w) (Same-refl m) (Same-swap w q))
                  (Same-of_eq (sym (append_assoc m q w)))))))))

start_work-Same : (db : Database) → Same (stored (start_work db)) (stored db)
unfolding start_work
start_work-Same db = take_front-Same db db.queue refl

step-Same :
    (s : Step) (db : Database) → Same (stored (step s db)) (stored db ++ map pair_of (write_of s))
unfolding step insert erase wal_insert pair_of stamped
step-Same (inserts shard w) db =
    internal_insert-Same w.key (stamped w.clock w.value)
      (wal_insert shard w.key (stamped w.clock w.value) db)
step-Same (erases shard key clock) db =
    subst
      (λ v.
        Same (stored (erase shard key clock db))
          (stored db ++ (record { key = key; value = v } ∷ [])))
      (sym (append-nil (clock_bytes clock)))
      (internal_insert-Same key (clock_bytes clock) (wal_insert shard key (clock_bytes clock) db))
step-Same starts db =
    subst (Same (stored (start_work db))) (sym (append-nil (stored db))) (start_work-Same db)

pub map-append :
    {A B : Type 0} (f : A → B) (xs ys : List A) → map f (xs ++ ys) ≡ map f xs ++ map f ys
map-append f [] ys = refl
map-append f (x ∷ xs) ys = ap (◌∷◌ (f x)) (map-append f xs ys)

-- The writes are what is in memory, whatever has been flushed to the queue and taken from it.
pub run-Same :
    (steps : List Step) (db : Database)
    → Same (stored (run steps db)) (stored db ++ map pair_of (writes_of steps))
unfolding run writes_of
run-Same [] db = Same-of_eq (sym (append-nil (stored db)))
run-Same (s ∷ steps) db =
    let later = map pair_of (writes_of steps) in
    Same-trans _ (stored (step s db) ++ later) _ (run-Same steps (step s db)) (
      Same-trans _ ((stored db ++ map pair_of (write_of s)) ++ later) _
        (Same-append (stored (step s db)) later _ later (step-Same s db) (Same-refl later))
        (Same-of_eq (
          append_assoc (stored db) (map pair_of (write_of s)) later
          ∙ ap (λ (k : MemTable). stored db ++ k)
              (sym (map-append pair_of (write_of s) (writes_of steps))))))
