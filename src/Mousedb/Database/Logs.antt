-- ===== src/Mousedb/Database/Logs.antt =====
-- The log holds every write, and the recovery brings them back.
use cs.Prelude.{
  ℕ, zero, suc, ◌+◌, ◌^◌, ◌<◌, ◌≤◌, ◌≡◌, refl, sym, ap, ap₂, ◌∙◌, ◌==◌, ltb, if◌then◌else◌, true,
  false, Bool-cases, inl, inr, Option, some, List, [], ◌∷◌, ◌++◌, map, length, length-append,
  get_or, set, replicate, arith,
}
use cs.Prelude.Members.{Same, Same-refl, Same-append, Same-trans}
use cs.Mousedb.Wal.{Replayed, reinsert, recovered, recover}
use cs.Mousedb.Wal.Entries.{record_of}
use cs.Mousedb.Wal.Order.{
  Logged, AllFit, AllIn, operations, shard_bytes, files_of, recover-operations,
}
use cs.Mousedb.Database.{
  Pair, MemTable, memtable_insert, Database, close, clock_bytes, stamped, wal_insert,
  enqueue_memtable, internal_insert, insert, erase, take_front, start_work, internal_find, reapply,
  flush_recovered,
}
use cs.Mousedb.Database.Contents.{
  stored, Write, pair_of, Step, inserts, erases, starts, step, run, writes_of, internal_insert-Same,
  run-Same, map-append, flush_recovered-Same, Same-of_eq,
}
use cs.Mousedb.Database.Latest.{AllInWidth, Right, find-Right, empty_database}
use mathlib.Core.List.{append_assoc, append-nil}
use mathlib.Core.Path.{subst}

-- What a step logs.
abbrev pub log_of : Step → Logged
log_of (inserts shard w) = (shard, reinsert w.key (stamped w.clock w.value)) ∷ []
log_of (erases shard key clock) = (shard, reinsert key (stamped clock [])) ∷ []
log_of starts = []

unfoldable pub logs_of : List Step → Logged
logs_of [] = []
logs_of (s ∷ steps) = log_of s ++ logs_of steps

shard_bytes-snoc :
    (shard oid : ℕ) (log : Logged) (e : ℕ × Replayed)
    → shard_bytes shard oid (log ++ (e ∷ []))
      ≡ shard_bytes shard oid log ++ (if e.0 == shard then record_of (oid + length log) e.1 else [])
unfolding shard_bytes
shard_bytes-snoc shard oid [] e = elim (Bool-cases (e.0 == shard)) [
  | inl own ↦
      rw own (append-nil _ ∙ ap (λ (k : ℕ). record_of k e.1) {x = oid} {y = oid + 0} (omega arith))
  | inr other ↦ rw other refl
]
shard_bytes-snoc shard oid (f ∷ log) e =
    let ih =
      shard_bytes-snoc shard (suc oid) log e
      ∙ ap
          (λ (k : ℕ).
            shard_bytes shard (suc oid) log ++ (if e.0 == shard then record_of k e.1 else []))
          {x = suc oid + length log} {y = oid + suc (length log)} (omega arith) in
    elim (Bool-cases (f.0 == shard)) [
      | inl own ↦ rw own (
          ap (λ (k : List ℕ). record_of oid f.1 ++ k) ih
          ∙ sym (append_assoc (record_of oid f.1) _ _))
      | inr other ↦ rw other ih
    ]

files_of-other :
    (shards shard oid : ℕ) (log : Logged) (e : ℕ × Replayed)
    → e.0 < shard
    → files_of shards shard oid (log ++ (e ∷ [])) ≡ files_of shards shard oid log
unfolding files_of
files_of-other zero shard oid log e h = refl
files_of-other (suc shards) shard oid log e h =
    let other : (e.0 == shard) ≡ false = ground arith in
    ap₂ (◌∷◌) (shard_bytes-snoc shard oid log e ∙ rw other (append-nil (shard_bytes shard oid log)))
      (files_of-other shards (suc shard) oid log e (omega arith))

-- Appending a record to one file is logging the operation.
files_of-snoc :
    (shards shard oid i : ℕ) (log : Logged) (e : ℕ × Replayed)
    → e.0 ≡ shard + i
    → i < shards
    → let files = files_of shards shard oid log in
      set files i (get_or files i [] ++ record_of (oid + length log) e.1)
      ≡ files_of shards shard oid (log ++ (e ∷ []))
unfolding files_of
files_of-snoc zero shard oid i log e p h = absurd (omega arith)
files_of-snoc (suc shards) shard oid zero log e p h =
    let own : (e.0 == shard) ≡ true = ground arith in
    ap₂ (◌∷◌) (sym (shard_bytes-snoc shard oid log e ∙ rw own refl))
      (sym (files_of-other shards (suc shard) oid log e (omega arith)))
files_of-snoc (suc shards) shard oid (suc i) log e p h =
    let other : (e.0 == shard) ≡ false = ground arith in
    ap₂ (◌∷◌)
      (sym (shard_bytes-snoc shard oid log e ∙ rw other (append-nil (shard_bytes shard oid log))))
      (files_of-snoc shards (suc shard) oid i log e (omega arith) (omega arith))

-- The files and the next id after this log.
record InLog (shards : ℕ) (log : Logged) (db : Database) : Type 0 where
  files : db.shards ≡ files_of shards 0 0 log
  next_id : db.operation_id ≡ length log

wal_insert-InLog :
    (shards shard : ℕ) (key value : List ℕ) (log : Logged) (db : Database)
    → shard < shards
    → length log + 1 < 2 ^ 64
    → InLog shards log db
    → InLog shards (log ++ ((shard, reinsert key value) ∷ [])) (wal_insert shard key value db)
unfolding wal_insert record_of
wal_insert-InLog shards shard key value log db h small l = record {
  files =
      ap₂
        (λ (fs : List (List ℕ)) (n : ℕ).
          set fs shard (get_or fs shard [] ++ record_of n (reinsert key value)))
        l.files l.next_id
      ∙ ap
          (λ (n : ℕ).
            set (files_of shards 0 0 log) shard
              (get_or (files_of shards 0 0 log) shard [] ++ record_of n (reinsert key value)))
          {x = length log} {y = 0 + length log} (omega arith)
      ∙ files_of-snoc shards 0 0 shard log (shard, reinsert key value) (omega arith) h;
  next_id = omega (arith, l.next_id, length-append log ((shard, reinsert key value) ∷ []));
}

internal_insert-InLog :
    (shards : ℕ) (key value : List ℕ) (log : Logged) (db : Database)
    → InLog shards log db
    → InLog shards log (internal_insert key value db)
unfolding internal_insert enqueue_memtable
internal_insert-InLog shards key value log db l =
    elim (Bool-cases (ltb db.flush_threshold (length (memtable_insert key value db.memtable)))) [
      | inl full ↦ rw full (record { files = l.files; next_id = l.next_id })
      | inr fits ↦ rw fits (record { files = l.files; next_id = l.next_id })
    ]

take_front-InLog :
    (shards : ℕ) (log : Logged) (queue : List MemTable) (db : Database)
    → InLog shards log db
    → InLog shards log (take_front queue db)
unfolding take_front
take_front-InLog shards log [] db l = l
take_front-InLog shards log (m ∷ queue) db l = record { files = l.files; next_id = l.next_id }

-- A step's shard is one of the database's.
abbrev pub ShardIn : ℕ → Step → Type 0
ShardIn shards (inserts shard w) = shard < shards
ShardIn shards (erases shard key clock) = shard < shards
ShardIn shards starts = Unit {0}

abbrev pub ShardsIn : ℕ → List Step → Type 0
ShardsIn shards [] = Unit {0}
ShardsIn shards (s ∷ steps) = ShardIn shards s × ShardsIn shards steps

step-InLog :
    (shards : ℕ) (s : Step) (log : Logged) (db : Database)
    → ShardIn shards s
    → length log + 1 < 2 ^ 64
    → InLog shards log db
    → InLog shards (log ++ log_of s) (step s db)
unfolding step insert erase start_work stamped
step-InLog shards (inserts shard w) log db h small l =
    internal_insert-InLog shards w.key (clock_bytes w.clock ++ w.value) _ _
      (wal_insert-InLog shards shard w.key (clock_bytes w.clock ++ w.value) log db h small l)
step-InLog shards (erases shard key clock) log db h small l =
    subst
      (λ (v : List ℕ).
        InLog shards (log ++ ((shard, reinsert key v) ∷ [])) (erase shard key clock db))
      (sym (append-nil (clock_bytes clock)))
      (internal_insert-InLog shards key (clock_bytes clock) _ _
        (wal_insert-InLog shards shard key (clock_bytes clock) log db h small l))
step-InLog shards starts log db h small l =
    subst (λ (k : Logged). InLog shards k (start_work db)) (sym (append-nil log))
      (take_front-InLog shards log db.queue db l)

length-log_of : (s : Step) → length (log_of s) ≤ 1
length-log_of (inserts shard w) = omega arith
length-log_of (erases shard key clock) = omega arith
length-log_of starts = omega arith

run-InLog :
    (shards : ℕ) (steps : List Step) (log : Logged) (db : Database)
    → ShardsIn shards steps
    → length log + length steps < 2 ^ 64
    → InLog shards log db
    → InLog shards (log ++ logs_of steps) (run steps db)
unfolding run logs_of
run-InLog shards [] log db h small l =
    subst (λ (k : Logged). InLog shards k db) (sym (append-nil log)) l
run-InLog shards (s ∷ steps) log db (h, hs) small l =
    subst (λ (k : Logged). InLog shards k (run steps (step s db)))
      (append_assoc log (log_of s) (logs_of steps))
      (run-InLog shards steps (log ++ log_of s) (step s db) hs
        (omega (arith, length-append log (log_of s), length-log_of s))
        (step-InLog shards s log db h (omega arith) l))

AllIn-append :
    (shards : ℕ) (xs ys : Logged) → AllIn shards xs → AllIn shards ys → AllIn shards (xs ++ ys)
AllIn-append shards [] ys a b = b
AllIn-append shards (x ∷ xs) ys (h, a) b = (h, AllIn-append shards xs ys a b)

AllIn-logs_of :
    (shards : ℕ) (steps : List Step) → ShardsIn shards steps → AllIn shards (logs_of steps)
unfolding logs_of
AllIn-logs_of shards [] h = tt
AllIn-logs_of shards (s ∷ steps) (h, hs) =
    AllIn-append shards (log_of s) (logs_of steps) (one s h) (AllIn-logs_of shards steps hs)
  where
    one : (s : Step) → ShardIn shards s → AllIn shards (log_of s)
    one (inserts shard w) h = (h, tt)
    one (erases shard key clock) h = (h, tt)
    one starts h = tt

length-logs_of : (steps : List Step) → length (logs_of steps) ≤ length steps
unfolding logs_of
length-logs_of [] = omega arith
length-logs_of (s ∷ steps) =
    omega (arith, length-append (log_of s) (logs_of steps), length-log_of s, length-logs_of steps)

no_files : (shards shard : ℕ) → replicate shards [] ≡ files_of shards shard 0 []
unfolding files_of shard_bytes
no_files zero shard = refl
no_files (suc shards) shard = ap (◌∷◌ []) (no_files shards (suc shard))

reinserted :
    (w : Write) (steps : List Step) (db : Database)
    → Same
        (stored (
          reapply
            (operations (logs_of steps))
            (internal_insert w.key (stamped w.clock w.value) db)))
        (stored (internal_insert w.key (stamped w.clock w.value) db)
          ++ map pair_of (writes_of steps))
    → Same
        (stored (
          reapply
            (operations (logs_of steps))
            (internal_insert w.key (stamped w.clock w.value) db)))
        (stored db ++ (pair_of w ∷ map pair_of (writes_of steps)))
unfolding pair_of
reinserted w steps db ih =
    let later = map pair_of (writes_of steps) in
    let now = internal_insert w.key (stamped w.clock w.value) db in
    Same-trans _ (stored now ++ later) _ ih (
      Same-trans _ ((stored db ++ (pair_of w ∷ [])) ++ later) _
        (Same-append (stored now) later _ later
          (internal_insert-Same w.key (stamped w.clock w.value) db) (Same-refl later))
        (Same-of_eq (append_assoc (stored db) (pair_of w ∷ []) later)))

-- What is replayed is in memory again.
reapply-Same :
    (steps : List Step) (db : Database)
    → Same
        (stored (reapply (operations (logs_of steps)) db))
        (stored db ++ map pair_of (writes_of steps))
unfolding reapply operations logs_of writes_of pair_of
reapply-Same [] db = Same-of_eq (sym (append-nil (stored db)))
reapply-Same (inserts shard w ∷ steps) db = reinserted w steps db (reapply-Same steps _)
reapply-Same (erases shard key clock ∷ steps) db =
    reinserted (record { key = key; value = []; clock = clock }) steps db (reapply-Same steps _)
reapply-Same (starts ∷ steps) db = reapply-Same steps db

-- What is held is what has been replayed and what has been written since.
held_since :
    (steps later : List Step) (used : MemTable → ℕ) (db : Database)
    → Same
        (stored (run later (flush_recovered used (reapply (operations (logs_of steps)) db))))
        (stored db ++ map pair_of (writes_of steps ++ writes_of later))
held_since steps later used db =
    let replayed = reapply (operations (logs_of steps)) db in
    let before = map pair_of (writes_of steps) in
    let since = map pair_of (writes_of later) in
    Same-trans _ (stored (flush_recovered used replayed) ++ since) _
      (run-Same later (flush_recovered used replayed))
      (Same-trans _ ((stored db ++ before) ++ since) _
        (Same-append _ since _ since
          (Same-trans _ (stored replayed) _ (flush_recovered-Same used replayed)
            (reapply-Same steps db))
          (Same-refl since))
        (Same-of_eq (
          append_assoc (stored db) before since
          ∙ ap (λ (k : List Pair). stored db ++ k)
              (sym (map-append pair_of (writes_of steps) (writes_of later))))))

-- A new database that is closed after any writes, in any of its shards, and opened again: the recovery
-- of the log files ends. After any writes to the database that it fills, and while no worker is done
-- with what has been flushed, a lookup answers with the value of the last write under the key, by the
-- clocks, of those before the closing and those since. It finds nothing only when none of them has the
-- key or a last one is an erasure or empty. The sizes, the clocks and the number of steps before the
-- closing have the widths of their types.
pub recover-LastWrite :
    (threshold new_threshold shards : ℕ) (used : MemTable → ℕ) (files : List (List ℕ))
    (steps later : List Step) (key : List ℕ)
    → ShardsIn shards steps
    → length steps < 2 ^ 64
    → AllFit (logs_of steps)
    → AllInWidth (writes_of steps ++ writes_of later)
    → (ops : List Replayed) × (answer : Option (List ℕ)) × (recover
          (close (run steps (empty_database threshold (replicate shards []))))
        ≡ recovered ops)
      × (internal_find key
            (run later (flush_recovered used (reapply ops (empty_database new_threshold files))))
          ≡ some answer)
      × Right key (writes_of steps ++ writes_of later) answer
unfolding close
recover-LastWrite threshold new_threshold shards used files steps later key inside small fit
      widths =
    let start = empty_database threshold (replicate shards []) in
    let again = empty_database new_threshold files in
    let logged =
      run-InLog shards steps [] start inside (omega arith)
        (record { files = no_files shards 0; next_id = refl }) in
    let ops = operations (logs_of steps) in
    let (held, holds) = held_since steps later used again in
    let (answer, found, right) =
      find-Right key (writes_of steps ++ writes_of later)
        (run later (flush_recovered used (reapply ops again))) widths holds held in
    (
      ops,
      answer,
      ap recover logged.files
          ∙ recover-operations shards 0 (logs_of steps) (AllIn-logs_of shards steps inside)
              (omega (arith, length-logs_of steps)) fit,
      found,
      right,
    )
