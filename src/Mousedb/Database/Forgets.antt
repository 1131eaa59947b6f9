-- ===== src/Mousedb/Database/Forgets.antt =====
-- `internal_find` looks at no table file, so what a worker has written out is not found.
use cs.Prelude.{
  ℕ, suc, ◌+◌, ◌<◌, ◌≡◌, refl, ap, ltb, true, false, none, some, List, [], ◌∷◌, ◌++◌, length,
  length-append, arith,
}
use cs.Mousedb.Database.{
  Pair, MemTable, memtable_insert, Database, enqueue_memtable, internal_insert, insert, wal_insert,
  take_front, start_work, remove_table, finish_work, tables_find, queue_find, newest, internal_find,
  memtable_find,
}
use cs.Mousedb.Database.Contents.{Write, Step, inserts, step, run}
use cs.Mousedb.Database.Latest.{empty_database}
use mathlib.Core.Path.{subst}

-- Insertions, each with the shard that logs it.
unfoldable pub insertions : List (ℕ × Write) → List Step
insertions [] = []
insertions ((shard, w) ∷ writes) = inserts shard w ∷ insertions writes

-- All that has been inserted is in the memtable.
record Filling (threshold n : ℕ) (db : Database) : Type 0 where
  limit : db.flush_threshold ≡ threshold
  size : length db.memtable ≡ n
  none_queued : db.queue ≡ []
  none_taken : db.working ≡ []

-- It waits in the queue.
record Queued (db : Database) : Type 0 where
  empty_memtable : db.memtable ≡ []
  one_queued : length db.queue ≡ 1
  none_taken : db.working ≡ []

internal_insert-Filling :
    (threshold n : ℕ) (key value : List ℕ) (db : Database)
    → Filling threshold n db
    → n < threshold
    → Filling threshold (suc n) (internal_insert key value db)
unfolding internal_insert memtable_insert
internal_insert-Filling threshold n key value db f h =
    let p : Pair = record { key = key; value = value } in
    let size : length (db.memtable ++ (p ∷ [])) ≡ suc n =
      omega (arith, length-append db.memtable (p ∷ []), f.size) in
    let fits : ltb db.flush_threshold (length (db.memtable ++ (p ∷ []))) ≡ false =
      ground (arith, f.limit) in
    rw fits (record {
      limit = f.limit;
      size = size;
      none_queued = f.none_queued;
      none_taken = f.none_taken;
    })

internal_insert-Queued :
    (threshold : ℕ) (key value : List ℕ) (db : Database)
    → Filling threshold threshold db
    → Queued (internal_insert key value db)
unfolding internal_insert memtable_insert enqueue_memtable
internal_insert-Queued threshold key value db f =
    let p : Pair = record { key = key; value = value } in
    let m = db.memtable ++ (p ∷ []) in
    let size : length m ≡ suc threshold =
      omega (arith, length-append db.memtable (p ∷ []), f.size) in
    let full : ltb db.flush_threshold (length m) ≡ true = ground (arith, f.limit) in
    rw full (record {
      empty_memtable = refl;
      one_queued = omega (
        arith,
        length-append db.queue (m ∷ []),
        ap (λ (q : List MemTable). length q) f.none_queued,
      );
      none_taken = f.none_taken;
    })

wal_insert-Filling :
    (threshold n shard : ℕ) (key value : List ℕ) (db : Database)
    → Filling threshold n db
    → Filling threshold n (wal_insert shard key value db)
unfolding wal_insert
wal_insert-Filling threshold n shard key value db f = record {
  limit = f.limit;
  size = f.size;
  none_queued = f.none_queued;
  none_taken = f.none_taken;
}

run-Queued :
    (threshold n shard : ℕ) (w : Write) (writes : List (ℕ × Write)) (db : Database)
    → Filling threshold n db
    → n + length writes ≡ threshold
    → Queued (run (insertions ((shard, w) ∷ writes)) db)
unfolding run step insert insertions
run-Queued threshold n shard w [] db f e = internal_insert-Queued threshold w.key _ _ (
    wal_insert-Filling threshold threshold shard w.key _ db
      (subst (λ (k : ℕ). Filling threshold k db) (omega arith) f))
run-Queued threshold n shard w ((next, v) ∷ writes) db f e =
    run-Queued threshold (suc n) next v writes _
      (internal_insert-Filling threshold n w.key _ _
        (wal_insert-Filling threshold n shard w.key _ db f) (omega arith))
      (omega arith)

Queued-forgotten :
    (key : List ℕ) (db : Database)
    → Queued db
    → internal_find key (finish_work 0 (start_work db)) ≡ some none
unfolding internal_find start_work finish_work take_front remove_table queue_find tables_find
    memtable_find newest
Queued-forgotten key db q = by_queue db.queue q.one_queued
  where
    by_queue :
        (queue : List MemTable)
        → length queue ≡ 1
        → newest (
            memtable_find key (take_front queue db).memtable
            ++ queue_find key (record (take_front queue db) {
              working = remove_table 0 (take_front queue db).working;
            }))
          ≡ some none
    by_queue [] e = absurd (omega arith)
    by_queue (m ∷ []) e = rw (q.empty_memtable, q.none_taken) refl
    by_queue (m ∷ n ∷ queue) e = absurd (omega arith)

-- One insertion more than the threshold flushes the memtable; once a worker has written it out, a
-- lookup finds nothing of them, whatever the key.
pub finish_work_forgets :
    (shard : ℕ) (w : Write) (writes : List (ℕ × Write)) (shards : List (List ℕ)) (key : List ℕ)
    → let written =
        run (insertions ((shard, w) ∷ writes)) (empty_database (length writes) shards) in
      internal_find key (finish_work 0 (start_work written)) ≡ some none
finish_work_forgets shard w writes shards key = Queued-forgotten key _ (
    run-Queued (length writes) 0 shard w writes (empty_database (length writes) shards)
      (record { limit = refl; size = refl; none_queued = refl; none_taken = refl }) (omega arith))
