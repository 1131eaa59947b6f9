-- ===== src/Mousedb/Database.antt =====
-- The database of mousedb/server/lib_database/src/mousedb/database/core.cpp.
-- A memtable is the list of its pairs, oldest first, as KvStore.Find shows of the bytes. The
-- outer `none` of `internal_find` is a clock that is read past the end of a value. An insertion
-- is one step: threads that meet between its log and its memtable are not modelled. A shard is the
-- bytes that have been written to its `FILE`, which the C library buffers: until `close`, any part of
-- them may be in the buffer only.
pub mod Contents
pub mod Values
pub mod Latest
mod Forgets
pub mod Logs
mod Runs
use cs.Prelude.{
  ℕ, zero, suc, ◌+◌, ◌-◌, ◌%◌, ◌^◌, ltb, leb, bit_and, if◌then◌else◌, Option, none, some, List, [],
  ◌∷◌, ◌++◌, length, get_or, set, take, drop,
}
use cs.Prelude.Options.{◌>>=◌}
use cs.Prelude.Bits.{u64_mod}
use cs.Prelude.Bytes.{le_bytes, of_le_bytes}
use cs.Mousedb.Hlc.{Hlc}
use cs.Mousedb.Hlc.Lww.{lww_select}
use cs.Mousedb.KvStore.{Sign, zero_sign, compare_keys}
use cs.Mousedb.Wal.{insert_record, Replayed, reinsert, reerase}

pub record Pair : Type 0 where
  pub key : List ℕ
  pub value : List ℕ

abbrev pub MemTable : Type 0
MemTable = List Pair

-- `MemTable::find` and `MemTable::insert`.
pub memtable_find : List ℕ → MemTable → List (List ℕ)
memtable_find key [] = []
memtable_find key (p ∷ pairs) =
    let rest = memtable_find key pairs in
    elim (compare_keys key p.key) [ zero_sign ↦ p.value ∷ rest | _ ↦ rest ]

pub memtable_insert : List ℕ → List ℕ → MemTable → MemTable
memtable_insert key value m = m ++ (record { key = key; value = value } ∷ [])

pub record Database : Type 0 where
  pub flush_threshold : ℕ
  pub operation_id : ℕ
  pub shards : List (List ℕ)
  pub memtable : MemTable
  pub queue : List MemTable
  pub working : List MemTable

-- A value is stored behind the fourteen bytes of its clock.
pub clock_bytes : Hlc → List ℕ
clock_bytes c = le_bytes 8 c.physical_us ++ (le_bytes 2 c.logical ++ le_bytes 4 c.node_id)

unfoldable pub stamped : Hlc → List ℕ → List ℕ
stamped c value = clock_bytes c ++ value

abbrev pub erase_size : ℕ
erase_size = 14

pub clock_of : List ℕ → Option Hlc
clock_of value =
    if ltb (length value) erase_size
    then none
    else some (record {
      physical_us = of_le_bytes (take 8 value);
      logical = of_le_bytes (take 2 (drop 8 value));
      node_id = of_le_bytes (take 4 (drop 10 value));
    })

-- `get_shard`
pub get_shard : Database → ℕ → ℕ
get_shard db cpu_id = bit_and cpu_id (length db.shards - 1)

-- `wal_insert` on the shard whose lock has been taken.
pub wal_insert : ℕ → List ℕ → List ℕ → Database → Database
wal_insert shard key value db = record db {
  operation_id = (db.operation_id + 1) % u64_mod;
  shards =
      set db.shards shard (get_or db.shards shard [] ++ insert_record db.operation_id key value);
}

pub enqueue_memtable : MemTable → Database → Database
enqueue_memtable m db = record db { queue = db.queue ++ (m ∷ []) }

pub internal_insert : List ℕ → List ℕ → Database → Database
internal_insert key value db =
    let memtable = memtable_insert key value db.memtable in
    if ltb db.flush_threshold (length memtable)
    then record (enqueue_memtable memtable db) { memtable = [] }
    else record db { memtable = memtable }

-- `~Database` closes the shards: what the log files hold then.
unfoldable pub close : Database → List (List ℕ)
close db = db.shards

-- `internal_erase` does nothing.
pub internal_erase : List ℕ → Database → Database
internal_erase key db = db

pub insert : ℕ → List ℕ → List ℕ → Hlc → Database → Database
insert shard key value clock db =
    internal_insert key (stamped clock value) (wal_insert shard key (stamped clock value) db)

-- An erasure is an empty value.
pub erase : ℕ → List ℕ → Hlc → Database → Database
erase shard key clock db =
    internal_insert key (clock_bytes clock) (wal_insert shard key (clock_bytes clock) db)

-- A worker takes the memtable at the front of the queue, and gives it up once it is written out.
pub take_front : List MemTable → Database → Database
take_front [] db = db
take_front (m ∷ queue) db = record db { queue = queue; working = db.working ++ (m ∷ []) }

pub start_work : Database → Database
start_work db = take_front db.queue db

pub remove_table : ℕ → List MemTable → List MemTable
remove_table i [] = []
remove_table zero (m ∷ tables) = tables
remove_table (suc i) (m ∷ tables) = m ∷ remove_table i tables

pub finish_work : ℕ → Database → Database
finish_work i db = record db { working = remove_table i db.working }

-- The newest memtable comes first.
pub tables_find : List ℕ → List MemTable → List (List ℕ)
tables_find key [] = []
tables_find key (m ∷ tables) = tables_find key tables ++ memtable_find key m

pub queue_find : List ℕ → Database → List (List ℕ)
queue_find key db = tables_find key db.queue ++ tables_find key db.working

pub record Item : Type 0 where
  pub value : List ℕ
  pub clock : Hlc

abbrev pub clock_of_item : Item → Hlc
clock_of_item i = i.clock

pub items_of : List (List ℕ) → Option (List Item)
items_of [] = some []
items_of (value ∷ values) =
    let rest = items_of values in
    clock_of value >>= λ clock.
    rest >>= λ items. some (record { value = value; clock = clock } ∷ items)

pub without_clock : Option Item → Option (List ℕ)
without_clock none = none
without_clock (some item) =
    if leb (length item.value) erase_size then none else some (drop erase_size item.value)

pub newest : List (List ℕ) → Option (Option (List ℕ))
newest [] = some none
newest (value ∷ values) =
    items_of (value ∷ values) >>= λ items. some (without_clock (lww_select clock_of_item items))

pub internal_find : List ℕ → Database → Option (Option (List ℕ))
internal_find key db = newest (memtable_find key db.memtable ++ queue_find key db)

-- What the recovery does with what it replays.
pub reapply : List Replayed → Database → Database
reapply [] db = db
reapply (reinsert key value ∷ ops) db = reapply ops (internal_insert key value db)
reapply (reerase key ∷ ops) db = reapply ops (internal_erase key db)

-- The memtable that the recovery has filled is flushed by its bytes. `used` is the bytes that it
-- takes, which depend on the levels drawn for its skip list.
pub flush_recovered : (MemTable → ℕ) → Database → Database
flush_recovered used db =
    if ltb db.flush_threshold (used db.memtable)
    then record (enqueue_memtable db.memtable db) { memtable = [] }
    else db

-- The number of the first table file to be written, from those that are there.
pub next_sst_id : ℕ → List ℕ → ℕ
next_sst_id max_used_id [] = max_used_id + 1
next_sst_id max_used_id (id ∷ ids) =
    next_sst_id (if ltb max_used_id id then id else max_used_id) ids
