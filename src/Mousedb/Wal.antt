-- ===== src/Mousedb/Wal.antt =====
-- The write-ahead log of mousedb/server/lib_database/src/mousedb/database/core.cpp.
-- The recovery is that of a database that is not opened as `fresh`, which reads no log. A log file is
-- the list of its bytes, and the logs of the data directory are in the order of its
-- iterator. A `size_t` is eight bytes, least significant first. The recovery's result has a case
-- for a size that is read past the end, which leaves a variable without a value.
pub mod Entries
pub mod Order
pub mod Progress
mod Runs
use cs.Prelude.{
  ℕ, zero, suc, ◌+◌, ◌==◌, ltb, if◌then◌else◌, Option, none, some, List, [], ◌∷◌, ◌++◌, length,
  take, drop, replicate,
}
use cs.Prelude.Options.{◌>>=◌}
use cs.Prelude.Bytes.{le_bytes, of_le_bytes}

-- `fwrite(&n, sizeof(size_t), 1, file)`
abbrev pub word : ℕ → List ℕ
word n = le_bytes 8 n

-- What `wal_insert` and `wal_erase` append.
pub insert_record : ℕ → List ℕ → List ℕ → List ℕ
insert_record oid key value =
    word 0 ++ (word oid ++ (word (length key) ++ (key ++ (word (length value) ++ value))))

pub erase_record : ℕ → List ℕ → List ℕ
erase_record oid key = word 1 ++ (word oid ++ (word (length key) ++ key))

-- `fread(&n, sizeof(size_t), 1, file)`; `none` is a result other than 1.
pub fread_word : List ℕ → Option (ℕ × List ℕ)
fread_word bytes =
    if ltb (length bytes) 8 then none else some (of_le_bytes (take 8 bytes), drop 8 bytes)

-- `v.resize(size)` and `fread(v.data(), 1, size, file)`: where the file ends early, the vector
-- keeps what the resizing has left in it.
pub fread_into : List ℕ → ℕ → List ℕ → List ℕ × List ℕ
fread_into old size bytes =
    let got = take size bytes in
    (got ++ drop (length got) (take size (old ++ replicate size 0)), drop size bytes)

-- `WalState`, with what is left of the file.
pub record WalState : Type 0 where
  pub ot : ℕ
  pub oid : ℕ
  pub key : List ℕ
  pub value : List ℕ
  pub rest : List ℕ

pub read_value : ℕ → ℕ → List ℕ → List ℕ → List ℕ → Option WalState
read_value ot oid key old_value bytes =
    let with_value = fread_word bytes >>= λ (val_sz, bytes).
    let (value, rest) = fread_into old_value val_sz bytes in
    some (record { ot = ot; oid = oid; key = key; value = value; rest = rest }) in
    if ot == 0
    then with_value
    else some (record { ot = ot; oid = oid; key = key; value = []; rest = bytes })

pub read_body : ℕ → ℕ → List ℕ → List ℕ → List ℕ → Option WalState
read_body ot oid old_key old_value bytes = fread_word bytes >>= λ (key_sz, bytes).
    let (key, bytes) = fread_into old_key key_sz bytes in read_value ot oid key old_value bytes

-- The next entry: `none` is a size without a value, `some none` the end of the file.
pub read_id : ℕ → List ℕ → List ℕ → Option (ℕ × List ℕ) → Option (Option WalState)
read_id ot old_key old_value none = some none
read_id ot old_key old_value (some (oid, bytes)) =
    read_body ot oid old_key old_value bytes >>= λ w. some (some w)

pub read_type : List ℕ → List ℕ → Option (ℕ × List ℕ) → Option (Option WalState)
read_type old_key old_value none = some none
read_type old_key old_value (some (ot, bytes)) = read_id ot old_key old_value (fread_word bytes)

pub read_entry : List ℕ → List ℕ → List ℕ → Option (Option WalState)
read_entry old_key old_value bytes = read_type old_key old_value (fread_word bytes)

-- The first loop: files with no entry are removed.
pub with_wal : Option WalState → List WalState → List WalState
with_wal none wals = wals
with_wal (some w) wals = w ∷ wals

pub open_wals : List (List ℕ) → Option (List WalState)
open_wals [] = some []
open_wals (file ∷ files) =
    let rest = open_wals files in
    read_entry [] [] file >>= λ w. rest >>= λ wals. some (with_wal w wals)

-- The search for the smallest id: what stands before the best so far, the best, and what has been
-- passed since.
pub pick :
    List WalState
    → WalState
    → List WalState
    → List WalState
    → List WalState × WalState × List WalState
pick before best passed [] = (before, best, passed)
pick before best passed (w ∷ wals) =
    let next = pick (before ++ (best ∷ passed)) w [] wals in
    let same = pick before best (passed ++ (w ∷ [])) wals in
    if ltb w.oid best.oid then next else same

pub pick_best : List WalState → Option (List WalState × WalState × List WalState)
pick_best [] = none
pick_best (w ∷ wals) = some (pick [] w [] wals)

-- What is replayed: `internal_insert` and `internal_erase`.
pub data Replayed : Type 0 where
  reinsert : List ℕ → List ℕ → Replayed
  reerase : List ℕ → Replayed

pub data Recovery : Type 0 where
  recovered : List Replayed → Recovery
  unknown_op size_unread out_of_fuel : Recovery

abbrev pub then_replay : Replayed → Recovery → Recovery
then_replay op (recovered ops) = recovered (op ∷ ops)
then_replay op unknown_op = unknown_op
then_replay op size_unread = size_unread
then_replay op out_of_fuel = out_of_fuel

-- The `switch` on the type.
pub apply : WalState → Recovery → Recovery
apply w later =
    if w.ot == 0
    then then_replay (reinsert w.key w.value) later
    else if w.ot == 1
    then then_replay (reerase w.key) later
    else unknown_op

-- The entry behind the one replayed takes its place; a file that ends is removed.
pub resume :
    (List WalState → Recovery) → List WalState → List WalState → Option (Option WalState) → Recovery
resume again before after none = size_unread
resume again before after (some w) = again (before ++ with_wal w after)

pub replay_best :
    (List WalState → Recovery) → Option (List WalState × WalState × List WalState) → Recovery
replay_best again none = recovered []
replay_best again (some (before, best, after)) =
    apply best (resume again before after (read_entry best.key best.value best.rest))

-- The second loop, from the rounds left.
pub replay : ℕ → List WalState → Recovery
replay zero wals = out_of_fuel
replay (suc fuel) wals = replay_best (replay fuel) (pick_best wals)

-- A round reads sixteen bytes at least or removes a file.
pub bytes_left : List WalState → ℕ
bytes_left [] = 0
bytes_left (w ∷ wals) = 1 + (length w.rest + bytes_left wals)

pub recover_opened : Option (List WalState) → Recovery
recover_opened none = size_unread
recover_opened (some wals) = replay (1 + bytes_left wals) wals

pub recover : List (List ℕ) → Recovery
recover files = recover_opened (open_wals files)
