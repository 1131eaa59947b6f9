-- ===== src/Mousedb/Tables/Runs.antt =====
-- Runs of a worker.
use cs.Prelude.{ℕ, ◌≡◌, ◌⊎◌, refl, ◌<◌, ◌≤◌, List, [], ◌∷◌, replicate, arith}
use cs.Mousedb.Database.{Pair}
use cs.Mousedb.Filter.Model.{positions}
use cs.Mousedb.Tables.{Tables, blocked, process_memtable}
use cs.Mousedb.Tables.Flush.{blocks_of, Registered, process_memtable-Registered}

-- A hash, and memory of zeros.
abbrev first_byte : List ℕ → ℕ
first_byte [] = 0
first_byte (b ∷ bytes) = b

abbrev zeros : ℕ → ℕ → List ℕ
zeros n size = replicate size 0

abbrev two_pairs : List Pair
two_pairs =
    record { key = 5 ∷ []; value = 6 ∷ 7 ∷ [] } ∷ record { key = 8 ∷ []; value = 9 ∷ [] } ∷ []

abbrev one_table : Tables positions first_byte
one_table = record { files = []; sstables = (1 ∷ []) ∷ []; filters = []; unused_sst_id = 2 }

process_memtable-Registered_example :
    ((1 < 4)
      × Registered positions first_byte zeros two_pairs
          (1 ∷ [])
          []
          one_table
          (process_memtable positions first_byte zeros (blocks_of two_pairs) one_table))
    ⊎ ((4 ≤ 1)
        × (process_memtable positions first_byte zeros (blocks_of two_pairs) one_table ≡ blocked))
process_memtable-Registered_example =
    process_memtable-Registered positions first_byte zeros two_pairs one_table (1 ∷ []) [] refl
      (omega arith) (omega arith) (omega arith, omega arith, (omega arith, omega arith, tt))
