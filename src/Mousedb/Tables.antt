-- ===== src/Mousedb/Tables.antt =====
-- `Queue::process_memtable` of mousedb/server/lib_database/src/mousedb/database/core.cpp, which writes a
-- memtable to a table file.
-- A memtable is the list of the blocks of memory that its pointers lead to. What is written of an entry
-- starts at its pointer itself, whose place holds bytes that the program does not choose:
-- `memory_at` is an argument. Files can be opened and written.
pub mod Flush
mod Runs
use cs.Prelude.{
  ℕ, ◌+◌, ◌*◌, ◌%◌, leb, if◌then◌else◌, Option, none, some, List, [], ◌∷◌, ◌++◌, length, replicate,
  take,
}
use cs.Prelude.Options.{◌>>=◌}
use cs.Prelude.Bits.{u64_mod}
use cs.Prelude.Bytes.{le_bytes}
use cs.Mousedb.Filter.{Bitset, BloomFilter, init, add, save}
use cs.Mousedb.KvStore.{get_key, get_size}

-- The bytes of 64-bit words.
pub words_bytes : List ℕ → List ℕ
words_bytes [] = []
words_bytes (w ∷ words) = le_bytes 8 w ++ words_bytes words

module _ (bs : Bitset) (hasher : List ℕ → ℕ) where
  pub record Tables : Type 0 where
    pub files : List (ℕ × List ℕ)
    pub sstables : List (List ℕ)
    pub filters : List (ℕ × BloomFilter bs hasher)
    pub unused_sst_id : ℕ

  -- The worker is done, waits for a lock that it holds, or leaves an array.
  pub data Work : Type 0 where
    done : Tables → Work
    blocked outside : Work

  -- The variables of the loop, with what it has written.
  pub record Written : Type 0 where
    pub out : List ℕ
    pub bf : BloomFilter bs hasher
    pub indexes : List ℕ
    pub index : ℕ

  unfoldable pub nothing_written : ℕ → Written
  nothing_written memtable_size = record {
    out = [];
    bf = init bs hasher (memtable_size * 2 % u64_mod) 3;
    indexes = replicate memtable_size 0;
    index = 0;
  }

  -- The tables of the level that is full are merged by `compact`, which asks for the lock on
  -- `sstables_` that is held here.
  unfoldable pub register : ℕ → List (List ℕ) → Tables → Work
  register id [] t = outside
  register id (level ∷ levels) t =
      if leb 4 (length level)
      then blocked
      else done (record t { sstables = (level ++ (id ∷ [])) ∷ levels })

  unfoldable pub table_file : ℕ → Written → List ℕ
  table_file memtable_size w =
      let (words, bf_size) = save bs hasher w.bf in
      w.out
      ++ (words_bytes words
          ++ (le_bytes 8 bf_size
              ++ (words_bytes (take memtable_size w.indexes) ++ le_bytes 8 memtable_size)))

  unfoldable pub finish_table : ℕ → Tables → Option Written → Work
  finish_table memtable_size t none = outside
  finish_table memtable_size t (some w) = register t.unused_sst_id t.sstables (record t {
    files = (t.unused_sst_id, table_file memtable_size w) ∷ t.files;
    filters = (t.unused_sst_id, w.bf) ∷ t.filters;
    unused_sst_id = (t.unused_sst_id + 1) % u64_mod;
  })

  module _ (memory_at : ℕ → ℕ → List ℕ) where
    unfoldable pub write_entry : ℕ → List ℕ → Written → Option Written
    write_entry n seq w = do
      seq_size ← get_size seq
      key ← get_key seq
      some (record {
        out = w.out ++ memory_at n seq_size;
        bf = add bs hasher w.bf key;
        indexes = w.indexes ++ (w.index ∷ []);
        index = (w.index + seq_size) % u64_mod;
      })

    unfoldable pub write_entries : ℕ → List (List ℕ) → Written → Option Written
    write_entries n [] w = some w
    write_entries n (seq ∷ seqs) w = write_entry n seq w >>= λ w'. write_entries (n + 1) seqs w'

    unfoldable pub process_memtable : List (List ℕ) → Tables → Work
    process_memtable memtable t =
        finish_table (length memtable) t
          (write_entries 0 memtable (nothing_written (length memtable)))
