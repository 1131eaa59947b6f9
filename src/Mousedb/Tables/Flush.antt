-- ===== src/Mousedb/Tables/Flush.antt =====
-- What a worker leaves of a memtable.
use cs.Prelude.{
  ℕ, ◌+◌, ◌*◌, ◌%◌, ◌^◌, ◌<◌, ◌≤◌, ◌≡◌, refl, sym, ap, ◌∙◌, ◌⊎◌, inl, inr, leb, Bool-cases, Option,
  some, List, [], ◌∷◌, ◌++◌, map, length, length-map, replicate, length-replicate, take,
  take-append, arith,
}
use cs.Prelude.Options.{◌>>=◌}
use cs.Prelude.Bits.{u64_mod}
use cs.Prelude.Bytes.{le_bytes}
use mathlib.Core.Path.{subst}
use mathlib.Core.List.{append_assoc, append-nil}
use cs.Mousedb.Database.{Pair}
use cs.Mousedb.Filter.{Bitset, BloomFilter, add, save}
use cs.Mousedb.Filter.Members.{add_all, AllContained, init-contains}
use cs.Mousedb.KvStore.{get_key, get_size, insert_size}
use cs.Mousedb.KvStore.Layout.{entry}
use cs.Mousedb.KvStore.RoundTrip.{get-entry}
use cs.Mousedb.Tables.{
  words_bytes, Tables, Work, done, blocked, Written, nothing_written, register, table_file,
  finish_table, write_entry, write_entries, process_memtable,
}

-- A memtable, as the blocks of its pairs.
abbrev pub blocks_of : List Pair → List (List ℕ)
blocks_of pairs = map (λ (p : Pair). entry p.key p.value) pairs

abbrev pub keys_of : List Pair → List (List ℕ)
keys_of pairs = map (λ (p : Pair). p.key) pairs

abbrev pub AllShort : List Pair → Type 0
AllShort [] = Unit {0}
AllShort (p ∷ pairs) = (length p.key < 2 ^ 56) × (length p.value < 2 ^ 56) × AllShort pairs

entry_reads :
    (p : Pair)
    → length p.key < 2 ^ 56
    → length p.value < 2 ^ 56
    → (get_key (entry p.key p.value) ≡ some p.key)
      × (get_size (entry p.key p.value) ≡ some (insert_size p.key p.value))
entry_reads p hk hv =
    let (both, key, value, size) = get-entry p.key p.value [] hk hv in
    (
      ap get_key (sym (append-nil (entry p.key p.value))) ∙ key,
      ap get_size (sym (append-nil (entry p.key p.value))) ∙ size,
    )

-- The first words of a list that starts with them.
take-replicate : (n : ℕ) (more : List ℕ) → take n (replicate n 0 ++ more) ≡ replicate n 0
take-replicate n more =
    ap (λ (k : ℕ). take k (replicate n 0 ++ more)) (sym (length-replicate {A = ℕ} n 0))
    ∙ take-append (replicate n 0) more

module _ (bs : Bitset) (hasher : List ℕ → ℕ) (memory_at : ℕ → ℕ → List ℕ) where
  -- The loop adds each key to the filter, and its offsets stand behind the zeros.
  record Wrote (pairs : List Pair) (w : Written bs hasher) (answer : Option (Written bs hasher))
      : Type 0 where
    result : Written bs hasher
    ended : answer ≡ some result
    filtered : result.bf ≡ add_all bs hasher w.bf (keys_of pairs)
    more : List ℕ
    behind : result.indexes ≡ w.indexes ++ more

  after_entry : ℕ → Pair → Written bs hasher → Written bs hasher
  after_entry n p w = record {
    out = w.out ++ memory_at n (insert_size p.key p.value);
    bf = add bs hasher w.bf p.key;
    indexes = w.indexes ++ (w.index ∷ []);
    index = (w.index + insert_size p.key p.value) % u64_mod;
  }

  write_entry-entry :
      (n : ℕ) (p : Pair) (w : Written bs hasher)
      → length p.key < 2 ^ 56
      → length p.value < 2 ^ 56
      → write_entry bs hasher memory_at n (entry p.key p.value) w ≡ some (after_entry n p w)
  unfolding write_entry after_entry
  write_entry-entry n p w hk hv = let (key, size) = entry_reads p hk hv in rw (size, key) refl

  write_entries-Wrote :
      (n : ℕ) (pairs : List Pair) (w : Written bs hasher)
      → AllShort pairs
      → Wrote pairs w (write_entries bs hasher memory_at n (blocks_of pairs) w)
  unfolding write_entries add_all after_entry
  write_entries-Wrote n [] w h = record {
    result = w;
    ended = refl;
    filtered = refl;
    more = [];
    behind = sym (append-nil w.indexes);
  }
  write_entries-Wrote n (p ∷ pairs) w (hk, hv, h) =
      let later = write_entries-Wrote (n + 1) pairs (after_entry n p w) h in
      record {
        result = later.result;
        ended =
            ap
              (λ (o : Option (Written bs hasher)).
                o >>= λ w'. write_entries bs hasher memory_at (n + 1) (blocks_of pairs) w')
              (write_entry-entry n p w hk hv)
            ∙ later.ended;
        filtered = later.filtered;
        more = w.index ∷ later.more;
        behind = later.behind ∙ append_assoc w.indexes (w.index ∷ []) later.more;
      }

  -- The bytes of the file: what is written of the entries, the filter with its size, a zero for each
  -- entry, and their number.
  abbrev pub zero_indexed : ℕ → List ℕ → BloomFilter bs hasher → List ℕ
  zero_indexed n out f =
      out
      ++ (words_bytes (save bs hasher f).0
          ++ (le_bytes 8 (save bs hasher f).1 ++ (words_bytes (replicate n 0) ++ le_bytes 8 n)))

  -- The table is put under its id, in the first level, with a filter that contains every key.
  abbrev pub Registered :
      List Pair → List ℕ → List (List ℕ) → Tables bs hasher → Work bs hasher → Type 0
  Registered pairs level levels t work =
      (out : List ℕ) × (f : BloomFilter bs hasher) × AllContained bs hasher f (keys_of pairs)
      × (work
          ≡ done (record t {
            files = (t.unused_sst_id, zero_indexed (length pairs) out f) ∷ t.files;
            sstables = (level ++ (t.unused_sst_id ∷ [])) ∷ levels;
            filters = (t.unused_sst_id, f) ∷ t.filters;
            unused_sst_id = (t.unused_sst_id + 1) % u64_mod;
          }))

  module _ (pairs : List Pair) (t : Tables bs hasher) (h : AllShort pairs) where
    written : Wrote pairs (nothing_written bs hasher (length pairs)) (
        write_entries bs hasher memory_at 0
          (blocks_of pairs)
          (nothing_written bs hasher (length pairs)))
    written = write_entries-Wrote 0 pairs (nothing_written bs hasher (length pairs)) h

    file_zeros :
        table_file bs hasher (length pairs) written.result
        ≡ zero_indexed (length pairs) written.result.out written.result.bf
    unfolding table_file
    file_zeros =
        ap
          (λ (l : List ℕ).
            written.result.out
            ++ (words_bytes (save bs hasher written.result.bf).0
                ++ (le_bytes 8 (save bs hasher written.result.bf).1
                    ++ (words_bytes l ++ le_bytes 8 (length pairs)))))
          (ap (λ (l : List ℕ). take (length pairs) l) written.behind
            ∙ (unfold nothing_written in take-replicate (length pairs) written.more))

    contained :
        0 < length pairs
        → length pairs < 2 ^ 63
        → AllContained bs hasher written.result.bf (keys_of pairs)
    contained pos few =
        subst (λ (f : BloomFilter bs hasher). AllContained bs hasher f (keys_of pairs))
          (sym written.filtered)
          (unfold nothing_written in
            (init-contains bs hasher (length pairs * 2 % u64_mod) 3 (keys_of pairs) [] bits
              (omega arith)).0)
      where
        bits : 0 < length pairs * 2 % u64_mod
        bits = omega (arith, pos, few)

    -- With the file written, what is left is the entry in the level.
    tabled : List (List ℕ) → Work bs hasher
    tabled sstables = register bs hasher t.unused_sst_id sstables (record t {
      files =
          (t.unused_sst_id, zero_indexed (length pairs) written.result.out written.result.bf)
          ∷ t.files;
      filters = (t.unused_sst_id, written.result.bf) ∷ t.filters;
      unused_sst_id = (t.unused_sst_id + 1) % u64_mod;
    })

    process_memtable-tabled :
        process_memtable bs hasher memory_at (blocks_of pairs) t ≡ tabled t.sstables
    unfolding process_memtable finish_table tabled
    process_memtable-tabled =
        ap
          (λ (k : ℕ).
            finish_table bs hasher k t
              (write_entries bs hasher memory_at 0 (blocks_of pairs) (nothing_written bs hasher k)))
          (length-map pairs (λ (p : Pair). entry p.key p.value))
        ∙ ap (finish_table bs hasher (length pairs) t) written.ended
        ∙ ap
            (λ (file : List ℕ). register bs hasher t.unused_sst_id t.sstables (record t {
              files = (t.unused_sst_id, file) ∷ t.files;
              filters = (t.unused_sst_id, written.result.bf) ∷ t.filters;
              unused_sst_id = (t.unused_sst_id + 1) % u64_mod;
            }))
            file_zeros

  -- A worker that writes a memtable with an entry at least, of fewer than 2 ^ 63 entries with keys and values
  -- shorter than 2 ^ 56: while the first level has fewer than four tables, the table is put there under
  -- its id, its filter contains every key, and its index is a zero for each entry. Once the
  -- level has four tables, the worker blocks for good.
  pub process_memtable-Registered :
      (pairs : List Pair) (t : Tables bs hasher) (level : List ℕ) (levels : List (List ℕ))
      → t.sstables ≡ level ∷ levels
      → 0 < length pairs
      → length pairs < 2 ^ 63
      → AllShort pairs
      → ((length level < 4)
          × Registered pairs level levels t
              (process_memtable bs hasher memory_at (blocks_of pairs) t))
        ⊎ ((4 ≤ length level)
            × (process_memtable bs hasher memory_at (blocks_of pairs) t ≡ blocked))
  process_memtable-Registered pairs t level levels e pos few h =
      elim (Bool-cases (leb 4 (length level))) [
        | inl full ↦ inr (
          ground (arith, full),
          process_memtable-tabled pairs t h
              ∙ ap (tabled pairs t h) e
              ∙ (unfold tabled register in rw full refl),
        )
        | inr room ↦ inl (
          ground (arith, room),
          (
            (written pairs t h).result.out,
            (written pairs t h).result.bf,
            contained pairs t h pos few,
            process_memtable-tabled pairs t h
                ∙ ap (tabled pairs t h) e
                ∙ (unfold tabled register in rw room refl),
          ),
        )
      ]
