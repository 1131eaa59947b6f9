-- ===== src/Mousedb/KvStore/Runs.antt =====
-- Runs of the store of key-value pairs.
use cs.Prelude.{ℕ, ◌≡◌, refl, some, List, [], ◌∷◌, ◌++◌, length, arith}
use cs.Prelude.Options.{◌>>=◌}
use cs.Mousedb.KvStore.{
  get, get_key, get_value, get_size, insert_size, insert_at, compare_keys, find,
}
use cs.Mousedb.KvStore.Layout.{entry}
use cs.Mousedb.KvStore.RoundTrip.{insert_at-entry, get-entry}
use cs.Mousedb.KvStore.Find.{Insertion, insert_all, values_of, find-insert_all}
use cs.Mousedb.Varint.{get_varint_size, bit_width}

abbrev key_a : List ℕ
key_a = b'a' ∷ []

abbrev key_b : List ℕ
key_b = b'b' ∷ 0 ∷ []

abbrev junk : List ℕ
junk = 9 ∷ 9 ∷ 9 ∷ 9 ∷ 9 ∷ []

block_size : length junk ≡ insert_size key_a (1 ∷ 2 ∷ [])
unfolding insert_size get_varint_size bit_width
block_size = refl

block_size_b : length junk ≡ insert_size key_b (3 ∷ [])
unfolding insert_size get_varint_size bit_width
block_size_b = refl

insert_at-entry_example : insert_at junk key_a (1 ∷ 2 ∷ []) ≡ some (entry key_a (1 ∷ 2 ∷ []))
insert_at-entry_example =
    insert_at-entry key_a (1 ∷ 2 ∷ []) junk (omega arith) (omega arith) block_size

get-entry_example :
    (get (entry key_a (1 ∷ 2 ∷ []) ++ junk) ≡ some (key_a, 1 ∷ 2 ∷ []))
    × (get_key (entry key_a (1 ∷ 2 ∷ []) ++ junk) ≡ some key_a)
    × (get_value (entry key_a (1 ∷ 2 ∷ []) ++ junk) ≡ some (1 ∷ 2 ∷ []))
    × (get_size (entry key_a (1 ∷ 2 ∷ []) ++ junk) ≡ some (insert_size key_a (1 ∷ 2 ∷ [])))
get-entry_example = get-entry key_a (1 ∷ 2 ∷ []) junk (omega arith) (omega arith)

abbrev three_inserts : List Insertion
three_inserts =
    record { key = key_a; value = 1 ∷ 2 ∷ []; block = junk }
    ∷ record { key = key_b; value = 3 ∷ []; block = junk }
    ∷ record { key = key_a; value = 4 ∷ 5 ∷ []; block = junk }
    ∷ []

block_size_again : length junk ≡ insert_size key_a (4 ∷ 5 ∷ [])
unfolding insert_size get_varint_size bit_width
block_size_again = refl

find-insert_all_example :
    (insert_all [] three_inserts >>= λ nodes. find nodes key_a)
    ≡ some (values_of key_a three_inserts)
find-insert_all_example = find-insert_all key_a three_inserts (
  (omega arith, omega arith, block_size),
  ((omega arith, omega arith, block_size_b), ((omega arith, omega arith, block_size_again), tt)),
)

both_values : values_of key_a three_inserts ≡ (1 ∷ 2 ∷ []) ∷ (4 ∷ 5 ∷ []) ∷ []
unfolding values_of compare_keys
both_values = refl
