-- ===== src/Mousedb/KvStore.antt =====
-- Key-value pairs in raw memory, and the list of them: `KVStore`, `KVSkipList` and `MemTable` of
-- mousedb/server/lib_database/src/memtable.cpp and memtable.hpp.
-- A pointer stands for the bytes of memory from it on; `none` is an access outside them.
-- `Arena` models the allocator; here an allocation is the block that it returned, with whatever
-- bytes the block held.
pub mod Compare
pub mod Layout
pub mod RoundTrip
pub mod Find
mod Runs
use cs.Prelude.{
  ℕ, zero, suc, ◌+◌, ◌<◌, Bool, true, false, min, ltb, ◌==◌, if◌then◌else◌, Option, none, some,
  List, [], ◌∷◌, ◌++◌, length, take, drop,
}
use cs.Prelude.Options.{◌>>=◌}
use cs.Mousedb.Varint.{get_varint_size, encode_varint, decode_varint}

-- The sign of an `int` that a comparison returns.
pub data Sign : Type 0 where
  negative zero_sign positive : Sign

-- `std::memcmp` on the first `n` bytes of both.
pub memcmp : List ℕ → List ℕ → ℕ → Sign
memcmp xs ys zero = zero_sign
memcmp [] ys (suc n) = zero_sign
memcmp (x ∷ xs) [] (suc n) = zero_sign
memcmp (x ∷ xs) (y ∷ ys) (suc n) =
    if ltb x y then negative else if ltb y x then positive else memcmp xs ys n

-- The part of `compare` after the call of `memcmp`.
abbrev by_size : ℕ → ℕ → Sign → Sign
by_size size_a size_b zero_sign =
    if size_a == size_b then zero_sign else if ltb size_a size_b then negative else positive
by_size size_a size_b cmp = cmp

unfoldable pub compare_keys : List ℕ → List ℕ → Sign
unfolding memcmp
compare_keys key_a key_b =
    by_size (length key_a) (length key_b) (memcmp key_a key_b (min (length key_a) (length key_b)))

-- `{ptr + offset, size}`
pub slice : List ℕ → ℕ → ℕ → Option (List ℕ)
slice mem zero zero = some []
slice [] zero (suc size) = none
slice (b ∷ mem) zero (suc size) = slice mem zero size >>= λ bytes. some (b ∷ bytes)
slice [] (suc offset) size = none
slice (b ∷ mem) (suc offset) size = slice mem offset size

-- Every decoding is given a span of `sizeof(size_t)` bytes.
abbrev sizeof_size_t : ℕ
sizeof_size_t = 8

pub decode_at : List ℕ → ℕ → Option (ℕ × ℕ)
decode_at mem offset = decode_varint (take sizeof_size_t (drop offset mem))

pub get : List ℕ → Option (List ℕ × List ℕ)
unfolding decode_at slice
get mem = do
  (size_key, n) ← decode_at mem 0
  key ← slice mem n size_key
  (size_value, m) ← decode_at mem (n + size_key)
  value ← slice mem (n + size_key + m) size_value
  some (key, value)

pub get_key : List ℕ → Option (List ℕ)
unfolding decode_at slice
get_key mem = do (size_key, n) ← decode_at mem 0; slice mem n size_key

pub get_value : List ℕ → Option (List ℕ)
unfolding decode_at slice
get_value mem = do
  (size_key, n) ← decode_at mem 0
  (size_value, m) ← decode_at mem (n + size_key)
  slice mem (n + size_key + m) size_value

pub get_size : List ℕ → Option ℕ
unfolding decode_at
get_size mem = do
  (size_key, n) ← decode_at mem 0
  (size_value, m) ← decode_at mem (n + size_key)
  some (n + size_key + m + size_value)

-- `compare` on two stored entries.
pub compare_entries : List ℕ → List ℕ → Option Sign
unfolding decode_at slice compare_keys
compare_entries a b = do
  (size_a, offset_a) ← decode_at a 0
  (size_b, offset_b) ← decode_at b 0
  key_a ← slice a offset_a size_a
  key_b ← slice b offset_b size_b
  some (compare_keys key_a key_b)

-- `std::memcpy(ptr + offset, bytes, bytes.size())`
pub memcpy_at : List ℕ → ℕ → List ℕ → Option (List ℕ)
memcpy_at mem zero [] = some mem
memcpy_at [] zero (b ∷ bytes) = none
memcpy_at (x ∷ mem) zero (b ∷ bytes) = memcpy_at mem zero bytes >>= λ rest. some (b ∷ rest)
memcpy_at [] (suc offset) bytes = none
memcpy_at (x ∷ mem) (suc offset) bytes = memcpy_at mem offset bytes >>= λ rest. some (x ∷ rest)

-- `encode_varint({ptr + offset, size}, value)`
pub encode_at : List ℕ → ℕ → ℕ → ℕ → Option (List ℕ)
unfolding slice
encode_at mem offset size value = do
  span ← slice mem offset size
  (span', n) ← encode_varint span value
  some (take offset mem ++ (span' ++ drop (offset + size) mem))

-- The bytes that `insert` asks the arena for.
pub insert_size : List ℕ → List ℕ → ℕ
insert_size key value =
    get_varint_size (length key) + get_varint_size (length value) + length key + length value

-- `insert` on the block that `arena_.allocate(size)` returned.
pub insert_at : List ℕ → List ℕ → List ℕ → Option (List ℕ)
unfolding encode_at memcpy_at
insert_at ptr key value =
    let size_key = length key in
    let size_value = length value in
    let size_varint_key = get_varint_size size_key in
    let size_varint_value = get_varint_size size_value in
    do
      ptr ← encode_at ptr 0 size_varint_key size_key
      ptr ← memcpy_at ptr size_varint_key key
      ptr ← encode_at ptr (size_varint_key + size_key) size_varint_value size_value
      memcpy_at ptr (size_varint_key + size_key + size_varint_value) value

-- `KVSkipList`: its nodes are pointers to entries, oldest first.
pub find_loop : List ℕ → List (List ℕ) → List (List ℕ) → Option (List (List ℕ))
find_loop key [] values = some values
find_loop key (node ∷ nodes) values = get node >>= λ (test_key, value).
    find_loop key nodes
      (elim (compare_keys key test_key) [ zero_sign ↦ values ++ value ∷ [] | _ ↦ values ])

pub find : List (List ℕ) → List ℕ → Option (List (List ℕ))
unfolding find_loop
find nodes key = find_loop key nodes []

-- `block` is the memory that the arena hands out for the entry.
pub insert : List (List ℕ) → List ℕ → List ℕ → List ℕ → Option (List (List ℕ))
insert nodes block key value = insert_at block key value >>= λ ptr. some (nodes ++ ptr ∷ [])
