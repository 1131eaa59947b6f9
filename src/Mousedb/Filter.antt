-- ===== src/Mousedb/Filter.antt =====
-- The Bloom filter of mousedb/server/lib_database/src/filter.cpp.
-- `std::hash` and `boost::dynamic_bitset` are parameters; `Bitset` holds what is documented of the
-- latter. A file is the list of the 64-bit words from the read position on; writes to it succeed.
pub mod Members
pub mod Model
pub mod Saved
mod Runs
use cs.Prelude.{
  ℕ, zero, suc, ◌+◌, ◌*◌, ◌/◌, ◌%◌, ◌^◌, ◌≤◌, ◌<◌, ◌≡◌, ◌≢◌, Bool, true, false, not, bit_and,
  bit_xor, ltb, ◌==◌, if◌then◌else◌, List, [], ◌∷◌, ◌++◌, length, get_or, take, drop,
}
use cs.Prelude.Bits.{u64_mod, shl64, shr}

-- `boost::dynamic_bitset<>` with 64-bit blocks.
abbrev pub bits_per_block : ℕ
bits_per_block = 64

-- `blk & (block_type(1) << b)`
abbrev pub bit_of : ℕ → ℕ → Bool
bit_of blk b = not (bit_and blk (shl64 1 b) == 0)

pub record Bitset : Type 1 where
  pub Bits : Type 0
  pub make : ℕ → Bits
  pub set : Bits → ℕ → Bits
  pub test : Bits → ℕ → Bool
  pub size : Bits → ℕ
  pub to_blocks : Bits → List ℕ
  pub size-make : (n : ℕ) → size (make n) ≡ n
  pub test-make : (n i : ℕ) → test (make n) i ≡ false
  pub size-set : (b : Bits) (i : ℕ) → size (set b i) ≡ size b
  pub test-set_self : (b : Bits) (i : ℕ) → i < size b → test (set b i) i ≡ true
  pub test-set_ne : (b : Bits) (i j : ℕ) → i ≢ j → test (set b i) j ≡ test b j
  pub blocks_cover : (b : Bits) → size b ≤ length (to_blocks b) * bits_per_block
  pub test-to_blocks :
      (b : Bits) (i : ℕ)
      → i < size b
      → bit_of (get_or (to_blocks b) (i / bits_per_block) 0) (i % bits_per_block) ≡ test b i

pub data LoadError : Type 0 where
  no_file no_header no_block_count no_blocks : LoadError

pub data Loaded {ℓ} (A : Type ℓ) : Type ℓ where
  ok : A → Loaded A
  err : LoadError → Loaded A

module _ (bs : Bitset) {Item : Type 0} (hasher : Item → ℕ) where
  open bs use {Bits, make, set, test, size, to_blocks}

  pub record BloomFilter : Type 0 where
    pub bit_count : ℕ
    pub hash_count : ℕ
    pub bits : Bits

  pub init : ℕ → ℕ → BloomFilter
  init bit_count hash_count = record {
    bit_count = bit_count;
    hash_count = hash_count;
    bits = make bit_count;
  }

  unfoldable pub hash : Item → ℕ → ℕ
  hash item seed =
      let h1 = hasher item in
      bit_xor h1 ((seed + 0x9e3779b97f4a7c15 + shl64 h1 6 + shr h1 2) % u64_mod)

  -- The loops over `i`, from the rounds left.
  pub add_loop : BloomFilter → Item → ℕ → ℕ → Bits → Bits
  unfolding hash
  add_loop f item zero i b = b
  add_loop f item (suc left) i b = add_loop f item left (i + 1) (set b (hash item i % f.bit_count))

  pub add : BloomFilter → Item → BloomFilter
  unfolding add_loop
  add f item = record f { bits = add_loop f item f.hash_count 0 f.bits }

  pub contains_loop : BloomFilter → Item → ℕ → ℕ → Bool
  unfolding hash
  contains_loop f item zero i = true
  contains_loop f item (suc left) i =
      let rest = contains_loop f item left (i + 1) in
      if not (test f.bits (hash item i % f.bit_count)) then false else rest

  pub contains : BloomFilter → Item → Bool
  unfolding contains_loop
  contains f item = contains_loop f item f.hash_count 0

  -- The words that `save` writes, and the number of bytes that it returns.
  pub save : BloomFilter → List ℕ × ℕ
  save f =
      let nblocks = length (to_blocks f.bits) in
      (f.bit_count ∷ f.hash_count ∷ nblocks ∷ to_blocks f.bits, 8 + 8 + 8 + nblocks * 8)

  -- The inner loop of the constructor from a file: bits `b` on of block `i`.
  pub load_block : ℕ → ℕ → ℕ → ℕ → ℕ → Bits → Bits
  load_block bit_count i blk zero b bits = bits
  load_block bit_count i blk (suc left) b bits =
      let pos = i * bits_per_block + b in
      load_block bit_count i blk left (b + 1)
        (if bit_of blk b then (if ltb pos bit_count then set bits pos else bits) else bits)

  pub load_blocks : ℕ → ℕ → List ℕ → Bits → Bits
  load_blocks bit_count i [] bits = bits
  load_blocks bit_count i (blk ∷ blocks) bits =
      load_blocks bit_count (i + 1) blocks (load_block bit_count i blk bits_per_block 0 bits)

  -- Reading `nblocks` words; `fread` returns fewer where the file ends.
  pub load_rest : ℕ → ℕ → ℕ → List ℕ → Loaded (BloomFilter × List ℕ)
  load_rest bit_count hash_count nblocks words =
      let blocks = take nblocks words in
      if not (length blocks == nblocks)
      then err no_blocks
      else ok (
        record {
          bit_count = bit_count;
          hash_count = hash_count;
          bits = load_blocks bit_count 0 blocks (make bit_count);
        },
        drop nblocks words,
      )

  pub load : List ℕ → Loaded (BloomFilter × List ℕ)
  unfolding load_rest
  load [] = err no_header
  load (bit_count ∷ []) = err no_header
  load (bit_count ∷ hash_count ∷ []) = err no_block_count
  load (bit_count ∷ hash_count ∷ nblocks ∷ words) = load_rest bit_count hash_count nblocks words
