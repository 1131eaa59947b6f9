-- ===== src/Mousedb/Filter/Saved.antt =====
-- A filter that was saved is read back as a filter with the same answers.
use cs.Prelude.{
  ℕ, zero, suc, ◌+◌, ◌*◌, ◌/◌, ◌%◌, ◌≤◌, ◌<◌, ◌≡◌, ◌≢◌, refl, ap, ap₂, ◌∙◌, ◌⊎◌, inl, inr, Bool,
  false, not, if◌then◌else◌, List, [], ◌∷◌, ◌++◌, ltb, length, get_or, take-append, drop-append,
  arith,
}
use cs.Mousedb.Filter.{
  Bitset, BloomFilter, bits_per_block, bit_of, hash, contains_loop, contains, save, load_block,
  load_blocks, load, ok,
}
use cs.Mousedb.Filter.Members.{IsValid}
use native.Mathlib.Decide.{ℕ_discrete}
use native.Mathlib.Nat.{mod-lt}
use mathlib.Core.Path.{subst}

module _ (bs : Bitset) {Item : Type 0} (hasher : Item → ℕ) where
  open bs use {
    Bits, make, set, test, size, to_blocks, size-make, test-make, size-set, test-set_self,
    test-set_ne, blocks_cover, test-to_blocks,
  }

  module _ (bit_count i blk : ℕ) where
    abbrev pos_of : ℕ → ℕ
    pos_of b = i * bits_per_block + b

    abbrev round : ℕ → Bits → Bits
    round b bits =
        if bit_of blk b
        then (if ltb (pos_of b) bit_count then set bits (pos_of b) else bits)
        else bits

    size-round : (b : ℕ) (bits : Bits) → size (round b bits) ≡ size bits
    size-round b bits = ground (arith, size-set bits (pos_of b))

    round_ne : (b p : ℕ) (bits : Bits) → pos_of b ≢ p → test (round b bits) p ≡ test bits p
    round_ne b p bits ne = ground (arith, test-set_ne bits (pos_of b) p ne)

    round_self :
        (b : ℕ) (bits : Bits)
        → pos_of b < bit_count
        → size bits ≡ bit_count
        → test bits (pos_of b) ≡ false
        → test (round b bits) (pos_of b) ≡ bit_of blk b
    round_self b bits h e clear = ground (arith, test-set_self bits (pos_of b))

    size-load_block :
        (left b : ℕ) (bits : Bits)
        → size (load_block bs hasher bit_count i blk left b bits) ≡ size bits
    unfolding load_block
    size-load_block zero b bits = refl
    size-load_block (suc left) b bits =
        size-load_block left (b + 1) (round b bits) ∙ size-round b bits

    load_block_outside :
        (left b p : ℕ) (bits : Bits)
        → (p < pos_of b) ⊎ (pos_of b + left ≤ p)
        → test (load_block bs hasher bit_count i blk left b bits) p ≡ test bits p
    unfolding load_block
    load_block_outside zero b p bits h = refl
    load_block_outside (suc left) b p bits h =
        load_block_outside left (b + 1) p (round b bits) (omega arith)
        ∙ round_ne b p bits (λ e. omega arith)

    load_block_inside :
        (left b k : ℕ) (bits : Bits)
        → b ≤ k
        → k < b + left
        → pos_of k < bit_count
        → size bits ≡ bit_count
        → test bits (pos_of k) ≡ false
        → test (load_block bs hasher bit_count i blk left b bits) (pos_of k) ≡ bit_of blk k
    unfolding load_block
    load_block_inside zero b k bits lo hi h e clear = absurd (omega arith)
    load_block_inside (suc left) b k bits lo hi h e clear = elim (ℕ_discrete b k) [
      | yes same ↦
          load_block_outside left (b + 1) (pos_of k) (round b bits) (omega arith)
          ∙ subst (λ (j : ℕ). test (round b bits) (pos_of j) ≡ bit_of blk j) same
              (round_self b bits (rw same h) e (rw same clear))
      | no other ↦
          load_block_inside left (b + 1) k (round b bits) (omega arith) (omega arith) h
            (size-round b bits ∙ e) (round_ne b (pos_of k) bits (λ q. omega arith) ∙ clear)
    ]

  module _ (bit_count : ℕ) where
    size-load_blocks :
        (i : ℕ) (blocks : List ℕ) (bits : Bits)
        → size (load_blocks bs hasher bit_count i blocks bits) ≡ size bits
    unfolding load_blocks
    size-load_blocks i [] bits = refl
    size-load_blocks i (blk ∷ blocks) bits =
        size-load_blocks (i + 1) blocks _ ∙ size-load_block bit_count i blk 64 0 bits

    load_blocks_before :
        (i p : ℕ) (blocks : List ℕ) (bits : Bits)
        → p < i * bits_per_block
        → test (load_blocks bs hasher bit_count i blocks bits) p ≡ test bits p
    unfolding load_blocks
    load_blocks_before i p [] bits h = refl
    load_blocks_before i p (blk ∷ blocks) bits h =
        load_blocks_before (i + 1) p blocks _ (omega arith)
        ∙ load_block_outside bit_count i blk 64 0 p bits (inl (omega arith))

    -- Position `p` is bit `k` of block `j`.
    load_blocks_at :
        (i j k : ℕ) (blocks : List ℕ) (bits : Bits)
        → j < length blocks
        → k < bits_per_block
        → (i + j) * bits_per_block + k < bit_count
        → size bits ≡ bit_count
        → test bits ((i + j) * bits_per_block + k) ≡ false
        → test (load_blocks bs hasher bit_count i blocks bits) ((i + j) * bits_per_block + k)
          ≡ bit_of (get_or blocks j 0) k
    unfolding load_blocks
    load_blocks_at i j k [] bits lt kb h e clear = absurd (omega arith)
    load_blocks_at i zero k (blk ∷ blocks) bits lt kb h e clear =
        let here : (i + 0) * bits_per_block + k ≡ i * bits_per_block + k = omega arith in
        rw here (
          load_blocks_before (i + 1) (i * bits_per_block + k) blocks _ (omega arith)
          ∙ load_block_inside bit_count i blk 64 0 k bits (omega arith) (omega arith) (omega arith)
              e (rw here at clear))
    load_blocks_at i (suc j) k (blk ∷ blocks) bits lt kb h e clear =
        let there : (i + suc j) * bits_per_block + k ≡ (i + 1 + j) * bits_per_block + k =
          omega arith in
        rw there (
          load_blocks_at (i + 1) j k blocks _ (omega arith) kb (omega arith)
            (size-load_block bit_count i blk 64 0 bits ∙ e)
            (load_block_outside bit_count i blk 64 0 ((i + 1 + j) * bits_per_block + k) bits
                (inr (omega arith))
              ∙ rw there at clear))

  -- The answer depends on the tested bits alone.
  contains_loop_cong :
      (f g : BloomFilter bs hasher) (item : Item) (left i : ℕ)
      → 0 < f.bit_count
      → f.bit_count ≡ g.bit_count
      → ((p : ℕ) → p < f.bit_count → test f.bits p ≡ test g.bits p)
      → contains_loop bs hasher f item left i ≡ contains_loop bs hasher g item left i
  unfolding contains_loop
  contains_loop_cong f g item zero i pos e same = refl
  contains_loop_cong f g item (suc left) i pos e same =
      let at_f = hash bs hasher item i % f.bit_count in
      let bit : test f.bits at_f ≡ test g.bits (hash bs hasher item i % g.bit_count) =
        same at_f (mod-lt _ pos) ∙ ap (λ (n : ℕ). test g.bits (hash bs hasher item i % n)) e in
      ap₂ (λ (t r : Bool). if not t then false else r) bit
        (contains_loop_cong f g item left (i + 1) pos e same)

  read_back :
      (f : BloomFilter bs hasher)
      → IsValid bs hasher f
      → (p : ℕ) → p < f.bit_count
      → test (load_blocks bs hasher f.bit_count 0 (to_blocks f.bits) (make f.bit_count)) p
        ≡ test f.bits p
  read_back f (pos, e) p h =
      let whole : p ≡ (0 + p / bits_per_block) * bits_per_block + p % bits_per_block =
        omega arith in
      ap (test (load_blocks bs hasher f.bit_count 0 (to_blocks f.bits) (make f.bit_count))) whole
      ∙ load_blocks_at f.bit_count 0 (p / bits_per_block) (p % bits_per_block) (to_blocks f.bits)
          (make f.bit_count) (omega (arith, blocks_cover f.bits, e)) (omega arith) (omega arith)
          (size-make f.bit_count) (test-make f.bit_count _)
      ∙ test-to_blocks f.bits p (omega (arith, e))

  -- A saved filter, with anything behind it in the file, is loaded as a filter of the same length
  -- and hash count that gives the same answer for every item; the rest of the file is left, and
  -- `save` returned the number of bytes that it wrote.
  pub load-save :
      (f : BloomFilter bs hasher) (rest : List ℕ)
      → IsValid bs hasher f
      → (g : BloomFilter bs hasher) × (load bs hasher ((save bs hasher f).0 ++ rest) ≡ ok (g, rest))
        × (g.bit_count ≡ f.bit_count)
        × (g.hash_count ≡ f.hash_count)
        × ((item : Item) → contains bs hasher g item ≡ contains bs hasher f item)
        × ((save bs hasher f).1 ≡ 8 * length (save bs hasher f).0)
  unfolding save load contains
  load-save f rest v = (
    loaded,
    rw (take-append (to_blocks f.bits) rest, drop-append (to_blocks f.bits) rest) (ground arith),
    refl,
    refl,
    λ item. contains_loop_cong loaded f item f.hash_count 0 v.0 refl (read_back f v),
    omega arith,
  )
    where
      loaded : BloomFilter bs hasher
      loaded = record {
        bit_count = f.bit_count;
        hash_count = f.hash_count;
        bits = load_blocks bs hasher f.bit_count 0 (to_blocks f.bits) (make f.bit_count);
      }
