-- ===== src/Mousedb/Filter/Runs.antt =====
-- Runs of the Bloom filter over a concrete bitset and hash.
use cs.Prelude.{ℕ, ◌+◌, ◌*◌, ◌≡◌, refl, false, [], ◌∷◌, ◌++◌, length, arith}
use cs.Mousedb.Filter.{BloomFilter, init, contains, save, load, ok}
use cs.Mousedb.Filter.Model.{positions}
use cs.Mousedb.Filter.Members.{AllContained, add_all, init-contains}
use cs.Mousedb.Filter.Saved.{load-save}

abbrev toy_hash : ℕ → ℕ
toy_hash x = 31 * x + 7

abbrev Toy : Type 0
Toy = BloomFilter positions toy_hash

abbrev two_bits : Toy
two_bits = record {
  bit_count = 70;
  hash_count = 3;
  bits = record { count = 70; holds = λ i. false };
}

init-contains_example :
    AllContained positions toy_hash
      (add_all positions toy_hash (init positions toy_hash 70 3) (4 ∷ 9 ∷ []))
      (4 ∷ 9 ∷ [])
    × (contains positions toy_hash (init positions toy_hash 70 3) 5 ≡ false)
init-contains_example =
    init-contains positions toy_hash 70 3 (4 ∷ 9 ∷ []) 5 (omega arith) (omega arith)

load-save_example :
    (g : Toy) × (load positions toy_hash ((save positions toy_hash two_bits).0 ++ 1 ∷ [])
      ≡ ok (g, 1 ∷ []))
    × (g.bit_count ≡ 70)
    × (g.hash_count ≡ 3)
    × ((item : ℕ) → contains positions toy_hash g item ≡ contains positions toy_hash two_bits item)
    × ((save positions toy_hash two_bits).1 ≡ 8 * length (save positions toy_hash two_bits).0)
load-save_example = load-save positions toy_hash two_bits (1 ∷ []) (omega arith, refl)
