-- ===== src/Mousedb/Filter/Model.antt =====
-- A bitset that meets the interface: its length with the set of its positions.
use cs.Prelude.{
  ℕ, zero, suc, ◌+◌, ◌*◌, ◌/◌, ◌%◌, ◌^◌, ◌≤◌, ◌<◌, ◌≡◌, ◌≢◌, refl, ap, ◌∙◌, Bool, true, false,
  bit_and, ◌==◌, if◌then◌else◌, List, [], ◌∷◌, length, get_or, arith,
}
use cs.Prelude.Bits.{and_mask, and_bit_suc}
use cs.Mousedb.Filter.{Bitset, bits_per_block, bit_of}
use native.Mathlib.Nat.{pow-le-pow_right, one-le-pow, pow-suc, add-zero}

pub record Positions : Type 0 where
  pub count : ℕ
  pub holds : ℕ → Bool

digit : Bool → ℕ
digit true = 1
digit false = 0

-- `n` positions from `base` on as the binary digits of a number, lowest first.
assemble : ℕ → (ℕ → Bool) → ℕ → ℕ
assemble zero f base = 0
assemble (suc n) f base = digit (f base) + 2 * assemble n f (base + 1)

digit-le : (b : Bool) → digit b ≤ 1
unfolding digit
digit-le true = omega arith
digit-le false = omega arith

digit_at :
    (n k base : ℕ) (f : ℕ → Bool)
    → k < n
    → bit_and (assemble n f base) (2 ^ k) ≡ digit (f (base + k)) * 2 ^ k
unfolding assemble
digit_at zero k base f h = absurd (omega arith)
digit_at (suc n) zero base f h = omega (
  arith,
  and_mask 1 1 (digit (f base) + 2 * assemble n f (base + 1)) refl,
  digit-le (f base),
  ap (λ (j : ℕ). digit (f j)) (add-zero base),
)
digit_at (suc n) (suc k) base f h =
    let x = digit (f base) + 2 * assemble n f (base + 1) in
    let half : x / 2 ≡ assemble n f (base + 1) = omega (arith, digit-le (f base)) in
    let moved : base + 1 + k ≡ base + suc k = omega arith in
    omega (
      arith,
      and_bit_suc k x,
      ap (λ (t : ℕ). bit_and t (2 ^ k)) half,
      digit_at n k (base + 1) f (omega arith),
      ap (λ (j : ℕ). digit (f j) * 2 ^ k) moved,
      ap (λ (t : ℕ). digit (f (base + suc k)) * t) (pow-suc 2 k),
    )

bit_of-assemble :
    (k base : ℕ) (f : ℕ → Bool)
    → k < bits_per_block
    → bit_of (assemble bits_per_block f base) k ≡ f (base + k)
unfolding digit
bit_of-assemble k base f h = ground (
  arith,
  digit_at bits_per_block k base f h,
  pow-le-pow_right {n = 2} (omega arith) {i = k} {j = 63} (omega arith),
  one-le-pow k 2 (omega arith),
)

pub blocks_from : ℕ → (ℕ → Bool) → ℕ → List ℕ
blocks_from zero f base = []
blocks_from (suc n) f base =
    assemble bits_per_block f base ∷ blocks_from n f (base + bits_per_block)

length-blocks_from : (n base : ℕ) (f : ℕ → Bool) → length (blocks_from n f base) ≡ n
unfolding blocks_from
length-blocks_from zero base f = refl
length-blocks_from (suc n) base f = ap suc (length-blocks_from n (base + bits_per_block) f)

block_at :
    (n j k base : ℕ) (f : ℕ → Bool)
    → j < n
    → k < bits_per_block
    → bit_of (get_or (blocks_from n f base) j 0) k ≡ f (base + j * bits_per_block + k)
unfolding blocks_from
block_at zero j k base f h l = absurd (omega arith)
block_at (suc n) zero k base f h l = bit_of-assemble k base f l ∙ ap (λ (i : ℕ). f i) (omega arith)
block_at (suc n) (suc j) k base f h l =
    block_at n j k (base + bits_per_block) f (omega arith) l ∙ ap (λ (i : ℕ). f i) (omega arith)

abbrev pub blocks_of : Positions → List ℕ
blocks_of b = blocks_from ((b.count + 63) / 64) b.holds 0

pub update : Positions → ℕ → Positions
update b i = record b { holds = λ j. if j == i then true else b.holds j }

pub update_count : (b : Positions) (i : ℕ) → (update b i).count ≡ b.count
unfolding update
update_count b i = refl

pub update_self : (b : Positions) (i : ℕ) → (update b i).holds i ≡ true
unfolding update
update_self b i = ground arith

pub update_ne : (b : Positions) (i j : ℕ) → i ≢ j → (update b i).holds j ≡ b.holds j
unfolding update
update_ne b i j ne = ground arith

pub cover : (b : Positions) → b.count ≤ length (blocks_of b) * bits_per_block
cover b = omega (arith, length-blocks_from ((b.count + 63) / 64) 0 b.holds)

pub read_block :
    (b : Positions) (i : ℕ)
    → i < b.count
    → bit_of (get_or (blocks_of b) (i / bits_per_block) 0) (i % bits_per_block) ≡ b.holds i
read_block b i h =
    block_at ((b.count + 63) / 64) (i / 64) (i % 64) 0 b.holds (omega arith) (omega arith)
    ∙ ap (λ (j : ℕ). b.holds j) (omega arith)

abbrev pub positions : Bitset
positions = record {
  Bits = Positions;
  make = λ n. record { count = n; holds = λ i. false };
  set = update;
  test = λ b i. b.holds i;
  size = λ b. b.count;
  to_blocks = blocks_of;
  size-make = λ n. refl;
  test-make = λ n i. refl;
  size-set = update_count;
  test-set_self = λ b i h. update_self b i;
  test-set_ne = update_ne;
  blocks_cover = cover;
  test-to_blocks = read_block;
}
