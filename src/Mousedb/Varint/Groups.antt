-- ===== src/Mousedb/Varint/Groups.antt =====
-- The bytes of a number in plain arithmetic, and what one byte means to the two loops.
use cs.Prelude.{
  ℕ, zero, suc, ◌+◌, ◌*◌, ◌/◌, ◌%◌, ◌^◌, ◌≤◌, ◌<◌, ◌≡◌, refl, ap, bit_and, bit_or, ltb,
  if◌then◌else◌, List, [], ◌∷◌, length, arith,
}
use cs.Prelude.Bits.{and_mask, and_bit, or_low_high}

-- Groups of seven bits, lowest first, with 128 added to all but the last; at most k + 1 of them.
unfoldable pub groups : ℕ → ℕ → List ℕ
groups zero v = v ∷ []
groups (suc k) v =
    let rest = groups k (v / 128) in if ltb 127 v then (v % 128 + 128) ∷ rest else v ∷ []

pub length-groups : (k v : ℕ) → (1 ≤ length (groups k v)) × (length (groups k v) ≤ k + 1)
unfolding groups
length-groups zero v = omega arith
length-groups (suc k) v = ground (arith, length-groups k (v / 128))

pub length-groups_lt : (k m v : ℕ) → v < 128 ^ suc m → length (groups k v) ≤ m + 1
unfolding groups
length-groups_lt zero m v h = omega arith
length-groups_lt (suc k) zero v h = ground arith
length-groups_lt (suc k) (suc m) v h = ground (arith, length-groups_lt k m (v / 128) (omega arith))

-- The byte that `encode_varint` stores while more follow.
pub inner_byte : (v : ℕ) → bit_or (bit_and v 0x7F) 0x80 % 256 ≡ v % 128 + 128
inner_byte v = omega (
  arith,
  ap (λ (t : ℕ). bit_or t 0x80) (and_mask 7 0x7F v refl),
  or_low_high 7 1 (v % 128) (omega arith),
)

pub low_seven : (b : ℕ) → bit_and b 0x7F ≡ b % 128
low_seven b = and_mask 7 0x7F b refl

pub top_bit : (b : ℕ) → b < 256 → bit_and b 0x80 ≡ b / 128 * 128
top_bit b h =
    let whole : b ≡ b / 128 * 2 ^ 7 + b % 128 = omega arith in
    omega (
      arith,
      ap (λ (t : ℕ). bit_and t 0x80) whole,
      and_bit 7 (b / 128) (b % 128) (omega arith) (omega arith),
    )
