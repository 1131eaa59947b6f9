-- ===== src/Prelude/Bits.antt =====
-- Machine words: shifts with their wrap, and `|` and `&` on fields of bits as arithmetic.
use Prim.Native.Nat.{
  ℕ, zero, suc, ◌+◌, ◌*◌, ◌/◌, ◌%◌, ◌^◌, ◌≤◌, ◌<◌, min, max, bit_and, bit_or, digits,
  bit_and-bitwise, bit_or-bitwise,
}
use mathlib.Core.Path.{◌≡◌, refl, ap, ap₂, ◌∙◌}
use native.Mathlib.Nat.{
  pow-suc, one-le-pow, div-add-mod', mod-lt, mod-eq_of_lt, mul-add-mod_self_right,
}
use native.Mathlib.Omega.{arith}

-- The values of a `uint64_t` or `size_t` lie below this.
abbrev pub u64_mod : ℕ
u64_mod = 2 ^ 64

-- `x << k` on 64 bits, and `x >> k`.
abbrev pub shl64 : ℕ → ℕ → ℕ
shl64 x k = x * 2 ^ k % u64_mod

abbrev pub shr : ℕ → ℕ → ℕ
shr x k = x / 2 ^ k

-- The fuel of the digit recursion does not matter once it reaches the number.
module _ (z : ℕ → ℕ) (op : ℕ → ℕ → ℕ) where
  enough_fuel : (n m a b : ℕ) → a ≤ n → a ≤ m → digits z op n a b ≡ digits z op m a b
  enough_fuel zero zero a b p q = refl
  enough_fuel zero (suc m) zero b p q = refl
  enough_fuel (suc n) zero zero b p q = refl
  enough_fuel (suc n) (suc m) zero b p q = refl
  enough_fuel zero m (suc a) b p q = absurd (omega arith)
  enough_fuel (suc n) zero (suc a) b p q = absurd (omega arith)
  enough_fuel (suc n) (suc m) (suc a) b p q =
      omega (arith, enough_fuel n m (suc a / 2) (b / 2) (omega arith) (omega arith))

pub or_digit : (a b : ℕ) → bit_or a b ≡ bit_or (a / 2) (b / 2) * 2 + max (a % 2) (b % 2)
or_digit zero b = omega (arith, bit_or-bitwise 0 b, bit_or-bitwise 0 (b / 2))
or_digit (suc a) b = omega (
  arith,
  bit_or-bitwise (suc a) b,
  bit_or-bitwise (suc a / 2) (b / 2),
  enough_fuel (λ y. y) max a (suc a / 2) (suc a / 2) (b / 2) (omega arith) (omega arith),
)

and_digit : (a b : ℕ) → bit_and a b ≡ bit_and (a / 2) (b / 2) * 2 + min (a % 2) (b % 2)
and_digit zero b = omega (arith, bit_and-bitwise 0 b, bit_and-bitwise 0 (b / 2))
and_digit (suc a) b = omega (
  arith,
  bit_and-bitwise (suc a) b,
  bit_and-bitwise (suc a / 2) (b / 2),
  enough_fuel (λ y. 0) min a (suc a / 2) (suc a / 2) (b / 2) (omega arith) (omega arith),
)

pub twice_pow : (q k : ℕ) → q * 2 ^ suc k ≡ 2 * (q * 2 ^ k)
twice_pow q k = omega (arith, ap (λ (t : ℕ). q * t) (pow-suc 2 k))

or_zero_fuel : (n a : ℕ) → a ≤ n → (bit_or a 0 ≡ a) × (bit_or 0 a ≡ a)
or_zero_fuel n zero h = (refl, refl)
or_zero_fuel zero (suc a) h = absurd (omega arith)
or_zero_fuel (suc n) (suc a) h =
    let ih = or_zero_fuel n (suc a / 2) (omega arith) in
    (omega (arith, or_digit (suc a) 0, ih.0), omega (arith, or_digit 0 (suc a), ih.1))

and_zero_fuel : (n a : ℕ) → a ≤ n → bit_and a 0 ≡ 0
and_zero_fuel n zero h = refl
and_zero_fuel zero (suc a) h = absurd (omega arith)
and_zero_fuel (suc n) (suc a) h =
    omega (arith, and_digit (suc a) 0, and_zero_fuel n (suc a / 2) (omega arith))

-- A field above bit `k` and a value below it do not meet: `|` is their sum, on either side.
pub or_high_low : (k q r : ℕ) → r < 2 ^ k → bit_or (q * 2 ^ k) r ≡ q * 2 ^ k + r
or_high_low zero q r h = ground (arith, (or_zero_fuel q q (omega arith)).0)
or_high_low (suc k) q r h = omega (
  arith,
  or_digit (q * 2 ^ suc k) r,
  ap (λ (t : ℕ). bit_or t (r / 2)) half,
  twice_pow q k,
  or_high_low k q (r / 2) (omega (arith, pow-suc 2 k)),
)
  where
    half : q * 2 ^ suc k / 2 ≡ q * 2 ^ k
    half = omega (arith, twice_pow q k)

pub or_low_high : (k q r : ℕ) → r < 2 ^ k → bit_or r (q * 2 ^ k) ≡ r + q * 2 ^ k
or_low_high zero q r h = ground (arith, (or_zero_fuel q q (omega arith)).1)
or_low_high (suc k) q r h = omega (
  arith,
  or_digit r (q * 2 ^ suc k),
  ap (λ (t : ℕ). bit_or (r / 2) t) half,
  twice_pow q k,
  or_low_high k q (r / 2) (omega (arith, pow-suc 2 k)),
)
  where
    half : q * 2 ^ suc k / 2 ≡ q * 2 ^ k
    half = omega (arith, twice_pow q k)

-- The binary digits of a remainder by a power of two.
mod_pow_suc : (k x : ℕ) → x % 2 ^ suc k ≡ x / 2 % 2 ^ k * 2 + x % 2
mod_pow_suc k x =
    ap (λ (t : ℕ). t % 2 ^ suc k) whole
    ∙ mul-add-mod_self_right (x / 2 / 2 ^ k) (2 ^ suc k) (x / 2 % 2 ^ k * 2 + x % 2)
    ∙ mod-eq_of_lt small
  where
    small : x / 2 % 2 ^ k * 2 + x % 2 < 2 ^ suc k
    small = omega (arith, pow-suc 2 k, mod-lt (x / 2) {m = 2 ^ k} (one-le-pow k 2 (omega arith)))

    whole : x ≡ x / 2 / 2 ^ k * 2 ^ suc k + (x / 2 % 2 ^ k * 2 + x % 2)
    whole = omega (arith, twice_pow (x / 2 / 2 ^ k) k, div-add-mod' (x / 2) (2 ^ k))

-- `x & (2 ^ k - 1)`, with the mask `m` by the equation that it satisfies.
pub and_mask : (k m x : ℕ) → m + 1 ≡ 2 ^ k → bit_and x m ≡ x % 2 ^ k
and_mask zero m x h = ground (arith, and_zero_fuel x x (omega arith))
and_mask (suc k) m x h = omega (
  arith,
  and_digit x m,
  and_mask k (m / 2) (x / 2) (omega (arith, pow-suc 2 k, one-le-pow k 2 (omega arith))),
  mod_pow_suc k x,
  pow-suc 2 k,
  one-le-pow k 2 (omega arith),
)

-- `x & (1 << k)` where `x` is the bit `q` above the field `r` of `k` bits.
pub and_bit : (k q r : ℕ) → q ≤ 1 → r < 2 ^ k → bit_and (q * 2 ^ k + r) (2 ^ k) ≡ q * 2 ^ k
and_bit zero q r h l =
    omega (arith, and_mask 1 1 (q * 1 + r) refl, ap (λ (t : ℕ). bit_and t 1) flat)
  where
    flat : q * 1 + r ≡ q * 2 ^ 0 + r
    flat = refl
and_bit (suc k) q r h l = omega (
  arith,
  and_digit (q * 2 ^ suc k + r) (2 ^ suc k),
  ap₂ bit_and high half,
  and_bit k q (r / 2) h (omega (arith, pow-suc 2 k)),
  twice_pow q k,
  pow-suc 2 k,
)
  where
    half : 2 ^ suc k / 2 ≡ 2 ^ k
    half = omega (arith, pow-suc 2 k)

    high : (q * 2 ^ suc k + r) / 2 ≡ q * 2 ^ k + r / 2
    high = omega (arith, twice_pow q k)

-- Bit `k + 1` of a number is bit `k` of its half, and bit 0 its parity.
pub and_bit_suc : (k x : ℕ) → bit_and x (2 ^ suc k) ≡ bit_and (x / 2) (2 ^ k) * 2
and_bit_suc k x = omega (arith, and_digit x (2 ^ suc k), ap (bit_and (x / 2)) half, pow-suc 2 k)
  where
    half : 2 ^ suc k / 2 ≡ 2 ^ k
    half = omega (arith, pow-suc 2 k)
