-- ===== src/Mousedb/Concurrent/Ors.antt =====
-- `|` and `>>` on high and low bits.
use cs.Prelude.{ℕ, ◌+◌, ◌*◌, ◌/◌, ◌^◌, ◌≤◌, ◌<◌, ◌≡◌, ap, ap₂, ◌∙◌, bit_or, zero, suc, arith}
use native.Mathlib.Nat.{pow-suc, one-le-pow, mul-add-div_right, div-lt_iff_lt-mul}
use cs.Prelude.Bits.{shr, or_digit, twice_pow}

pub positive : (k : ℕ) → 1 ≤ 2 ^ k
positive k = one-le-pow k 2 (omega arith)

pub pow-add : (j t : ℕ) → 2 ^ (j + t) ≡ 2 ^ j * 2 ^ t
pow-add zero t = omega (arith, ap (λ (k : ℕ). 2 ^ k) (zero_add t))
  where
    zero_add : (k : ℕ) → 0 + k ≡ k
    zero_add k = omega arith
pow-add (suc j) t = omega (
  arith,
  ap (λ (k : ℕ). 2 ^ k) moved,
  pow-suc 2 (j + t),
  pow-add j t,
  ap (λ (p : ℕ). p * 2 ^ t) (pow-suc 2 j),
)
  where
    moved : suc j + t ≡ suc (j + t)
    moved = omega arith

-- `|` works on the high and on the low bits.
pub or_blocks :
    (k a b r s : ℕ)
    → r < 2 ^ k
    → s < 2 ^ k
    → bit_or (a * 2 ^ k + r) (b * 2 ^ k + s) ≡ bit_or a b * 2 ^ k + bit_or r s
or_blocks zero a b r s p q =
    let r_zero : r ≡ 0 = omega arith in
    let s_zero : s ≡ 0 = omega arith in
    omega (arith, ap₂ bit_or (high a r r_zero) (high b s s_zero), ap₂ bit_or r_zero s_zero)
  where
    high : (c t : ℕ) → t ≡ 0 → c * 2 ^ 0 + t ≡ c
    high c t e = omega (arith, e)
or_blocks (suc k) a b r s p q = omega (
  arith,
  or_digit (a * 2 ^ suc k + r) (b * 2 ^ suc k + s),
  ap₂ bit_or (half a r) (half b s),
  or_blocks k a b (r / 2) (s / 2) (omega (arith, pow-suc 2 k)) (omega (arith, pow-suc 2 k)),
  or_digit r s,
  twice_pow a k,
  twice_pow b k,
  twice_pow (bit_or a b) k,
)
  where
    half : (c t : ℕ) → (c * 2 ^ suc k + t) / 2 ≡ c * 2 ^ k + t / 2
    half c t = omega (arith, twice_pow c k)

pub or-lt : (k r s : ℕ) → r < 2 ^ k → s < 2 ^ k → bit_or r s < 2 ^ k
or-lt zero r s p q = omega (arith, ap₂ bit_or (ends r p) (ends s q))
  where
    ends : (t : ℕ) → t < 2 ^ 0 → t ≡ 0
    ends t h = omega arith
or-lt (suc k) r s p q = omega (
  arith,
  or_digit r s,
  or-lt k (r / 2) (s / 2) (omega (arith, pow-suc 2 k)) (omega (arith, pow-suc 2 k)),
  pow-suc 2 k,
)

-- `m` is `k` ones.
pub or_ones : (k m r : ℕ) → suc m ≡ 2 ^ k → r < 2 ^ k → (bit_or r m ≡ m) × (bit_or m r ≡ m)
or_ones zero m r e h = (
  omega (arith, ap₂ bit_or (ends r h) (ends m (omega (arith, e)))),
  omega (arith, ap₂ bit_or (ends m (omega (arith, e))) (ends r h)),
)
  where
    ends : (t : ℕ) → t < 2 ^ 0 → t ≡ 0
    ends t g = omega arith
or_ones (suc k) m r e h =
    let low =
      or_ones k (m / 2) (r / 2) (omega (arith, e, pow-suc 2 k)) (omega (arith, pow-suc 2 k)) in
    (
      omega (arith, or_digit r m, low.0, e, pow-suc 2 k, positive k),
      omega (arith, or_digit m r, low.1, e, pow-suc 2 k, positive k),
    )

pub suc_mul : (a b c : ℕ) → suc a ≡ b → a * c + c ≡ b * c
suc_mul a b c e = omega (arith, ap (λ (t : ℕ). t * c) e)

pub mul_comm : (a b : ℕ) → a * b ≡ b * a
mul_comm a b = omega arith

pub shifted : (x h k l : ℕ) → x ≡ h * 2 ^ k + l → shr x k ≡ h + l / 2 ^ k
shifted x h k l e = ap (λ (t : ℕ). t / 2 ^ k) e ∙ mul-add-div_right {m = 2 ^ k} (positive k) h l

pub div-lt : (l k t : ℕ) → l < 2 ^ (k + t) → l / 2 ^ k < 2 ^ t
div-lt l k t h =
    (div-lt_iff_lt-mul {k = 2 ^ k} {x = l} {y = 2 ^ t} (positive k)).1
      (omega (arith, pow-add k t, mul_comm (2 ^ k) (2 ^ t)))
