-- ===== src/Mousedb/Concurrent/Rounding.antt =====
-- `round_up_to_power_of_two` gives the least power of two.
use cs.Prelude.{
  ℕ, ◌+◌, ◌-◌, ◌*◌, ◌/◌, ◌%◌, ◌^◌, ◌≤◌, ◌<◌, ◌≡◌, refl, ap, ◌∙◌, inl, inr, Bool-cases, ltb, ◌==◌,
  false, bit_or, zero, suc, arith,
}
use native.Mathlib.Nat.{pow-suc, mod-eq_of_lt, pow-le-pow_right}
use cs.Prelude.Bits.{shr, twice_pow, u64_mod}
use cs.Mousedb.Concurrent.{spread, round_up_to_power_of_two}
use cs.Mousedb.Concurrent.Spreading.{Spread, Spread-step}

ended : (i n x : ℕ) → 64 ≤ i → n < 64 → Spread i n x → suc x ≡ 2 ^ n
ended i n x h l s = omega (
  arith,
  s.value,
  s.low_lt,
  one,
  ap (λ (p : ℕ). s.high * p) one,
  s.all_ones,
  ap (λ (k : ℕ). 2 ^ k) whole,
)
  where
    none_left : s.rest ≡ 0
    none_left = elim s.enough [ inl e ↦ omega (arith, e, s.bits) | inr z ↦ z ]

    one : 2 ^ s.rest ≡ 1
    one = ap (λ (k : ℕ). 2 ^ k) none_left

    whole : s.ones ≡ n
    whole = omega (arith, none_left, s.bits)

-- The rounds double `i` until it has reached the width.
spread-ones :
    (rounds i n x : ℕ)
    → 64 ≤ i * 2 ^ rounds
    → n < 64
    → Spread i n x
    → suc (spread rounds i x) ≡ 2 ^ n
unfolding spread
spread-ones zero i n x h l s = ended i n x (omega arith) l s
spread-ones (suc rounds) i n x h l s = elim (Bool-cases (ltb i 64)) [
  | inl more ↦ rw more (
      spread-ones rounds (i * 2) n (bit_or x (shr x i)) (omega (arith, h, twice_pow i rounds)) l
        (Spread-step i n x s))
  | inr done ↦ rw done (ended i n x (ground (arith, done)) l s)
]

-- The first one of a number, with the bits behind it.
record FirstOne (x : ℕ) : Type 0 where
  rest : ℕ
  low : ℕ
  low_lt : low < 2 ^ rest
  value : x ≡ 2 ^ rest + low

first_one : (fuel x : ℕ) → x ≤ fuel → 0 < x → FirstOne x
first_one zero x h pos = absurd (omega arith)
first_one (suc fuel) x h pos = elim (Bool-cases (x == 1)) [
  | inl one ↦ record { rest = 0; low = 0; low_lt = omega arith; value = ground (arith, one) }
  | inr more ↦
      (let half = first_one fuel (x / 2) (omega arith) (ground (arith, more)) in
        record {
          rest = suc half.rest;
          low = half.low * 2 + x % 2;
          low_lt = omega (arith, half.low_lt, pow-suc 2 half.rest);
          value = omega (arith, half.value, pow-suc 2 half.rest);
        })
]

FirstOne-Spread : (x : ℕ) (f : FirstOne x) → Spread 1 (suc f.rest) x
FirstOne-Spread x f = record {
  ones = 1;
  rest = f.rest;
  high = 1;
  low = f.low;
  bits = omega arith;
  enough = inl refl;
  all_ones = refl;
  low_lt = f.low_lt;
  value = omega (arith, f.value);
}

pow_reflects : (j k : ℕ) → 2 ^ j < 2 ^ k → j < k
pow_reflects j k h = elim (Bool-cases (ltb j k)) [
  | inl less ↦ ground (arith, less)
  | inr more ↦ absurd (
      omega
        (arith, h, pow-le-pow_right {n = 2} (omega arith) {i = k} {j = j} (ground (arith, more))))
]

-- A power of two, the least that is not below `n`.
abbrev pub LeastPower : ℕ → ℕ → Type 0
LeastPower n p = (k : ℕ) × (p ≡ 2 ^ k) × (n ≤ 2 ^ k) × ((j : ℕ) → n ≤ 2 ^ j → k ≤ j)

rounding : (n : ℕ) → 1 < n → n ≤ 2 ^ 63 → LeastPower n ((spread 7 1 (n - 1) + 1) % u64_mod)
rounding n more h = (
  suc f.rest,
  powers,
  omega (arith, f.value, f.low_lt, pow-suc 2 f.rest),
  λ j g. pow_reflects f.rest j (omega (arith, g, f.value)),
)
  where
    f : FirstOne (n - 1)
    f = first_one (n - 1) (n - 1) (omega arith) (omega (arith, more))

    short : f.rest < 63
    short = pow_reflects f.rest 63 (omega (arith, f.value, h))

    fits : 2 ^ suc f.rest ≤ 2 ^ 63
    fits = pow-le-pow_right {n = 2} (omega arith) {i = suc f.rest} {j = 63} (omega (arith, short))

    all : suc (spread 7 1 (n - 1)) ≡ 2 ^ suc f.rest
    all =
        spread-ones 7 1 (suc f.rest) (n - 1) (omega arith) (omega (arith, short))
          (FirstOne-Spread (n - 1) f)

    powers : (spread 7 1 (n - 1) + 1) % u64_mod ≡ 2 ^ suc f.rest
    powers = mod-eq_of_lt (omega (arith, all, fits)) ∙ (omega (arith, all))

-- Up to 2 ^ 63, `round_up_to_power_of_two n` is the least power of two that is not below `n`; the word
-- does not wrap.
pub round_up_to_power_of_two-LeastPower :
    (n : ℕ) → n ≤ 2 ^ 63 → LeastPower n (round_up_to_power_of_two n)
unfolding round_up_to_power_of_two
round_up_to_power_of_two-LeastPower zero h = (0, refl, omega arith, λ j g. omega arith)
round_up_to_power_of_two-LeastPower (suc zero) h =
    (0, unfold spread in refl, omega arith, λ j g. omega arith)
round_up_to_power_of_two-LeastPower (suc (suc n)) h =
    let nonzero : (suc (suc n) == 0) ≡ false = ground arith in
    rw nonzero (rounding (suc (suc n)) (omega arith) h)
