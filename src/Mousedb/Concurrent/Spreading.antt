-- ===== src/Mousedb/Concurrent/Spreading.antt =====
-- A round of `n |= n >> i` doubles the ones at the front.
use cs.Prelude.{
  ℕ, ◌+◌, ◌-◌, ◌*◌, ◌/◌, ◌%◌, ◌^◌, ◌≤◌, ◌<◌, ◌≡◌, refl, sym, ap, ap₂, ◌∙◌, ◌⊎◌, inl, inr,
  Bool-cases, ltb, bit_or, suc, arith,
}
use native.Mathlib.Nat.{mod-lt, div-add-mod', div-eq_of_lt-le, pow-le-pow_right, div-le_self}
use cs.Prelude.Bits.{shr}
use cs.Mousedb.Concurrent.Ors.{
  positive, pow-add, or_blocks, or-lt, or_ones, suc_mul, mul_comm, shifted, div-lt,
}

-- Of `n` bits the first `j` are ones, and `j` is `i`, or all are.
pub record Spread (i n x : ℕ) : Type 0 where
  pub ones : ℕ
  pub rest : ℕ
  pub high : ℕ
  pub low : ℕ
  pub bits : rest + ones ≡ n
  pub enough : (ones ≡ i) ⊎ (rest ≡ 0)
  pub all_ones : suc high ≡ 2 ^ ones
  pub low_lt : low < 2 ^ rest
  pub value : x ≡ high * 2 ^ rest + low

module _ (i n x : ℕ) (s : Spread i n x) where
  -- All bits are ones already.
  stays : s.rest ≡ 0 → Spread (i * 2) n (bit_or x (shr x i))
  stays z = record {
    ones = s.ones;
    rest = s.rest;
    high = s.high;
    low = s.low;
    bits = s.bits;
    enough = inr z;
    all_ones = s.all_ones;
    low_lt = s.low_lt;
    value = same ∙ s.value;
  }
    where
      none_left : 2 ^ s.rest ≡ 1
      none_left = ap (λ (k : ℕ). 2 ^ k) z

      is_high : x ≡ s.high
      is_high = omega (arith, s.value, s.low_lt, none_left, ap (λ (p : ℕ). s.high * p) none_left)

      smaller : shr x i < 2 ^ s.ones
      smaller = omega (arith, is_high, s.all_ones, div-le_self x (2 ^ i))

      same : bit_or x (shr x i) ≡ x
      same =
          ap (λ (t : ℕ). bit_or t (shr x i)) is_high
          ∙ (or_ones s.ones s.high (shr x i) s.all_ones smaller).1
          ∙ sym is_high

  -- The ones are doubled.
  doubles : s.ones ≡ i → i ≤ s.rest → Spread (i * 2) n (bit_or x (shr x i))
  doubles e h = record {
    ones = i * 2;
    rest = t;
    high = s.high * 2 ^ i + s.high;
    low = bit_or r₀ (s.low / 2 ^ i);
    bits = omega (arith, s.bits, e);
    enough = inl refl;
    all_ones =
        omega (
          arith,
          full,
          suc_mul s.high (2 ^ i) (2 ^ i) full,
          pow-add i i,
          ap (λ (k : ℕ). 2 ^ k) two,
        );
    low_lt = or-lt t r₀ (s.low / 2 ^ i) r₀_lt shifted_lt;
    value =
        ap₂ bit_or split moved
        ∙ or_blocks t (s.high * 2 ^ i + r₁) s.high r₀ (s.low / 2 ^ i) r₀_lt shifted_lt
        ∙ ap (λ (q : ℕ). q * 2 ^ t + bit_or r₀ (s.low / 2 ^ i)) filled;
  }
    where
      t : ℕ
      t = s.rest - i

      r₀ : ℕ
      r₀ = s.low % 2 ^ t

      r₁ : ℕ
      r₁ = s.low / 2 ^ t

      zero_high : (c : ℕ) → 0 * 2 ^ i + c ≡ c
      zero_high c = omega arith

      two : i + i ≡ i * 2
      two = omega arith

      full : suc s.high ≡ 2 ^ i
      full = s.all_ones ∙ ap (λ (k : ℕ). 2 ^ k) e

      parts : 2 ^ s.rest ≡ 2 ^ i * 2 ^ t
      parts = ap (λ (k : ℕ). 2 ^ k) apart ∙ pow-add i t
        where
          apart : s.rest ≡ i + t
          apart = omega (arith, h)

      small : s.low < 2 ^ i * 2 ^ t
      small = omega (arith, s.low_lt, parts)

      r₀_lt : r₀ < 2 ^ t
      r₀_lt = mod-lt s.low {m = 2 ^ t} (positive t)

      shifted_lt : s.low / 2 ^ i < 2 ^ t
      shifted_lt = div-lt s.low i t (omega (arith, small, pow-add i t))

      r₁_lt : r₁ < 2 ^ i
      r₁_lt = div-lt s.low t i (omega (arith, small, pow-add t i, mul_comm (2 ^ i) (2 ^ t)))

      grouped : s.high * 2 ^ s.rest ≡ s.high * 2 ^ i * 2 ^ t
      grouped = ap (λ (p : ℕ). s.high * p) parts ∙ (omega arith)

      grouped' : s.high * 2 ^ s.rest ≡ s.high * 2 ^ t * 2 ^ i
      grouped' = grouped ∙ (omega arith)

      split : x ≡ (s.high * 2 ^ i + r₁) * 2 ^ t + r₀
      split = omega (arith, s.value, grouped, div-add-mod' s.low (2 ^ t))

      moved : shr x i ≡ s.high * 2 ^ t + s.low / 2 ^ i
      moved = shifted x (s.high * 2 ^ t) i s.low (omega (arith, s.value, grouped'))

      filled : bit_or (s.high * 2 ^ i + r₁) s.high ≡ s.high * 2 ^ i + s.high
      filled = omega (
        arith,
        ap (bit_or (s.high * 2 ^ i + r₁)) (zero_high s.high),
        or_blocks i s.high 0 r₁ s.high r₁_lt (omega (arith, full)),
        ap (λ (q : ℕ). q * 2 ^ i) (or_ones i s.high 0 full (positive i)).1,
        (or_ones i s.high r₁ full r₁_lt).0,
      )

  -- The ones reach the last bit.
  reaches_end : s.ones ≡ i → s.rest < i → Spread (i * 2) n (bit_or x (shr x i))
  reaches_end e h = record {
    ones = s.ones + s.rest;
    rest = 0;
    high = s.high * 2 ^ s.rest + m;
    low = 0;
    bits = omega (arith, s.bits);
    enough = inr refl;
    all_ones =
        omega (
          arith,
          m_ones,
          suc_mul s.high (2 ^ s.ones) (2 ^ s.rest) s.all_ones,
          pow-add s.ones s.rest,
        );
    low_lt = omega arith;
    value = ap₂ bit_or s.value shifted_m ∙ filled;
  }
    where
      m : ℕ
      m = 2 ^ s.rest - 1

      m_ones : suc m ≡ 2 ^ s.rest
      m_ones = omega (arith, positive s.rest)

      full : suc s.high ≡ 2 ^ i
      full = s.all_ones ∙ ap (λ (k : ℕ). 2 ^ k) e

      top : s.high * 2 ^ s.rest + 2 ^ s.rest ≡ 2 ^ i * 2 ^ s.rest
      top = suc_mul s.high (2 ^ i) (2 ^ s.rest) full

      below : m * 2 ^ i + 2 ^ i ≡ 2 ^ s.rest * 2 ^ i
      below = suc_mul m (2 ^ s.rest) (2 ^ i) m_ones

      swapped : 2 ^ i * 2 ^ s.rest ≡ 2 ^ s.rest * 2 ^ i
      swapped = mul_comm (2 ^ i) (2 ^ s.rest)

      larger : 2 ^ s.rest ≤ 2 ^ i
      larger = pow-le-pow_right {n = 2} (omega arith) {i = s.rest} {j = i} (omega (arith, h))

      one_more : (m + 1) * 2 ^ i ≡ 2 ^ s.rest * 2 ^ i
      one_more = ap (λ (p : ℕ). p * 2 ^ i) (omega (arith, m_ones))

      shifted_m : shr x i ≡ m
      shifted_m =
          div-eq_of_lt-le {k = m} (2 ^ i) {m = x}
            (omega (arith, s.value, top, below, swapped, larger))
            (omega (arith, s.value, s.low_lt, top, one_more, swapped))

      filled : bit_or (s.high * 2 ^ s.rest + s.low) m ≡ (s.high * 2 ^ s.rest + m) * 2 ^ 0 + 0
      filled = omega (
        arith,
        ap (bit_or (s.high * 2 ^ s.rest + s.low)) (zero_high m),
        or_blocks s.rest s.high 0 s.low m s.low_lt (omega (arith, m_ones)),
        ap (λ (q : ℕ). q * 2 ^ s.rest) (or_ones i s.high 0 full (positive i)).1,
        (or_ones s.rest m s.low m_ones s.low_lt).0,
      )
        where
          zero_high : (c : ℕ) → 0 * 2 ^ s.rest + c ≡ c
          zero_high c = omega arith

  pub Spread-step : Spread (i * 2) n (bit_or x (shr x i))
  Spread-step = elim s.enough [
    | inr z ↦ stays z
    | inl e ↦ elim (Bool-cases (ltb s.rest i)) [
      | inl few ↦ reaches_end e (ground (arith, few))
      | inr many ↦ doubles e (ground (arith, many))
    ]
  ]
