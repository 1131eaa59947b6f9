-- ===== src/Mousedb/Varint/RoundTrip.antt =====
-- What `encode_varint` writes, and that `decode_varint` reads it back.
use cs.Prelude.{
  ℕ, zero, suc, ◌+◌, ◌*◌, ◌/◌, ◌%◌, ◌^◌, ◌≤◌, ◌<◌, ◌≡◌, refl, ap, ◌∙◌, ltb, inl, inr, Bool-cases,
  some, List, [], ◌∷◌, ◌++◌, length, length-append, arith,
}
use cs.Prelude.Bits.{u64_mod, or_low_high}
use cs.Mousedb.Varint.{store, encode_loop, encode_varint, decode_loop, decode_varint}
use cs.Mousedb.Varint.Groups.{groups, length-groups, inner_byte, low_seven, top_bit}
use mathlib.Core.List.{append-nil, append_assoc}
use native.Mathlib.Nat.{div-add-mod}
use native.Mathlib.Numerals.{towards_suc}

store-append :
    (front : List ℕ) (old : ℕ) (back : List ℕ) (b : ℕ)
    → store (front ++ old ∷ back) (length front) b ≡ some (front ++ b ∷ back)
unfolding store
store-append [] old back b = refl
store-append (x ∷ front) old back b = rw (store-append front old back b)

-- One round on a span whose next byte is `old`.
encode_last :
    (fuel : ℕ) (front : List ℕ) (old : ℕ) (back : List ℕ) (v : ℕ)
    → v < 128
    → encode_loop (suc fuel) (front ++ old ∷ back) (length front) v
      ≡ some (front ++ v ∷ back, length front + 1)
unfolding encode_loop
encode_last fuel front old back v h = ground (arith, store-append front old back v)

encode_inner :
    (fuel : ℕ) (front : List ℕ) (old : ℕ) (back : List ℕ) (v : ℕ)
    → 128 ≤ v
    → encode_loop (suc fuel) (front ++ old ∷ back) (length front) v
      ≡ encode_loop fuel (front ++ (v % 128 + 128) ∷ back) (length front + 1) (v / 128)
unfolding encode_loop
encode_inner fuel front old back v h =
    ground (arith, inner_byte v, store-append front old back (v % 128 + 128))

-- A round that ends the call on a span with room for one byte.
encode_whole :
    (fuel : ℕ) (front : List ℕ) (o : ℕ) (old back : List ℕ) (v : ℕ)
    → v < 128
    → length (o ∷ old) ≡ 1
    → encode_loop (suc fuel) (front ++ o ∷ (old ++ back)) (length front) v
      ≡ some (front ++ v ∷ back, length front + 1)
encode_whole fuel front o [] back v h l = encode_last fuel front o back v h
encode_whole fuel front o (x ∷ old) back v h l = absurd (omega arith)

-- `old` is the part of the span that the call overwrites.
encode_loop-groups :
    (k fuel v : ℕ) (front old back : List ℕ)
    → v < 128 ^ suc k
    → k < fuel
    → length old ≡ length (groups k v)
    → encode_loop fuel (front ++ (old ++ back)) (length front) v
      ≡ some (front ++ (groups k v ++ back), length front + length (groups k v))
unfolding groups
encode_loop-groups k zero v front old back h f l = absurd (omega arith)
encode_loop-groups k (suc fuel) v front [] back h f l = absurd (omega (arith, length-groups k v))
encode_loop-groups zero (suc fuel) v front (o ∷ old) back h f l =
    encode_whole fuel front o old back v (omega arith) l
encode_loop-groups (suc k) (suc fuel) v front (o ∷ old) back h f l = elim (Bool-cases (ltb 127 v)) [
  | inr small ↦ rw small (encode_whole fuel front o old back v (ground arith) (rw small at l))
  | inl large ↦
      let b : ℕ = v % 128 + 128 in
      let more = encode_loop-groups k fuel (v / 128) (front ++ b ∷ []) old back in
      rw large (
        encode_inner fuel front o (old ++ back) v (ground arith)
        ∙ ground (
          arith,
          more (omega arith) (omega arith) (ground arith),
          append_assoc front (b ∷ []) (old ++ back),
          append_assoc front (b ∷ []) (groups k (v / 128) ++ back),
          length-append front (b ∷ []),
        ))
]

-- `2 ^ (7 * (i + 1))`
shift_seven : (i : ℕ) → 2 ^ ((i + 1) * 7) ≡ 128 * 2 ^ (i * 7)
shift_seven i =
    let e : (i + 1) * 7 ≡ i * 7 + 7 = omega arith in rw e (simp towards_suc (omega arith))

-- A number as its lowest group and the rest, each at its place.
group_split : (v i : ℕ) → v % 128 * 2 ^ (i * 7) + v / 128 * 2 ^ ((i + 1) * 7) ≡ v * 2 ^ (i * 7)
group_split v i = omega (
  arith,
  ap (λ (t : ℕ). t * 2 ^ (i * 7)) (div-add-mod v 128),
  ap (λ (t : ℕ). v / 128 * t) (shift_seven i),
)

group_fits : (v i : ℕ) → v % 128 * 2 ^ (i * 7) ≤ 127 * 2 ^ (i * 7)
group_fits v i = grind arith

-- Reading one byte: `acc` has the bits below `i * 7`.
decode_last :
    (i acc b : ℕ) (rest : List ℕ)
    → b < 128
    → acc < 2 ^ (i * 7)
    → acc + b * 2 ^ (i * 7) < u64_mod
    → decode_loop (b ∷ rest) i acc ≡ some (acc + b * 2 ^ (i * 7), i + 1)
unfolding decode_loop
decode_last i acc b rest h a fits =
    ground (arith, low_seven b, top_bit b (omega arith), or_low_high (i * 7) b acc)

decode_inner :
    (i acc g : ℕ) (rest : List ℕ)
    → g < 128
    → acc < 2 ^ (i * 7)
    → acc + g * 2 ^ (i * 7) < u64_mod
    → decode_loop ((g + 128) ∷ rest) i acc ≡ decode_loop rest (i + 1) (acc + g * 2 ^ (i * 7))
unfolding decode_loop
decode_inner i acc g rest h a fits =
    ground (arith, low_seven (g + 128), top_bit (g + 128) (omega arith), or_low_high (i * 7) g acc)

decode_loop-groups :
    (k v i acc : ℕ) (rest : List ℕ)
    → v < 128 ^ suc k
    → acc < 2 ^ (i * 7)
    → acc + v * 2 ^ (i * 7) < u64_mod
    → decode_loop (groups k v ++ rest) i acc ≡ some (acc + v * 2 ^ (i * 7), i + length (groups k v))
unfolding groups
decode_loop-groups zero v i acc rest h a fits = decode_last i acc v rest h a fits
decode_loop-groups (suc k) v i acc rest h a fits = elim (Bool-cases (ltb 127 v)) [
  | inr small ↦ rw small (decode_last i acc v rest (ground arith) a fits)
  | inl large ↦ rw large (
      decode_inner i acc (v % 128) (groups k (v / 128) ++ rest) (omega arith) a
        (omega (arith, group_split v i))
      ∙ decode_loop-groups k (v / 128) (i + 1) (acc + v % 128 * 2 ^ (i * 7)) rest (omega arith)
          (omega (arith, shift_seven i, group_fits v i)) (omega (arith, group_split v i))
      ∙ ground (arith, group_split v i))
]

-- A span of exactly the length of the encoding is filled by it, and by nothing else.
pub encode_varint-groups :
    (v : ℕ) (span : List ℕ)
    → v < 2 ^ 64
    → length span ≡ length (groups 9 v)
    → encode_varint span v ≡ some (groups 9 v, length (groups 9 v))
unfolding encode_varint
encode_varint-groups v span h l = ground (
  arith,
  encode_loop-groups 9 10 v [] span [] (omega arith) (omega arith) l,
  append-nil span,
  append-nil (groups 9 v),
)

-- `decode_varint` reads a 64-bit number back from its encoding, whatever follows.
pub decode_varint-groups :
    (v : ℕ) (rest : List ℕ)
    → v < 2 ^ 64
    → decode_varint (groups 9 v ++ rest) ≡ some (v, length (groups 9 v))
unfolding decode_varint
decode_varint-groups v rest h =
    ground (arith, decode_loop-groups 9 v 0 0 rest (omega arith) (omega arith) (omega arith))
