-- ===== src/Mousedb/Varint/Size.antt =====
-- `get_varint_size` is the length of the encoding.
use cs.Prelude.{
  ℕ, zero, suc, ◌+◌, ◌*◌, ◌/◌, ◌^◌, ◌≤◌, ◌<◌, ◌≡◌, ◌==◌, if◌then◌else◌, length, List, ◌++◌, some,
  sym, ◌∙◌, arith,
}
use cs.Mousedb.Varint.{bit_width, get_varint_size, encode_varint, decode_varint}
use cs.Mousedb.Varint.RoundTrip.{encode_varint-groups, decode_varint-groups}
use cs.Mousedb.Varint.Groups.{groups}
use native.Mathlib.Nat.{pow-suc}

bit_width_le : (bits m x : ℕ) → x < 2 ^ m → bit_width bits x ≤ m
unfolding bit_width
bit_width_le zero m x h = omega arith
bit_width_le (suc bits) zero x h = ground arith
bit_width_le (suc bits) (suc m) x h =
    ground (arith, bit_width_le bits m (x / 2) (omega (arith, pow-suc 2 m)))

bit_width_pos : (bits x : ℕ) → 0 < bits → 0 < x → 1 ≤ bit_width bits x
unfolding bit_width
bit_width_pos zero x h p = absurd (omega arith)
bit_width_pos (suc bits) x h p = ground arith

-- 1, 8, 15, …, 64: one bit and `k` groups.
abbrev bits_of : ℕ → ℕ
bits_of zero = 1
bits_of (suc k) = suc (suc (suc (suc (suc (suc (suc (bits_of k)))))))

bits_of_pos : (k : ℕ) → 0 < bits_of k
bits_of_pos zero = omega arith
bits_of_pos (suc k) = omega arith

bit_width_group :
    (bits x : ℕ)
    → 128 ≤ x
    → bit_width (suc (suc (suc (suc (suc (suc (suc bits))))))) x ≡ 7 + bit_width bits (x / 128)
unfolding bit_width
bit_width_group bits x h =
    let e : x / 2 / 2 / 2 / 2 / 2 / 2 / 2 ≡ x / 128 = omega arith in ground (arith, e)

bytes_for : ℕ → ℕ
bytes_for bits = if bits == 0 then 1 else (bits + 6) / 7

bytes_for-groups :
    (k v : ℕ) → v < 2 * 128 ^ k → bytes_for (bit_width (bits_of k) v) ≡ length (groups k v)
unfolding bytes_for groups
bytes_for-groups zero v h = ground (arith, bit_width_le 1 1 v (omega arith))
bytes_for-groups (suc k) v h = ground (
  arith,
  bit_width_group (bits_of k) v,
  bit_width_le (bits_of (suc k)) 7 v,
  bit_width_pos (bits_of k) (v / 128) (bits_of_pos k),
  bytes_for-groups k (v / 128) (omega (arith, pow-suc 128 k)),
)

pub get_varint_size-groups : (v : ℕ) → v < 2 ^ 64 → get_varint_size v ≡ length (groups 9 v)
unfolding get_varint_size bytes_for
get_varint_size-groups v h =
    ground (arith, bytes_for-groups 9 v (omega arith), bit_width_le 64 64 v h)

-- A 64-bit value encoded into a span of `get_varint_size` bytes fills the span, and
-- `decode_varint` reads value and size back, whatever bytes follow.
pub decode-encode :
    (v : ℕ) (span rest : List ℕ)
    → v < 2 ^ 64
    → length span ≡ get_varint_size v
    → (bytes : List ℕ) × (encode_varint span v ≡ some (bytes, get_varint_size v))
      × (length bytes ≡ length span)
      × (decode_varint (bytes ++ rest) ≡ some (v, get_varint_size v))
decode-encode v span rest h l =
    let size = get_varint_size-groups v h in
    (
      groups 9 v,
      rw size (encode_varint-groups v span h (l ∙ size)),
      sym (l ∙ size),
      rw size (decode_varint-groups v rest h),
    )
