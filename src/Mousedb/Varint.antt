-- ===== src/Mousedb/Varint.antt =====
-- The variable-length integers of mousedb/server/lib_database/src/memtable.cpp.
-- A span of bytes is the list of its bytes. `none` is an access outside the span, which C++ leaves
-- undefined; `encode_loop` also returns it when its fuel runs out.
pub mod Groups
pub mod RoundTrip
pub mod Size
mod Runs
use cs.Prelude.{
  ℕ, zero, suc, ◌+◌, ◌-◌, ◌*◌, ◌/◌, ◌%◌, ◌^◌, bit_and, bit_or, ltb, ◌==◌, if◌then◌else◌, Option,
  none, some, List, [], ◌∷◌,
}
use cs.Prelude.Bits.{shl64, shr}
use cs.Prelude.Options.{◌>>=◌}

-- The position of the highest one bit, counted from 1.
unfoldable pub bit_width : ℕ → ℕ → ℕ
bit_width zero x = 0
bit_width (suc bits) x = let rest = bit_width bits (x / 2) in if x == 0 then 0 else suc rest

unfoldable pub countl_zero : ℕ → ℕ
unfolding bit_width
countl_zero x = 64 - bit_width 64 x

unfoldable pub get_varint_size : ℕ → ℕ
unfolding countl_zero
get_varint_size value = let bits = 64 - countl_zero value in if bits == 0 then 1 else (bits + 6) / 7

-- `data[i] = b`
pub store : List ℕ → ℕ → ℕ → Option (List ℕ)
store [] i b = none
store (x ∷ xs) zero b = some (b ∷ xs)
store (x ∷ xs) (suc i) b = store xs i b >>= λ ys. some (x ∷ ys)

-- The rounds left, `data`, `i` and `value`. The result is the span after the call with the number
-- of bytes written.
pub encode_loop : ℕ → List ℕ → ℕ → ℕ → Option (List ℕ × ℕ)
unfolding store
encode_loop zero bytes i value = none
encode_loop (suc fuel) bytes i value =
    let more = store bytes i (bit_or (bit_and value 0x7F) 0x80 % 256) >>= λ stored.
    encode_loop fuel stored (i + 1) (shr value 7) in
    let last = store bytes i (value % 256) >>= λ stored. some (stored, i + 1) in
    if ltb 0x7F value then more else last

-- Ten rounds take 70 bits, more than a `uint64_t` has.
pub encode_varint : List ℕ → ℕ → Option (List ℕ × ℕ)
unfolding encode_loop
encode_varint bytes value = encode_loop 10 bytes 0 value

-- The part of `data` from index `i` on, `i`, and the value so far.
pub decode_loop : List ℕ → ℕ → ℕ → Option (ℕ × ℕ)
decode_loop [] i value = none
decode_loop (b ∷ bytes) i value =
    let value' = bit_or value (shl64 (bit_and b 0x7F) (i * 7)) in
    let more = decode_loop bytes (i + 1) value' in
    if bit_and b 0x80 == 0 then some (value', i + 1) else more

pub decode_varint : List ℕ → Option (ℕ × ℕ)
unfolding decode_loop
decode_varint bytes = decode_loop bytes 0 0
