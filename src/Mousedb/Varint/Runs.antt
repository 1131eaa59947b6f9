-- ===== src/Mousedb/Varint/Runs.antt =====
-- Runs of the variable-length integers.
use cs.Prelude.{ℕ, ◌≡◌, refl, some, List, [], ◌∷◌, ◌++◌, length, arith}
use cs.Mousedb.Varint.{
  bit_width, get_varint_size, encode_varint, encode_loop, decode_varint, decode_loop,
}
use cs.Mousedb.Varint.Size.{decode-encode}

size_300 : get_varint_size 300 ≡ 2
unfolding get_varint_size bit_width
size_300 = refl

encode_300 : encode_varint (0 ∷ 0 ∷ []) 300 ≡ some (0xac ∷ 2 ∷ [], 2)
unfolding encode_varint encode_loop
encode_300 = refl

decode_300 : decode_varint (0xac ∷ 2 ∷ 77 ∷ []) ≡ some (300, 2)
unfolding decode_varint decode_loop
decode_300 = refl

decode-encode_example :
    (bytes : List ℕ) × (encode_varint (0 ∷ 0 ∷ []) 300 ≡ some (bytes, get_varint_size 300))
    × (length bytes ≡ 2)
    × (decode_varint (bytes ++ 77 ∷ []) ≡ some (300, get_varint_size 300))
unfolding get_varint_size bit_width
decode-encode_example = decode-encode 300 (0 ∷ 0 ∷ []) (77 ∷ []) (omega arith) refl
