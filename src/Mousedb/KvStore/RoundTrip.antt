-- ===== src/Mousedb/KvStore/RoundTrip.antt =====
-- What `insert` stores, `get` reads back.
use cs.Prelude.{
  ℕ, ◌+◌, ◌-◌, ◌^◌, ◌<◌, ◌≡◌, refl, sym, ap, ◌∙◌, some, List, [], ◌++◌, length, cut, take, drop,
  length-append, drop-append, take-append_le, arith,
}
use cs.Mousedb.Varint.{get_varint_size}
use cs.Mousedb.Varint.Groups.{groups, length-groups_lt}
use cs.Mousedb.Varint.RoundTrip.{decode_varint-groups}
use cs.Mousedb.Varint.Size.{get_varint_size-groups}
use cs.Mousedb.KvStore.{
  slice, decode_at, get, get_key, get_value, get_size, insert_size, insert_at, encode_at, memcpy_at,
}
use cs.Mousedb.KvStore.Layout.{entry, slice-append, memcpy_at-append, encode_at-append}
use mathlib.Core.List.{append_assoc, append-nil}

-- A block cut into the four parts that the call overwrites.
insert_parts :
    (key value o p q r : List ℕ)
    → length key < 2 ^ 64
    → length value < 2 ^ 64
    → length o ≡ get_varint_size (length key)
    → length p ≡ length key
    → length q ≡ get_varint_size (length value)
    → length r ≡ length value
    → insert_at (o ++ (p ++ (q ++ r))) key value ≡ some (entry key value)
unfolding insert_at entry
insert_parts key value o p q r hk hv eo ep eq er = ground (
  arith,
  encode_at-append [] o (p ++ (q ++ r)) 0 (length key) hk refl eo,
  memcpy_at-append k p (q ++ r) key (get_varint_size (length key)) size_k ep,
  second,
  third,
)
  where
    k : List ℕ
    k = groups 9 (length key)

    v : List ℕ
    v = groups 9 (length value)

    size_k : get_varint_size (length key) ≡ length k
    size_k = get_varint_size-groups (length key) hk

    size_v : get_varint_size (length value) ≡ length v
    size_v = get_varint_size-groups (length value) hv

    at_value : ℕ
    at_value = get_varint_size (length key) + length key

    regroup : (x y z : List ℕ) → x ++ (y ++ z) ≡ (x ++ y) ++ z
    regroup x y z = sym (append_assoc x y z)

    second :
        encode_at (k ++ (key ++ (q ++ r))) at_value (get_varint_size (length value)) (length value)
        ≡ some (k ++ (key ++ (v ++ r)))
    second =
        ap (λ m. encode_at m at_value (get_varint_size (length value)) (length value))
          (regroup k key (q ++ r))
        ∙ encode_at-append (k ++ key) q r at_value (length value) hv
            (omega (arith, length-append k key, size_k)) eq
        ∙ ap some (append_assoc k key (v ++ r))

    whole : (z : List ℕ) → k ++ (key ++ (v ++ z)) ≡ ((k ++ key) ++ v) ++ (z ++ [])
    whole z = rw append-nil (regroup k key (v ++ z) ∙ regroup (k ++ key) v z)

    third :
        memcpy_at (k ++ (key ++ (v ++ r))) (at_value + get_varint_size (length value)) value
        ≡ some (k ++ (key ++ (v ++ value)))
    third =
        ap (λ m. memcpy_at m (at_value + get_varint_size (length value)) value) (whole r)
        ∙ memcpy_at-append ((k ++ key) ++ v) r [] value (at_value + get_varint_size (length value))
            (omega (arith, length-append k key, length-append (k ++ key) v, size_k, size_v)) er
        ∙ ap some (sym (whole value))

decode_at-append :
    (front back : List ℕ) (offset v : ℕ)
    → v < 2 ^ 56
    → offset ≡ length front
    → decode_at (front ++ (groups 9 v ++ back)) offset ≡ some (v, length (groups 9 v))
unfolding decode_at
decode_at-append front back offset v h e = ground (
  arith,
  ap (λ (k : ℕ). drop k (front ++ (groups 9 v ++ back))) e ∙ drop-append front (groups 9 v ++ back),
  take-append_le 8 (groups 9 v) back (length-groups_lt 9 7 v (omega arith)),
  decode_varint-groups v (take (8 - length (groups 9 v)) back) (omega arith),
)

module _ (key value rest : List ℕ) where
  entry_parts :
      entry key value ++ rest
      ≡ groups 9 (length key) ++ (key ++ (groups 9 (length value) ++ (value ++ rest)))
  unfolding entry
  entry_parts =
      append_assoc k _ rest
      ∙ ap (◌++◌ k) (append_assoc key _ rest ∙ ap (◌++◌ key) (append_assoc v value rest))
    where
      k : List ℕ
      k = groups 9 (length key)

      v : List ℕ
      v = groups 9 (length value)

  module _ (hk : length key < 2 ^ 56) (hv : length value < 2 ^ 56) where
    decode_key :
        decode_at (entry key value ++ rest) 0 ≡ some (length key, length (groups 9 (length key)))
    decode_key = rw entry_parts (decode_at-append [] _ 0 (length key) hk refl)

    slice_key :
        slice (entry key value ++ rest) (length (groups 9 (length key))) (length key) ≡ some key
    slice_key = rw entry_parts (slice-append (groups 9 (length key)) key _ _ _ refl refl)

    decode_value :
        decode_at (entry key value ++ rest) (length (groups 9 (length key)) + length key)
        ≡ some (length value, length (groups 9 (length value)))
    decode_value =
        rw (entry_parts, ← append_assoc k key (v ++ (value ++ rest)))
          (decode_at-append (k ++ key) (value ++ rest) _ (length value) hv
            (sym (length-append k key)))
      where
        k : List ℕ
        k = groups 9 (length key)

        v : List ℕ
        v = groups 9 (length value)

    slice_value :
        slice
          (entry key value ++ rest)
          (length (groups 9 (length key)) + length key + length (groups 9 (length value)))
          (length value)
        ≡ some value
    slice_value =
        rw
          (
            entry_parts,
            ← append_assoc k key (v ++ (value ++ rest)),
            ← append_assoc (k ++ key) v (value ++ rest),
          )
          (slice-append ((k ++ key) ++ v) value rest _ _
            (omega (arith, length-append k key, length-append (k ++ key) v)) refl)
      where
        k : List ℕ
        k = groups 9 (length key)

        v : List ℕ
        v = groups 9 (length value)

    -- From the memory that starts with an entry, `get` reads its key and its value, `get_key` and
    -- `get_value` one of them, and `get_size` the size that `insert` had asked for. Sizes below
    -- 2 ^ 56 take at most the 8 bytes that a decoding is given.
    pub get-entry :
        (get (entry key value ++ rest) ≡ some (key, value))
        × (get_key (entry key value ++ rest) ≡ some key)
        × (get_value (entry key value ++ rest) ≡ some value)
        × (get_size (entry key value ++ rest) ≡ some (insert_size key value))
    unfolding get get_key get_value get_size insert_size
    get-entry = (
      ground (arith, decode_key, slice_key, decode_value, slice_value),
      ground (arith, decode_key, slice_key),
      ground (arith, decode_key, decode_value, slice_value),
      ground (
        arith,
        decode_key,
        decode_value,
        get_varint_size-groups (length key) (omega arith),
        get_varint_size-groups (length value) (omega arith),
      ),
    )

-- A block of the size that `insert` asked the arena for is filled by the entry: no write falls
-- outside it and no byte of it keeps its old content.
pub insert_at-entry :
    (key value block : List ℕ)
    → length key < 2 ^ 64
    → length value < 2 ^ 64
    → length block ≡ insert_size key value
    → insert_at block key value ≡ some (entry key value)
unfolding insert_size
insert_at-entry key value block hk hv e =
    let size_k = get_varint_size (length key) in
    let size_v = get_varint_size (length value) in
    let (o, after_o, eo, lo, ro) =
      cut size_k (length key + (size_v + length value)) block (omega arith) in
    let (p, after_p, ep, lp, rp) = cut (length key) (size_v + length value) after_o ro in
    let (q, r, eq, lq, lr) = cut size_v (length value) after_p rp in
    rw (eo, ep, eq) (insert_parts key value o p q r hk hv lo lp lq lr)
