-- ===== src/Mousedb/KvStore/Layout.antt =====
-- The layout `[key_size, key, value_size, value]` of an entry.
use cs.Prelude.{
  ℕ, zero, suc, ◌+◌, ◌^◌, ◌<◌, ◌≡◌, refl, sym, ap, ◌∙◌, some, List, [], ◌∷◌, ◌++◌, length, take,
  drop, length-append, take-append, drop-append, arith,
}
use cs.Mousedb.Varint.{get_varint_size}
use cs.Mousedb.Varint.Groups.{groups}
use cs.Mousedb.Varint.RoundTrip.{encode_varint-groups}
use cs.Mousedb.Varint.Size.{get_varint_size-groups}
use cs.Mousedb.KvStore.{slice, memcpy_at, encode_at}
use mathlib.Core.List.{append_assoc}

pub slice-append :
    (front mid back : List ℕ) (offset size : ℕ)
    → offset ≡ length front
    → size ≡ length mid
    → slice (front ++ (mid ++ back)) offset size ≡ some mid
unfolding slice
slice-append [] [] back zero zero e f = refl
slice-append [] (b ∷ mid) back zero (suc size) e f =
    rw (slice-append [] mid back zero size refl (omega arith))
slice-append (x ∷ front) mid back (suc offset) size e f =
    slice-append front mid back offset size (omega arith) f
slice-append [] [] back zero (suc size) e f = absurd (omega arith)
slice-append [] (b ∷ mid) back zero zero e f = absurd (omega arith)
slice-append [] mid back (suc offset) size e f = absurd (omega arith)
slice-append (x ∷ front) mid back zero size e f = absurd (omega arith)

pub memcpy_at-append :
    (front old back bytes : List ℕ) (offset : ℕ)
    → offset ≡ length front
    → length old ≡ length bytes
    → memcpy_at (front ++ (old ++ back)) offset bytes ≡ some (front ++ (bytes ++ back))
unfolding memcpy_at
memcpy_at-append [] [] [] [] zero e f = refl
memcpy_at-append [] [] (y ∷ back) [] zero e f = refl
memcpy_at-append [] (o ∷ old) back (b ∷ bytes) zero e f =
    rw (memcpy_at-append [] old back bytes zero refl (omega arith))
memcpy_at-append (x ∷ front) old back bytes (suc offset) e f =
    rw (memcpy_at-append front old back bytes offset (omega arith) f)
memcpy_at-append [] [] back (b ∷ bytes) zero e f = absurd (omega arith)
memcpy_at-append [] (o ∷ old) back [] zero e f = absurd (omega arith)
memcpy_at-append [] old back bytes (suc offset) e f = absurd (omega arith)
memcpy_at-append (x ∷ front) old back bytes zero e f = absurd (omega arith)

pub encode_at-append :
    (front old back : List ℕ) (offset v : ℕ)
    → v < 2 ^ 64
    → offset ≡ length front
    → length old ≡ get_varint_size v
    → encode_at (front ++ (old ++ back)) offset (get_varint_size v) v
      ≡ some (front ++ (groups 9 v ++ back))
unfolding encode_at
encode_at-append front old back offset v h e f = ground (
  arith,
  slice-append front old back offset (get_varint_size v) e (sym f),
  encode_varint-groups v old h (f ∙ get_varint_size-groups v h),
  e,
  ap (λ (k : ℕ). take k (front ++ (old ++ back))) e ∙ take-append front (old ++ back),
  behind,
)
  where
    behind : drop (offset + get_varint_size v) (front ++ (old ++ back)) ≡ back
    behind =
        ap (λ (k : ℕ). drop k (front ++ (old ++ back))) (omega (arith, length-append front old))
        ∙ ap (drop (length (front ++ old))) (sym (append_assoc front old back))
        ∙ drop-append (front ++ old) back

-- What `insert` leaves in memory.
unfoldable pub entry : List ℕ → List ℕ → List ℕ
entry key value = groups 9 (length key) ++ (key ++ (groups 9 (length value) ++ value))
