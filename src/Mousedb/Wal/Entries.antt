-- ===== src/Mousedb/Wal/Entries.antt =====
-- An entry that has been logged is read back.
use cs.Prelude.{
  zero, suc, ℕ, ◌^◌, ◌<◌, ◌≤◌, ◌≡◌, refl, sym, ap, ◌∙◌, ltb, false, some, List, [], ◌∷◌, ◌++◌,
  length, length-append, take, drop, take-append, drop-append, replicate, arith,
}
use cs.Prelude.Bytes.{length-le_bytes, of_le_bytes-le_bytes}
use cs.Mousedb.Wal.{
  word, insert_record, erase_record, fread_word, fread_into, WalState, read_value, read_body,
  read_id, read_type, read_entry, Replayed, reinsert, reerase,
}
use mathlib.Core.List.{append_assoc, append-nil}

-- What is logged for an operation.
unfoldable pub record_of : ℕ → Replayed → List ℕ
record_of oid (reinsert key value) = insert_record oid key value
record_of oid (reerase key) = erase_record oid key

-- The sizes fit a `size_t`.
abbrev pub Fits : Replayed → Type 0
Fits (reinsert key value) = (length key < 2 ^ 64) × (length value < 2 ^ 64)
Fits (reerase key) = length key < 2 ^ 64

-- The state of a log whose next entry is this one.
unfoldable pub wal_of : ℕ → Replayed → List ℕ → WalState
wal_of oid (reinsert key value) rest = record {
  ot = 0;
  oid = oid;
  key = key;
  value = value;
  rest = rest;
}
wal_of oid (reerase key) rest = record { ot = 1; oid = oid; key = key; value = []; rest = rest }

fread_word-word :
    (n : ℕ) (rest : List ℕ) → n < 2 ^ 64 → fread_word (word n ++ rest) ≡ some (n, rest)
unfolding fread_word
fread_word-word n rest h =
    let eight = length-le_bytes 8 n in
    let enough : ltb (length (word n ++ rest)) 8 ≡ false =
      ground (arith, length-append (word n) rest, eight) in
    let front : take 8 (word n ++ rest) ≡ word n =
      ap (λ (k : ℕ). take k (word n ++ rest)) (sym eight) ∙ take-append (word n) rest in
    let back : drop 8 (word n ++ rest) ≡ rest =
      ap (λ (k : ℕ). drop k (word n ++ rest)) (sym eight) ∙ drop-append (word n) rest in
    rw (enough, front, back, of_le_bytes-le_bytes 8 n h) refl

drop-length : (xs ys : List ℕ) → length ys ≤ length xs → drop (length xs) ys ≡ []
drop-length [] [] h = refl
drop-length [] (y ∷ ys) h = absurd (omega arith)
drop-length (x ∷ xs) [] h = refl
drop-length (x ∷ xs) (y ∷ ys) h = drop-length xs ys (omega arith)

length-take_le : (n : ℕ) (xs : List ℕ) → length (take n xs) ≤ n
length-take_le zero xs = omega arith
length-take_le (suc n) [] = omega arith
length-take_le (suc n) (x ∷ xs) = omega (arith, length-take_le n xs)

-- A whole vector is read whatever it held.
fread_into-append :
    (old bytes rest : List ℕ) → fread_into old (length bytes) (bytes ++ rest) ≡ (bytes, rest)
unfolding fread_into
fread_into-append old bytes rest =
    let left = take (length bytes) (old ++ replicate (length bytes) 0) in
    rw
      (
        take-append bytes rest,
        drop-append bytes rest,
        drop-length bytes left (length-take_le (length bytes) (old ++ replicate (length bytes) 0)),
        append-nil bytes,
      )
      refl

-- A logged operation is read back with its id, whatever the vectors held before.
pub read_entry-record_of :
    (oid : ℕ) (op : Replayed) (old_key old_value rest : List ℕ)
    → oid < 2 ^ 64
    → Fits op
    → read_entry old_key old_value (record_of oid op ++ rest) ≡ some (some (wal_of oid op rest))
unfolding read_entry read_type read_id read_body read_value record_of wal_of insert_record
    erase_record
read_entry-record_of oid (reinsert key value) old_key old_value rest o (hk, hv) =
    let after_value = value ++ rest in
    let after_key = key ++ (word (length value) ++ after_value) in
    let right : insert_record oid key value ++ rest
        ≡ word 0 ++ (word oid ++ (word (length key) ++ after_key)) =
      simp append_assoc refl in
    rw
      (
        right,
        fread_word-word 0 (word oid ++ (word (length key) ++ after_key)) (omega arith),
        fread_word-word oid (word (length key) ++ after_key) o,
        fread_word-word (length key) after_key hk,
        fread_into-append old_key key (word (length value) ++ after_value),
        fread_word-word (length value) after_value hv,
        fread_into-append old_value value rest,
      )
      refl
read_entry-record_of oid (reerase key) old_key old_value rest o hk =
    let right : erase_record oid key ++ rest
        ≡ word 1 ++ (word oid ++ (word (length key) ++ (key ++ rest))) =
      simp append_assoc refl in
    rw
      (
        right,
        fread_word-word 1 (word oid ++ (word (length key) ++ (key ++ rest))) (omega arith),
        fread_word-word oid (word (length key) ++ (key ++ rest)) o,
        fread_word-word (length key) (key ++ rest) hk,
        fread_into-append old_key key rest,
      )
      refl
