-- ===== src/Mousedb/KvStore/Find.antt =====
-- `find` after any insertions.
use cs.Prelude.{ℕ, ◌^◌, ◌<◌, ◌≡◌, refl, ◌∙◌, Option, some, List, [], ◌∷◌, ◌++◌, length, arith}
use cs.Prelude.Options.{◌>>=◌}
use cs.Mousedb.KvStore.{zero_sign, compare_keys, get, insert_size, find_loop, find, insert}
use cs.Mousedb.KvStore.Layout.{entry}
use cs.Mousedb.KvStore.RoundTrip.{get-entry, insert_at-entry}
use mathlib.Core.Path.{subst}
use mathlib.Core.List.{append_assoc, append-nil}

abbrev pub Bytes : Type 0
Bytes = List ℕ

-- One insertion: the key, the value, and the block that the arena gives.
pub record Insertion : Type 0 where
  pub key : Bytes
  pub value : Bytes
  pub block : Bytes

abbrev pub Fits : Insertion → Type 0
Fits i =
    (length i.key < 2 ^ 56)
    × (length i.value < 2 ^ 56)
    × (length i.block ≡ insert_size i.key i.value)

abbrev pub AllFit : List Insertion → Type 0
AllFit [] = Unit {0}
AllFit (i ∷ is) = Fits i × AllFit is

pub insert_all : List Bytes → List Insertion → Option (List Bytes)
insert_all nodes [] = some nodes
insert_all nodes (i ∷ is) = insert nodes i.block i.key i.value >>= λ nodes. insert_all nodes is

-- The values inserted under a key, oldest first.
unfoldable pub values_of : Bytes → List Insertion → List Bytes
values_of key [] = []
values_of key (i ∷ is) =
    let rest = values_of key is in
    elim (compare_keys key i.key) [ zero_sign ↦ i.value ∷ rest | _ ↦ rest ]

abbrev entries : List Insertion → List Bytes
entries [] = []
entries (i ∷ is) = entry i.key i.value ∷ entries is

insert_all-entries :
    (nodes : List Bytes) (is : List Insertion)
    → AllFit is
    → insert_all nodes is ≡ some (nodes ++ entries is)
unfolding insert_all insert
insert_all-entries nodes [] h = rw append-nil
insert_all-entries nodes (i ∷ is) ((hk, hv, hb), hs) =
    rw (insert_at-entry i.key i.value i.block (omega arith) (omega arith) hb)
      (insert_all-entries (nodes ++ entry i.key i.value ∷ []) is hs ∙ rw append_assoc refl)

get-entry_alone :
    (key value : Bytes)
    → length key < 2 ^ 56
    → length value < 2 ^ 56
    → get (entry key value) ≡ some (key, value)
get-entry_alone key value hk hv =
    subst (λ m. get m ≡ some (key, value)) (append-nil (entry key value))
      (get-entry key value [] hk hv).0

find_loop-entries :
    (key : Bytes) (is : List Insertion) (values : List Bytes)
    → AllFit is
    → find_loop key (entries is) values ≡ some (values ++ values_of key is)
unfolding find_loop values_of
find_loop-entries key [] values h = rw append-nil
find_loop-entries key (i ∷ is) values ((hk, hv, hb), hs) = ground (
  arith,
  get-entry_alone i.key i.value hk hv,
  find_loop-entries key is values hs,
  find_loop-entries key is (values ++ i.value ∷ []) hs,
  append_assoc values (i.value ∷ []) (values_of key is),
)

-- After any insertions into an empty list, whatever the memory that they are given, `find`
-- returns the values of all entries whose key compares equal, oldest first, and reads no byte
-- outside its entries.
pub find-insert_all :
    (key : Bytes) (is : List Insertion)
    → AllFit is
    → (insert_all [] is >>= λ nodes. find nodes key) ≡ some (values_of key is)
unfolding find
find-insert_all key is h = rw (insert_all-entries [] is h) (find_loop-entries key is [] h)
