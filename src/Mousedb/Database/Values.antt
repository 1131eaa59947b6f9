-- ===== src/Mousedb/Database/Values.antt =====
-- The values that `internal_find` looks at are those stored under the key.
use cs.Prelude.{ℕ, ◌≡◌, ◌≢◌, refl, sym, ap, ◌∙◌, ◌⊎◌, inl, inr, List, [], ◌∷◌, ◌++◌}
use cs.Prelude.Members.{OneOf, OneOf-left, OneOf-right, OneOf-append}
use cs.Mousedb.KvStore.{Sign, negative, zero_sign, positive, compare_keys}
use cs.Mousedb.KvStore.Compare.{compare_keys_order}
use cs.Mousedb.Database.{Pair, MemTable, memtable_find, Database, tables_find, queue_find}
use cs.Mousedb.Database.Contents.{all_pairs, stored}

-- A value that is found is that of a pair with the key.
abbrev pub PairIn : List ℕ → List ℕ → MemTable → Type 0
PairIn key value pairs = (p : Pair) × OneOf p pairs × (p.key ≡ key) × (p.value ≡ value)

compare_keys-eq : (a b : List ℕ) → compare_keys a b ≡ zero_sign → a ≡ b
compare_keys-eq a b e = (compare_keys_order a b []).0.0 e

compare_keys_refl : (a : List ℕ) → compare_keys a a ≡ zero_sign
compare_keys_refl a = (compare_keys_order a a []).0.1 refl

PairIn-weaken :
    (key value : List ℕ) (p : Pair) (pairs : MemTable)
    → PairIn key value pairs
    → PairIn key value (p ∷ pairs)
PairIn-weaken key value p pairs (q, m, k, v) = (q, inr m, k, v)

memtable_find-PairIn :
    (key value : List ℕ) (pairs : MemTable)
    → OneOf value (memtable_find key pairs)
    → PairIn key value pairs
unfolding memtable_find
memtable_find-PairIn key value [] m = absurd m
memtable_find-PairIn key value (p ∷ pairs) m =
    from (compare_keys key p.key) refl (memtable_find-PairIn key value pairs) m
  where
    from :
        (s : Sign)
        → compare_keys key p.key ≡ s
        → (OneOf value (memtable_find key pairs) → PairIn key value pairs)
        → OneOf value
            (elim s [ zero_sign ↦ p.value ∷ memtable_find key pairs | _ ↦ memtable_find key pairs ])
        → PairIn key value (p ∷ pairs)
    from zero_sign e ih (inl same) = (p, inl refl, sym (compare_keys-eq key p.key e), sym same)
    from zero_sign e ih (inr m) = PairIn-weaken key value p pairs (ih m)
    from negative e ih m = PairIn-weaken key value p pairs (ih m)
    from positive e ih m = PairIn-weaken key value p pairs (ih m)

PairIn-memtable_find :
    (p : Pair) (pairs : MemTable) → OneOf p pairs → OneOf p.value (memtable_find p.key pairs)
unfolding memtable_find
PairIn-memtable_find p [] m = absurd m
PairIn-memtable_find p (q ∷ pairs) m =
    here (compare_keys p.key q.key) refl m (PairIn-memtable_find p pairs)
  where
    apart : (s : Sign) → compare_keys p.key q.key ≡ s → s ≢ zero_sign → p ≢ q
    apart s e n same =
        n (sym e ∙ ap (λ (r : Pair). compare_keys p.key r.key) (sym same) ∙ compare_keys_refl p.key)

    here :
        (s : Sign)
        → compare_keys p.key q.key ≡ s
        → (p ≡ q) ⊎ OneOf p pairs
        → (OneOf p pairs → OneOf p.value (memtable_find p.key pairs))
        → OneOf p.value (elim s [
          | zero_sign ↦ q.value ∷ memtable_find p.key pairs
          | _ ↦ memtable_find p.key pairs
        ])
    here zero_sign e (inl same) ih = inl (ap (λ (r : Pair). r.value) same)
    here zero_sign e (inr m) ih = inr (ih m)
    here negative e (inl same) ih = absurd (apart negative e (λ x. cc) same)
    here negative e (inr m) ih = ih m
    here positive e (inl same) ih = absurd (apart positive e (λ x. cc) same)
    here positive e (inr m) ih = ih m

tables_find-PairIn :
    (key value : List ℕ) (tables : List MemTable)
    → OneOf value (tables_find key tables)
    → PairIn key value (all_pairs tables)
unfolding tables_find
tables_find-PairIn key value [] m = absurd m
tables_find-PairIn key value (t ∷ tables) m =
    elim (OneOf-append value (tables_find key tables) (memtable_find key t) m) [
      | inl l ↦
          let (p, n, k, v) = tables_find-PairIn key value tables l in
          (p, OneOf-right p t (all_pairs tables) n, k, v)
      | inr r ↦
          let (p, n, k, v) = memtable_find-PairIn key value t r in
          (p, OneOf-left p t (all_pairs tables) n, k, v)
    ]

PairIn-tables_find :
    (p : Pair) (tables : List MemTable)
    → OneOf p (all_pairs tables)
    → OneOf p.value (tables_find p.key tables)
unfolding tables_find
PairIn-tables_find p [] m = absurd m
PairIn-tables_find p (t ∷ tables) m = elim (OneOf-append p t (all_pairs tables) m) [
  | inl l ↦
      OneOf-right p.value (tables_find p.key tables) (memtable_find p.key t)
        (PairIn-memtable_find p t l)
  | inr r ↦
      OneOf-left p.value (tables_find p.key tables) (memtable_find p.key t)
        (PairIn-tables_find p tables r)
]

-- All values that `internal_find` looks at.
abbrev pub values : List ℕ → Database → List (List ℕ)
values key db = memtable_find key db.memtable ++ queue_find key db

pub values-PairIn :
    (key value : List ℕ) (db : Database)
    → OneOf value (values key db)
    → PairIn key value (stored db)
unfolding queue_find
values-PairIn key value db m =
    let q = all_pairs db.queue in
    let w = all_pairs db.working in
    elim (OneOf-append value (memtable_find key db.memtable) (queue_find key db) m) [
      | inl l ↦
          let (p, n, k, v) = memtable_find-PairIn key value db.memtable l in
          (p, OneOf-left p db.memtable (q ++ w) n, k, v)
      | inr r ↦
          elim (OneOf-append value (tables_find key db.queue) (tables_find key db.working) r) [
            | inl queued ↦
                let (p, n, k, v) = tables_find-PairIn key value db.queue queued in
                (p, OneOf-right p db.memtable (q ++ w) (OneOf-left p q w n), k, v)
            | inr worked ↦
                let (p, n, k, v) = tables_find-PairIn key value db.working worked in
                (p, OneOf-right p db.memtable (q ++ w) (OneOf-right p q w n), k, v)
          ]
    ]

pub PairIn-values :
    (p : Pair) (db : Database) → OneOf p (stored db) → OneOf p.value (values p.key db)
unfolding queue_find
PairIn-values p db m =
    let q = tables_find p.key db.queue in
    let w = tables_find p.key db.working in
    let t = memtable_find p.key db.memtable in
    elim (OneOf-append p db.memtable (all_pairs db.queue ++ all_pairs db.working) m) [
      | inl l ↦ OneOf-left p.value t (q ++ w) (PairIn-memtable_find p db.memtable l)
      | inr r ↦
          OneOf-right p.value t (q ++ w)
            (elim (OneOf-append p (all_pairs db.queue) (all_pairs db.working) r) [
              | inl queued ↦ OneOf-left p.value q w (PairIn-tables_find p db.queue queued)
              | inr worked ↦ OneOf-right p.value q w (PairIn-tables_find p db.working worked)
            ])
    ]
