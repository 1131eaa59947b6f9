-- ===== src/Mousedb/Database/Latest.antt =====
-- `internal_find` returns the last write.
use cs.Prelude.{
  ℕ, ◌^◌, ◌<◌, ◌≡◌, ◌≢◌, refl, sym, ap, ◌∙◌, ltb, leb, true, false, Bool-cases, ◌⊎◌, inl, inr,
  Option, none, some, List, [], ◌∷◌, ◌++◌, map, length, length-append, take, drop, take-append,
  drop-append, arith,
}
use cs.Prelude.Options.{◌>>=◌}
use cs.Prelude.Bytes.{le_bytes, length-le_bytes, of_le_bytes-le_bytes}
use cs.Prelude.Members.{OneOf, OneOf-right, OneOf-append, OneOf-map, map-OneOf}
use cs.Mousedb.Hlc.{Hlc, less}
use cs.Mousedb.Hlc.Order.{less_irrefl, less_trans}
use cs.Mousedb.Hlc.Lww.{lww_select, AllBelow, NoneAbove, IsLast, lww_select-IsLast}
use cs.Mousedb.Database.{
  Pair, Database, clock_bytes, stamped, erase_size, clock_of, Item, clock_of_item, items_of,
  without_clock, newest, internal_find,
}
use cs.Mousedb.Database.Contents.{stored, Write, pair_of, Step, run, writes_of, run-Same}
use cs.Mousedb.Database.Values.{values, values-PairIn, PairIn-values}
use mathlib.Core.Path.{subst}
use mathlib.Core.List.{append_assoc}

-- The fields of a clock have the width of their C++ types.
abbrev pub InWidth : Hlc → Type 0
InWidth c = (c.physical_us < 2 ^ 64) × (c.logical < 2 ^ 16) × (c.node_id < 2 ^ 32)

length-clock_bytes : (c : Hlc) → length (clock_bytes c) ≡ erase_size
unfolding clock_bytes
length-clock_bytes c = omega (
  arith,
  length-append (le_bytes 8 c.physical_us) (le_bytes 2 c.logical ++ le_bytes 4 c.node_id),
  length-append (le_bytes 2 c.logical) (le_bytes 4 c.node_id),
  length-le_bytes 8 c.physical_us,
  length-le_bytes 2 c.logical,
  length-le_bytes 4 c.node_id,
)

take-prefix : (n : ℕ) (xs ys : List ℕ) → length xs ≡ n → take n (xs ++ ys) ≡ xs
take-prefix n xs ys e = ap (λ (k : ℕ). take k (xs ++ ys)) (sym e) ∙ take-append xs ys

drop-prefix : (n : ℕ) (xs ys : List ℕ) → length xs ≡ n → drop n (xs ++ ys) ≡ ys
drop-prefix n xs ys e = ap (λ (k : ℕ). drop k (xs ++ ys)) (sym e) ∙ drop-append xs ys

clock_of-stamped : (c : Hlc) (value : List ℕ) → InWidth c → clock_of (stamped c value) ≡ some c
unfolding clock_of stamped clock_bytes
clock_of-stamped c value (p, l, i) =
    let bp = le_bytes 8 c.physical_us in
    let bl = le_bytes 2 c.logical in
    let bi = le_bytes 4 c.node_id in
    let all = (bp ++ (bl ++ bi)) ++ value in
    let enough : ltb (length all) 14 ≡ false = ground (
      arith,
      length-append (bp ++ (bl ++ bi)) value,
      length-append bp (bl ++ bi),
      length-append bl bi,
      length-le_bytes 8 c.physical_us,
      length-le_bytes 2 c.logical,
      length-le_bytes 4 c.node_id,
    ) in
    let e₁ : all ≡ bp ++ (bl ++ (bi ++ value)) = simp append_assoc refl in
    let e₂ : all ≡ (bp ++ bl) ++ (bi ++ value) = simp append_assoc refl in
    let phys : take 8 all ≡ bp =
      ap (take 8) e₁ ∙ take-prefix 8 bp (bl ++ (bi ++ value)) (length-le_bytes 8 c.physical_us) in
    let log : take 2 (drop 8 all) ≡ bl =
      ap (λ (k : List ℕ). take 2 (drop 8 k)) e₁
      ∙ ap (take 2) (drop-prefix 8 bp (bl ++ (bi ++ value)) (length-le_bytes 8 c.physical_us))
      ∙ take-prefix 2 bl (bi ++ value) (length-le_bytes 2 c.logical) in
    let id : take 4 (drop 10 all) ≡ bi =
      ap (λ (k : List ℕ). take 4 (drop 10 k)) e₂
      ∙ ap (take 4) (
          drop-prefix 10 (bp ++ bl) (bi ++ value) (
            omega (
              arith,
              length-append bp bl,
              length-le_bytes 8 c.physical_us,
              length-le_bytes 2 c.logical,
            )))
      ∙ take-prefix 4 bi value (length-le_bytes 4 c.node_id) in
    rw
      (
        enough,
        phys,
        log,
        id,
        of_le_bytes-le_bytes 8 c.physical_us (omega arith),
        of_le_bytes-le_bytes 2 c.logical (omega arith),
        of_le_bytes-le_bytes 4 c.node_id (omega arith),
      )
      refl

-- Values that are behind their clock.
abbrev Stamped : List ℕ → Type 0
Stamped value = (c : Hlc) × (clock_of value ≡ some c)

abbrev Clocked : List Item → Type 0
Clocked items = (i : Item) → OneOf i items → clock_of i.value ≡ some i.clock

items_of-Clocked :
    (vs : List (List ℕ))
    → ((v : List ℕ) → OneOf v vs → Stamped v)
    → (items : List Item) × (items_of vs ≡ some items)
      × (map (λ (i : Item). i.value) items ≡ vs)
      × Clocked items
unfolding items_of
items_of-Clocked [] h = ([], refl, refl, (λ i m. absurd m))
items_of-Clocked (v ∷ vs) h =
    let (c, e) = h v (inl refl) in
    let (items, f, g, k) = items_of-Clocked vs (λ w m. h w (inr m)) in
    let item : Item = record { value = v; clock = c } in
    (item ∷ items, rw (e, f) refl, ap (◌∷◌ v) g, clocked v c e items k)
  where
    clocked :
        (v : List ℕ) (c : Hlc)
        → clock_of v ≡ some c
        → (items : List Item) → Clocked items
        → Clocked (record { value = v; clock = c } ∷ items)
    clocked v c e items k i (inl same) =
        subst (λ (j : Item). clock_of j.value ≡ some j.clock) (sym same) e
    clocked v c e items k i (inr m) = k i m

-- None of these elements is later.
abbrev NoneLater : Hlc → List Item → Type 0
NoneLater c items = (i : Item) → OneOf i items → less c i.clock ≡ false

less_asym : (a b : Hlc) → less a b ≡ true → less b a ≡ false
less_asym a b h = elim (Bool-cases (less b a)) [
  | inl back ↦ absurd (ground (arith, less_irrefl a, less_trans a b a h back))
  | inr fine ↦ fine
]

AllBelow-NoneLater :
    (c : Hlc) (items : List Item) → AllBelow clock_of_item c items → NoneLater c items
AllBelow-NoneLater c [] h i m = absurd m
AllBelow-NoneLater c (x ∷ items) (a, h) i (inl e) =
    subst (λ (j : Item). less c j.clock ≡ false) (sym e) (less_asym x.clock c a)
AllBelow-NoneLater c (x ∷ items) (a, h) i (inr m) = AllBelow-NoneLater c items h i m

NoneAbove-NoneLater :
    (c : Hlc) (items : List Item) → NoneAbove clock_of_item c items → NoneLater c items
NoneAbove-NoneLater c [] h i m = absurd m
NoneAbove-NoneLater c (x ∷ items) (a, h) i (inl e) =
    subst (λ (j : Item). less c j.clock ≡ false) (sym e) a
NoneAbove-NoneLater c (x ∷ items) (a, h) i (inr m) = NoneAbove-NoneLater c items h i m

IsLast-NoneLater :
    (best : Item) (items : List Item)
    → IsLast clock_of_item best items
    → OneOf best items × NoneLater best.clock items
IsLast-NoneLater best items (before, after, e, below, above) = (
  subst (OneOf best) (sym e) (OneOf-right best before (best ∷ after) (inl refl)),
  λ i m. elim (OneOf-append i before (best ∷ after) (subst (OneOf i) e m)) [
    | inl l ↦ AllBelow-NoneLater best.clock before below i l
    | inr r ↦ rest i r
  ],
)
  where
    rest : (i : Item) → (i ≡ best) ⊎ OneOf i after → less best.clock i.clock ≡ false
    rest i (inl same) =
        subst (λ (j : Item). less best.clock j.clock ≡ false) (sym same) (less_irrefl best.clock)
    rest i (inr m) = NoneAbove-NoneLater best.clock after above i m

-- The value chosen of some values that are behind their clocks.
abbrev Chosen : List (List ℕ) → Item → Type 0
Chosen vs best =
    OneOf best.value vs
    × (clock_of best.value ≡ some best.clock)
    × ((v : List ℕ) (c : Hlc) → OneOf v vs → clock_of v ≡ some c → less best.clock c ≡ false)

newest-Chosen :
    (v : List ℕ) (vs : List (List ℕ))
    → ((u : List ℕ) → OneOf u (v ∷ vs) → Stamped u)
    → (best : Item) × (newest (v ∷ vs) ≡ some (without_clock (some best))) × Chosen (v ∷ vs) best
unfolding newest
newest-Chosen v vs h = from (items_of-Clocked (v ∷ vs) h)
  where
    latest :
        (items : List Item) (best : Item) (ws : List (List ℕ))
        → map (λ (i : Item). i.value) items ≡ ws
        → Clocked items
        → NoneLater best.clock items
        → (u : List ℕ) (c : Hlc) → OneOf u ws
        → clock_of u ≡ some c
        → less best.clock c ≡ false
    latest items best ws e k n u c m f =
        let (i, o, same) = OneOf-map (λ (i : Item). i.value) u items (subst (OneOf u) (sym e) m) in
        let clocks : i.clock ≡ c = ground (arith, k i o, f, ap clock_of same) in
        subst (λ (d : Hlc). less best.clock d ≡ false) clocks (n i o)

    from :
        (items : List Item) × (items_of (v ∷ vs) ≡ some items)
          × (map (λ (i : Item). i.value) items ≡ v ∷ vs)
          × Clocked items
        → (best : Item) × ((items_of (v ∷ vs) >>= λ items.
              some (without_clock (lww_select clock_of_item items)))
            ≡ some (without_clock (some best)))
          × Chosen (v ∷ vs) best
    from ([], e, f, k) = absurd (cc)
    from (x ∷ items, e, f, k) =
        let (best, chosen, last) = lww_select-IsLast clock_of_item x items in
        let (m, n) = IsLast-NoneLater best (x ∷ items) last in
        (
          best,
          rw e (rw chosen refl),
          (
            subst (OneOf best.value) f (map-OneOf (λ (i : Item). i.value) best (x ∷ items) m),
            k best m,
            latest (x ∷ items) best (v ∷ vs) f k n,
          ),
        )

without_clock-stamped :
    (c d : Hlc) (value : List ℕ)
    → without_clock (some (record { value = stamped c value; clock = d }))
      ≡ elim value [ [] ↦ none | x ∷ xs ↦ some (x ∷ xs) ]
unfolding without_clock stamped
without_clock-stamped c d [] =
    let short : leb (length (clock_bytes c ++ [])) erase_size ≡ true =
      ground (arith, length-append (clock_bytes c) [], length-clock_bytes c) in
    rw short refl
without_clock-stamped c d (x ∷ xs) =
    let long : leb (length (clock_bytes c ++ (x ∷ xs))) erase_size ≡ false =
      ground (arith, length-append (clock_bytes c) (x ∷ xs), length-clock_bytes c) in
    rw (long, drop-prefix erase_size (clock_bytes c) (x ∷ xs) (length-clock_bytes c)) refl

abbrev pub AllInWidth : List Write → Type 0
AllInWidth [] = Unit {0}
AllInWidth (w ∷ writes) = InWidth w.clock × AllInWidth writes

AllInWidth-OneOf :
    (w : Write) (writes : List Write) → AllInWidth writes → OneOf w writes → InWidth w.clock
AllInWidth-OneOf w [] h m = absurd m
AllInWidth-OneOf w (v ∷ writes) (h, hs) (inl e) = subst (λ (u : Write). InWidth u.clock) (sym e) h
AllInWidth-OneOf w (v ∷ writes) (h, hs) (inr m) = AllInWidth-OneOf w writes hs m

-- A write under the key that no other write under the key is later than.
pub record LastWrite (key : List ℕ) (writes : List Write) (w : Write) : Type 0 where
  pub written : OneOf w writes
  pub same_key : w.key ≡ key
  pub latest : (u : Write) → OneOf u writes → u.key ≡ key → less w.clock u.clock ≡ false

-- The answers that are right after these writes.
abbrev pub Right : List ℕ → List Write → Option (List ℕ) → Type 0
Right key writes none =
    ((w : Write) → OneOf w writes → w.key ≢ key)
    ⊎ ((w : Write) × LastWrite key writes w × (w.value ≡ []))
Right key writes (some value) =
    (w : Write) × LastWrite key writes w × (w.value ≡ value) × (value ≢ [])

module _ (key : List ℕ) (writes : List Write) (db : Database) (fits : AllInWidth writes)
    (holds : (p : Pair) → OneOf p (stored db) → OneOf p (map pair_of writes))
    (held : (p : Pair) → OneOf p (map pair_of writes) → OneOf p (stored db)) where
  -- Each value that is looked at is that of a write under the key.
  write_of_value :
      (v : List ℕ)
      → OneOf v (values key db)
      → (w : Write) × OneOf w writes × (w.key ≡ key) × (v ≡ stamped w.clock w.value)
  unfolding pair_of
  write_of_value v m =
      let (p, n, k, e) = values-PairIn key v db m in
      let (w, o, same) = OneOf-map pair_of p writes (holds p n) in
      (w, o, sym (ap (λ (q : Pair). q.key) same) ∙ k, sym e ∙ ap (λ (q : Pair). q.value) same)

  value_of_write :
      (w : Write) → OneOf w writes → w.key ≡ key → OneOf (stamped w.clock w.value) (values key db)
  unfolding pair_of
  value_of_write w m e =
      subst (λ k. OneOf (stamped w.clock w.value) (values k db)) e
        (PairIn-values (pair_of w) db (held (pair_of w) (map-OneOf pair_of w writes m)))

  all-Stamped : (v : List ℕ) → OneOf v (values key db) → Stamped v
  all-Stamped v m =
      let (w, o, k, e) = write_of_value v m in
      (w.clock, ap clock_of e ∙ clock_of-stamped w.clock w.value (AllInWidth-OneOf w writes fits o))

  Right-choice :
      (best : Item) → Chosen (values key db) best → Right key writes (without_clock (some best))
  Right-choice best (m, c, later) = answer (write_of_value best.value m)
    where
      last :
          (w : Write) → OneOf w writes → w.key ≡ key → best.clock ≡ w.clock → LastWrite key writes w
      last w o k e = record {
        written = o;
        same_key = k;
        latest = λ u n f.
            subst (λ (d : Hlc). less d u.clock ≡ false) e
              (later (stamped u.clock u.value) u.clock (value_of_write u n f)
                (clock_of-stamped u.clock u.value (AllInWidth-OneOf u writes fits n)));
      }

      by_value :
          (w : Write) (value : List ℕ)
          → w.value ≡ value
          → LastWrite key writes w
          → Right key writes (elim value [ [] ↦ none | x ∷ xs ↦ some (x ∷ xs) ])
      by_value w [] e l = inr (w, l, e)
      by_value w (x ∷ xs) e l = (w, l, e, (λ p. cc))

      answer :
          (w : Write) × OneOf w writes × (w.key ≡ key) × (best.value ≡ stamped w.clock w.value)
          → Right key writes (without_clock (some best))
      answer (w, o, k, e) =
          let clocks : best.clock ≡ w.clock = ground (
            arith,
            c,
            ap clock_of e,
            clock_of-stamped w.clock w.value (AllInWidth-OneOf w writes fits o),
          ) in
          subst (Right key writes)
            (sym (
              ap (λ (v : List ℕ). without_clock (some (record { value = v; clock = best.clock }))) e
              ∙ without_clock-stamped w.clock best.clock w.value))
            (by_value w w.value refl (last w o k clocks))

  pub find-Right :
      (answer : Option (List ℕ)) × (internal_find key db ≡ some answer) × Right key writes answer
  unfolding internal_find newest
  find-Right = from (values key db) refl
    where
      from :
          (vs : List (List ℕ))
          → values key db ≡ vs
          → (answer : Option (List ℕ)) × (newest vs ≡ some answer) × Right key writes answer
      from [] e = (
        none,
        refl,
        inl (λ w o k. subst (OneOf (stamped w.clock w.value)) e (value_of_write w o k)),
      )
      from (v ∷ vs) e =
          let (best, found, chosen) =
            newest-Chosen v vs (λ u m. all-Stamped u (subst (OneOf u) (sym e) m)) in
          (
            without_clock (some best),
            found,
            Right-choice best (subst (λ ws. Chosen ws best) (sym e) chosen),
          )

abbrev pub empty_database : ℕ → List (List ℕ) → Database
empty_database flush_threshold shards = record {
  flush_threshold = flush_threshold;
  operation_id = 0;
  shards = shards;
  memtable = [];
  queue = [];
  working = [];
}

-- After any writes, whatever has been flushed to the queue and taken by a worker that is not done,
-- a lookup answers with the value of the last write under the key, by the clocks. It finds nothing
-- only when no write has the key or a last one is an erasure or empty. No clock is read past the
-- end of a value.
pub internal_find-LastWrite :
    (flush_threshold : ℕ) (shards : List (List ℕ)) (steps : List Step) (key : List ℕ)
    → AllInWidth (writes_of steps)
    → (answer : Option (List ℕ)) × (internal_find key
          (run steps (empty_database flush_threshold shards))
        ≡ some answer)
      × Right key (writes_of steps) answer
internal_find-LastWrite flush_threshold shards steps key fits =
    let db = empty_database flush_threshold shards in
    let (held, holds) = run-Same steps db in
    find-Right key (writes_of steps) (run steps db) fits holds held
