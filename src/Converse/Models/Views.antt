-- ===== src/Converse/Models/Views.antt =====
-- A view that follows the changes has the rows of the model.
use cs.Prelude.{
  ℕ, zero, suc, ◌+◌, ◌-◌, ◌≡◌, ◌≤◌, ◌<◌, refl, ap, ◌∙◌, leb, if◌then◌else◌, Bool-cases, inl, inr,
  true, false, ltb, ◌&&◌, ◌||◌, ◌==◌, Option, none, some, List, [], ◌∷◌, ◌++◌, length, drop-append,
  get_elem?, take, drop, arith,
}
use cs.Converse.Models.{
  ℤ, pos, negsuc, Change, rows_inserted, rows_removed, rows_moved, model_reset, find_from, take_at,
  remove, remove_by_id, append, prepend, set_rows, insert_at, put_back, remove_found, move_row,
  move,
}

pub data Call (A : Type 0) : Type 0 where
  removes : ℤ → Call A
  removes_id : ℕ → Call A
  appends prepends : A → Call A
  moves : ℤ → ℤ → Call A
  sets : List A → Call A

-- What Qt documents of the views. `now` is the model, of which a view reads the rows that are new.
-- A move takes rows `first` to `last` away and puts them before the row that was `before`.
module _ {A : Type 0} (now : List A) where
  abbrev pub after : List A → Change → List A
  after view (rows_inserted first last) =
      take first view ++ (take (last + 1 - first) (drop first now) ++ drop first view)
  after view (rows_removed first last) = take first view ++ drop (last + 1) view
  after view (rows_moved first last before) =
      let moved = take (last + 1 - first) (drop first view) in
      let rest = take first view ++ drop (last + 1) view in
      let place = if leb before first then before else before - (last + 1 - first) in
      take place rest ++ (moved ++ drop place rest)
  after view model_reset = now

  abbrev pub follow : List A → List Change → List A
  follow view [] = view
  follow view (c ∷ cs) = follow (after view c) cs

module _ {A : Type 0} (id_of : A → ℕ) where
  unfoldable pub call : Call A → List A → List A × List Change
  call (removes index) rows = remove id_of index rows
  call (removes_id id) rows = remove_by_id id_of id rows
  call (appends a) rows = append id_of a rows
  call (prepends a) rows = prepend id_of a rows
  call (moves from to) rows = move id_of from to rows
  call (sets new) rows = set_rows id_of new

  -- What a view shows then: the rows of the model, but for a row that is moved to a later place, which
  -- the view shows one place before it.
  abbrev pub shown_move : ℤ → ℤ → List A → List A
  shown_move (negsuc n) to rows = (move id_of (negsuc n) to rows).0
  shown_move (pos from) (negsuc n) rows = (move id_of (pos from) (negsuc n) rows).0
  shown_move (pos from) (pos to) rows =
      if ltb from to && ltb to (length rows)
      then move_row id_of from (to - 1) rows
      else (move id_of (pos from) (pos to) rows).0

  abbrev pub shown : Call A → List A → List A
  shown (removes index) rows = (call (removes index) rows).0
  shown (removes_id id) rows = (call (removes_id id) rows).0
  shown (appends a) rows = (call (appends a) rows).0
  shown (prepends a) rows = (call (prepends a) rows).0
  shown (moves from to) rows = shown_move from to rows
  shown (sets new) rows = (call (sets new) rows).0

  abbrev Followed : List A → List A × List Change → Type 0
  Followed rows r = follow r.0 rows r.1 ≡ r.0

  without_row :
      (index : ℕ) (rows : List A)
      → take index rows ++ drop (suc index) rows ≡ take_at id_of index rows
  unfolding take_at
  without_row zero [] = refl
  without_row zero (a ∷ rows) = refl
  without_row (suc index) [] = refl
  without_row (suc index) (a ∷ rows) = ap (◌∷◌ a) (without_row index rows)

  without-take_at :
      (index : ℕ) (rows : List A)
      → take index rows ++ drop (index + 1) rows ≡ take_at id_of index rows
  without-take_at index rows =
      ap (λ (k : ℕ). take index rows ++ drop k rows) {x = index + 1} {y = suc index} (omega arith)
      ∙ without_row index rows

  take_all : (rows : List A) → take (length rows) rows ≡ rows
  take_all [] = refl
  take_all (a ∷ rows) = ap (◌∷◌ a) (take_all rows)

  drop_all : (rows : List A) → drop (length rows) rows ≡ []
  drop_all [] = refl
  drop_all (a ∷ rows) = drop_all rows

  remove-Followed : (index : ℤ) (rows : List A) → Followed rows (remove id_of index rows)
  unfolding remove
  remove-Followed (negsuc n) rows = refl
  remove-Followed (pos index) rows = elim (Bool-cases (leb (length rows) index)) [
    | inl outside ↦ rw outside refl
    | inr inside ↦ rw inside (without-take_at index rows)
  ]

  remove_found-Followed :
      (o : Option (A × ℕ)) (rows : List A) → Followed rows (remove_found id_of o rows)
  unfolding remove_found
  remove_found-Followed none rows = refl
  remove_found-Followed (some a) rows = remove-Followed (pos a.1) rows

  one_row :
      (index : ℕ) (rows : List A) (a : A)
      → get_elem? rows index ≡ some a
      → take 1 (drop index rows) ≡ a ∷ []
  one_row index [] a e = absurd (cc)
  one_row zero (x ∷ rows) a e = let same : x ≡ a = cc in ap (λ (y : A). y ∷ []) same
  one_row (suc index) (x ∷ rows) a e = one_row index rows a e

  inside_some :
      (index : ℕ) (rows : List A) → index < length rows → (a : A) × (get_elem? rows index ≡ some a)
  inside_some index [] h = absurd (omega arith)
  inside_some zero (x ∷ rows) h = (x, refl)
  inside_some (suc index) (x ∷ rows) h = inside_some index rows (omega arith)

  append-Followed : (a : A) (rows : List A) → Followed rows (append id_of a rows)
  unfolding append
  append-Followed a rows =
      let one : length rows + 1 - length rows ≡ 1 = omega arith in
      rw (take_all rows, drop_all rows, one, drop-append rows (a ∷ [])) refl

  move_row-Followed :
      (from to : ℕ) (rows : List A)
      → from < length rows
      → to ≤ from
      → Followed rows (move_row id_of from to rows, rows_moved from from to ∷ [])
  unfolding move_row put_back insert_at
  move_row-Followed from to rows inside up =
      let (a, found) = inside_some from rows inside in
      let first : leb to from ≡ true = ground (arith, up) in
      let one : from + 1 - from ≡ 1 = omega arith in
      rw (first, one, found, one_row from rows a found, without-take_at from rows) refl

  move_row-short :
      (now : List A) (from to : ℕ) (rows : List A)
      → from < length rows
      → from < to
      → follow now rows (rows_moved from from to ∷ []) ≡ move_row id_of from (to - 1) rows
  unfolding move_row put_back insert_at
  move_row-short now from to rows inside down =
      let (a, found) = inside_some from rows inside in
      let later : leb to from ≡ false = ground (arith, down) in
      let one : from + 1 - from ≡ 1 = omega arith in
      rw (later, one, found, one_row from rows a found, without-take_at from rows) refl

  move-shown :
      (from to : ℤ) (rows : List A)
      → follow (move id_of from to rows).0 rows (move id_of from to rows).1
        ≡ shown_move from to rows
  unfolding move
  move-shown (negsuc n) to rows = refl
  move-shown (pos from) (negsuc n) rows = refl
  move-shown (pos from) (pos to) rows =
      elim (Bool-cases (leb (length rows) from || leb (length rows) to)) [
        | inl outside ↦
            let none_later : (ltb from to && ltb to (length rows)) ≡ false =
              ground (arith, outside) in
            rw (none_later, outside) refl
        | inr inside ↦ elim (Bool-cases (ltb from to)) [
          | inl down ↦
              let later : (ltb from to && ltb to (length rows)) ≡ true =
                ground (arith, inside, down) in
              let other : (from == to) ≡ false = ground (arith, down) in
              rw (later, inside, other)
                (move_row-short (move_row id_of from to rows) from to rows (ground (arith, inside))
                  (ground (arith, down)))
          | inr up ↦
              let none_later : (ltb from to && ltb to (length rows)) ≡ false = ground (arith, up) in
              rw (none_later, inside)
                (elim (Bool-cases (from == to)) [
                  | inl same ↦ rw same refl
                  | inr other ↦
                      rw other (
                        move_row-Followed from to rows (ground (arith, inside))
                          (ground (arith, up)))
                ])
        ]
      ]

  -- After every call, whatever indices and ids are given, a view that has followed the changes announced,
  -- and reads the new rows from the model, has the rows of the model. Only a row that is moved to a later
  -- place is one place before it in the view.
  pub call-Followed :
      (c : Call A) (rows : List A) → follow (call c rows).0 rows (call c rows).1 ≡ shown c rows
  unfolding call remove_by_id prepend set_rows
  call-Followed (removes index) rows = remove-Followed index rows
  call-Followed (removes_id id) rows = remove_found-Followed (find_from id_of id 0 rows) rows
  call-Followed (appends a) rows = append-Followed a rows
  call-Followed (prepends a) rows = refl
  call-Followed (moves from to) rows = move-shown from to rows
  call-Followed (sets new) rows = refl
