-- ===== src/Converse/Models/Rows.antt =====
-- Finding and removing rows by id.
use cs.Prelude.{
  ℕ, suc, ◌+◌, ◌≡◌, refl, ap, ◌∙◌, leb, ◌==◌, false, none, some, List, [], ◌∷◌, ◌++◌, length,
  length-append, arith,
}
use cs.Converse.Models.{rows_removed, find_from, take_at, remove, remove_found, remove_by_id}

module _ {A : Type 0} (id_of : A → ℕ) where
  abbrev pub NoneHas : ℕ → List A → Type 0
  NoneHas id [] = Unit {0}
  NoneHas id (a ∷ rest) = ((id_of a == id) ≡ false) × NoneHas id rest

  find_from-first :
      (id index : ℕ) (before : List A) (a : A) (after : List A)
      → NoneHas id before
      → id_of a ≡ id
      → find_from id_of id index (before ++ a ∷ after) ≡ some (a, index + length before)
  unfolding find_from
  find_from-first id index [] a after h e = ground arith
  find_from-first id index (b ∷ before) a after (n, h) e = rw n (
      find_from-first id (index + 1) before a after h e
      ∙ ap (λ (k : ℕ). some (a, k)) {x = index + 1 + length before}
          {y = index + suc (length before)} (omega arith))

  find_from-none :
      (id index : ℕ) (rows : List A) → NoneHas id rows → find_from id_of id index rows ≡ none
  unfolding find_from
  find_from-none id index [] h = refl
  find_from-none id index (a ∷ rows) (n, h) = rw n (find_from-none id (index + 1) rows h)

  take_at-append :
      (before : List A) (a : A) (after : List A)
      → take_at id_of (length before) (before ++ a ∷ after) ≡ before ++ after
  unfolding take_at
  take_at-append [] a after = refl
  take_at-append (b ∷ before) a after = ap (◌∷◌ b) (take_at-append before a after)

  -- Removing by id takes out the first row of that id, announces its index and leaves the others
  -- as they are; where no row has the id, nothing changes and nothing is announced.
  pub remove_by_id-first :
      (id : ℕ) (before : List A) (a : A) (after : List A)
      → NoneHas id before
      → id_of a ≡ id
      → (remove_by_id id_of id (before ++ a ∷ after)
          ≡ (before ++ after, rows_removed (length before) (length before) ∷ []))
        × (remove_by_id id_of id before ≡ (before, []))
  unfolding remove_by_id remove_found remove
  remove_by_id-first id before a after h e =
      let inside : leb (length (before ++ a ∷ after)) (length before) ≡ false =
        ground (arith, length-append before (a ∷ after)) in
      let found : find_from id_of id 0 (before ++ a ∷ after) ≡ some (a, length before) =
        find_from-first id 0 before a after h e
        ∙ ap (λ (k : ℕ). some (a, k)) {x = 0 + length before} {y = length before} (omega arith) in
      (
        rw found (
            rw inside (
              ap (λ (rows : List A). (rows, rows_removed (length before) (length before) ∷ []))
                (take_at-append before a after))),
        rw (find_from-none id 0 before h) refl,
      )
