-- ===== src/Converse/Text/Trim.antt =====
-- The spaces around a name.
use cs.Prelude.{
  ℕ, zero, suc, ◌+◌, ◌≡◌, refl, sym, ap, ◌∙◌, ◌==◌, min, Bool-cases, inl, inr, Option-cases, none,
  some, List, [], ◌∷◌, ◌++◌, length, take, drop, drop-append, replicate, length-replicate, arith,
}
use cs.Converse.Text.{space, find_first_not_of, after_first, find_last_not_of, trimmed}

-- A name whose ends are no spaces.
abbrev pub NoSpaceFirst : List ℕ → Type 0
NoSpaceFirst name = find_first_not_of space name ≡ some 0

abbrev pub NoSpaceLast : List ℕ → Type 0
NoSpaceLast name = (n : ℕ) × (length name ≡ suc n) × (find_last_not_of space name ≡ some n)

find_first-spaces :
    (n : ℕ) (xs : List ℕ) (m : ℕ)
    → find_first_not_of space xs ≡ some m
    → find_first_not_of space (replicate n space ++ xs) ≡ some (n + m)
unfolding find_first_not_of
find_first-spaces zero xs m e = e ∙ ap some {x = m} {y = 0 + m} (omega arith)
find_first-spaces (suc n) xs m e =
    rw (find_first-spaces n xs m e) (ap some {x = suc (n + m)} {y = suc n + m} (omega arith))

find_first-append :
    (xs ys : List ℕ)
    → find_first_not_of space xs ≡ some 0
    → find_first_not_of space (xs ++ ys) ≡ some 0
unfolding find_first_not_of
find_first-append [] ys e = absurd (cc)
find_first-append (x ∷ xs) ys e = elim (Bool-cases (x == space)) [
  | inl blank ↦ absurd (elim (Option-cases (find_first_not_of space xs)) [
    | inl nowhere ↦ absurd (ground (arith, blank, nowhere))
    | inr (k, found) ↦ absurd (ground (arith, blank, found))
  ])
  | inr fine ↦ rw fine refl
]

find_last-spaces :
    (n : ℕ) (xs : List ℕ) (m : ℕ)
    → find_last_not_of space xs ≡ some m
    → find_last_not_of space (replicate n space ++ xs) ≡ some (n + m)
unfolding find_last_not_of
find_last-spaces zero xs m e = e ∙ ap some {x = m} {y = 0 + m} (omega arith)
find_last-spaces (suc n) xs m e =
    rw (find_last-spaces n xs m e) (ap some {x = suc (n + m)} {y = suc n + m} (omega arith))

only_spaces : (n : ℕ) → find_last_not_of space (replicate n space) ≡ none
unfolding find_last_not_of
only_spaces zero = refl
only_spaces (suc n) = rw (only_spaces n) refl

find_last-blank :
    (xs ys : List ℕ)
    → find_last_not_of space xs ≡ none
    → find_last_not_of space ys ≡ none
    → find_last_not_of space (xs ++ ys) ≡ none
unfolding find_last_not_of
find_last-blank [] ys e f = f
find_last-blank (x ∷ xs) ys e f = elim (Option-cases (find_last_not_of space xs)) [
  | inl nowhere ↦
      rw (find_last-blank xs ys nowhere f) (ap (after_first (x == space)) (sym nowhere) ∙ e)
  | inr (k, found) ↦
      let here : some (suc k) ≡ none = sym (ap (after_first (x == space)) found) ∙ e in absurd (cc)
]

find_last-append :
    (xs : List ℕ) (n m : ℕ)
    → find_last_not_of space xs ≡ some m
    → find_last_not_of space (xs ++ replicate n space) ≡ some m
unfolding find_last_not_of
find_last-append [] n m e = absurd (cc)
find_last-append (x ∷ xs) n m e = elim (Option-cases (find_last_not_of space xs)) [
  | inl nowhere ↦
      rw (find_last-blank xs (replicate n space) nowhere (only_spaces n))
        (ap (after_first (x == space)) (sym nowhere) ∙ e)
  | inr (k, found) ↦
      rw (find_last-append xs n k found) (ap (after_first (x == space)) (sym found) ∙ e)
]

take-spaces : (n m : ℕ) → take n (replicate m space) ≡ replicate (min n m) space
take-spaces zero m = ap (λ (k : ℕ). replicate k space) {x = 0} {y = min 0 m} (omega arith)
take-spaces (suc n) zero =
    ap (λ (k : ℕ). replicate k space) {x = 0} {y = min (suc n) 0} (omega arith)
take-spaces (suc n) (suc m) =
    ap (◌∷◌ space) (take-spaces n m)
    ∙ ap (λ (k : ℕ). replicate k space) {x = suc (min n m)} {y = min (suc n) (suc m)} (omega arith)

take-more : (xs ys : List ℕ) (n : ℕ) → take (length xs + n) (xs ++ ys) ≡ xs ++ take n ys
take-more [] ys n = ap (λ (k : ℕ). take k ys) {x = 0 + n} {y = n} (omega arith)
take-more (x ∷ xs) ys n =
    ap (λ (k : ℕ). take k (x ∷ (xs ++ ys))) {x = suc (length xs) + n} {y = suc (length xs + n)}
      (omega arith)
    ∙ ap (◌∷◌ x) (take-more xs ys n)

-- The spaces before a name are removed. Of those behind it, as many stay as stood before it, if
-- there are that many.
pub trimmed-spaces :
    (before behind : ℕ) (name : List ℕ)
    → NoSpaceFirst name
    → NoSpaceLast name
    → trimmed (replicate before space ++ (name ++ replicate behind space))
      ≡ some (name ++ replicate (min before behind) space)
unfolding trimmed
trimmed-spaces before behind name f (n, size, l) =
    let all = replicate before space ++ (name ++ replicate behind space) in
    let first =
      find_first-spaces before (name ++ replicate behind space) 0
        (find_first-append name (replicate behind space) f) in
    let last =
      find_last-spaces before (name ++ replicate behind space) n
        (find_last-append name behind n l) in
    let cut : drop (before + 0) all ≡ name ++ replicate behind space =
      ap (λ (k : ℕ). drop k all) {x = before + 0} {y = length (replicate before space)}
        (omega (arith, length-replicate before space))
      ∙ drop-append (replicate before space) (name ++ replicate behind space) in
    rw (first, last, cut)
      (ap some (
        ap (λ (k : ℕ). take k (name ++ replicate behind space)) {x = before + n + 1}
          {y = length name + before} (omega (arith, size))
        ∙ take-more name (replicate behind space) before
        ∙ ap (λ (k : List ℕ). name ++ k) (take-spaces before behind)))
