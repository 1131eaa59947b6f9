-- ===== src/Mousedb/KvStore/Compare.antt =====
-- The order on keys.
use cs.Prelude.{ℕ, suc, ◌≡◌, refl, ◌↔◌, min, ltb, if◌then◌else◌, List, [], ◌∷◌, length, arith}
use cs.Mousedb.KvStore.{Sign, negative, zero_sign, positive, compare_keys}

-- Byte by byte, and a proper prefix first.
pub lexicographic : List ℕ → List ℕ → Sign
lexicographic [] [] = zero_sign
lexicographic [] (y ∷ ys) = negative
lexicographic (x ∷ xs) [] = positive
lexicographic (x ∷ xs) (y ∷ ys) =
    if ltb x y then negative else if ltb y x then positive else lexicographic xs ys

unfoldable pub flip : Sign → Sign
flip negative = positive
flip zero_sign = zero_sign
flip positive = negative

-- `compare` is the lexicographic order of byte strings.
pub compare_keys-lexicographic : (a b : List ℕ) → compare_keys a b ≡ lexicographic a b
unfolding compare_keys lexicographic
compare_keys-lexicographic [] [] = refl
compare_keys-lexicographic [] (y ∷ ys) = ground arith
compare_keys-lexicographic (x ∷ xs) [] = ground arith
compare_keys-lexicographic (x ∷ xs) (y ∷ ys) =
    let shorter : min (suc (length xs)) (suc (length ys)) ≡ suc (min (length xs) (length ys)) =
      omega arith in
    rw shorter (ground (arith, compare_keys-lexicographic xs ys))

lexicographic-eq : (a b : List ℕ) → lexicographic a b ≡ zero_sign → a ≡ b
unfolding lexicographic
lexicographic-eq [] [] e = refl
lexicographic-eq [] (y ∷ ys) e = cc
lexicographic-eq (x ∷ xs) [] e = cc
lexicographic-eq (x ∷ xs) (y ∷ ys) e = ground (arith, lexicographic-eq xs ys)

lexicographic_self : (a : List ℕ) → lexicographic a a ≡ zero_sign
unfolding lexicographic
lexicographic_self [] = refl
lexicographic_self (x ∷ xs) = ground (arith, lexicographic_self xs)

lexicographic-flip : (a b : List ℕ) → lexicographic b a ≡ flip (lexicographic a b)
unfolding lexicographic flip
lexicographic-flip [] [] = refl
lexicographic-flip [] (y ∷ ys) = refl
lexicographic-flip (x ∷ xs) [] = refl
lexicographic-flip (x ∷ xs) (y ∷ ys) = ground (arith, lexicographic-flip xs ys)

lexicographic_trans :
    (a b c : List ℕ)
    → lexicographic a b ≡ negative
    → lexicographic b c ≡ negative
    → lexicographic a c ≡ negative
unfolding lexicographic
lexicographic_trans [] [] [] p q = cc
lexicographic_trans [] (y ∷ b) [] p q = cc
lexicographic_trans [] b (z ∷ c) p q = refl
lexicographic_trans (x ∷ a) [] c p q = cc
lexicographic_trans (x ∷ a) (y ∷ b) [] p q = cc
lexicographic_trans (x ∷ a) (y ∷ b) (z ∷ c) p q = ground (arith, lexicographic_trans a b c)

-- So `compare` orders keys totally: it is 0 exactly on equal keys, swapping the keys swaps its
-- sign, and being smaller is transitive.
pub compare_keys_order :
    (a b c : List ℕ)
    → ((compare_keys a b ≡ zero_sign) ↔ (a ≡ b))
      × (compare_keys b a ≡ flip (compare_keys a b))
      × (compare_keys a b ≡ negative → compare_keys b c ≡ negative → compare_keys a c ≡ negative)
compare_keys_order a b c =
    rw
      (
        compare_keys-lexicographic a b,
        compare_keys-lexicographic b a,
        compare_keys-lexicographic b c,
        compare_keys-lexicographic a c,
      )
      (
        (lexicographic-eq a b, λ e. rw e (lexicographic_self b)),
        lexicographic-flip a b,
        lexicographic_trans a b c,
      )
