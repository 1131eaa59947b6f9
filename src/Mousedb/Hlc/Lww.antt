-- ===== src/Mousedb/Hlc/Lww.antt =====
-- Last writer wins: `lww_select` of mousedb/server/exe_server/src/lww.hpp, the same text as in
-- mousedb/server/lib_database/src/hlce.hpp. Iterators are the lists of what is left to visit.
use cs.Prelude.{
  ◌≡◌, refl, Bool-cases, inl, inr, true, false, Option, none, some, List, [], ◌∷◌, ◌++◌,
  if◌then◌else◌,
}
use cs.Mousedb.Hlc.{Hlc, less}
use cs.Mousedb.Hlc.Order.{less_trans, less_of_not_above}
use mathlib.Core.List.{append_assoc, append-nil}
use mathlib.Core.Path.{subst}

module _ {ℓ} {A : Type ℓ} (clock : A → Hlc) where
  -- The loop over `[first, last)` with the best element so far.
  unfoldable pub select_loop : A → List A → A
  select_loop best [] = best
  select_loop best (first ∷ rest) =
      select_loop (if less (clock best) (clock first) then first else best) rest

  unfoldable pub lww_select : List A → Option A
  unfolding select_loop
  lww_select [] = none
  lww_select (first ∷ rest) = some (select_loop first rest)

  abbrev pub AllBelow : Hlc → List A → Type 0
  AllBelow h [] = Unit {0}
  AllBelow h (x ∷ xs) = (less (clock x) h ≡ true) × AllBelow h xs

  abbrev pub NoneAbove : Hlc → List A → Type 0
  NoneAbove h [] = Unit {0}
  NoneAbove h (x ∷ xs) = (less h (clock x) ≡ false) × NoneAbove h xs

  -- `best` stands in the list behind smaller clocks only, and no clock after it is greater.
  abbrev pub IsLast : A → List A → Type ℓ
  IsLast best xs =
      (before : List A) × (after : List A) × (xs ≡ before ++ best ∷ after)
      × AllBelow (clock best) before
      × NoneAbove (clock best) after

  AllBelow-mono : (h k : Hlc) (xs : List A) → less h k ≡ true → AllBelow h xs → AllBelow k xs
  AllBelow-mono h k [] p a = tt
  AllBelow-mono h k (x ∷ xs) p a = (less_trans (clock x) h k a.0 p, AllBelow-mono h k xs p a.1)

  AllBelow-of_NoneAbove :
      (h k : Hlc) (xs : List A) → less h k ≡ true → NoneAbove h xs → AllBelow k xs
  AllBelow-of_NoneAbove h k [] p n = tt
  AllBelow-of_NoneAbove h k (x ∷ xs) p n =
      (less_of_not_above (clock x) h k n.0 p, AllBelow-of_NoneAbove h k xs p n.1)

  AllBelow-append :
      (h : Hlc) (xs ys : List A) → AllBelow h xs → AllBelow h ys → AllBelow h (xs ++ ys)
  AllBelow-append h [] ys a b = b
  AllBelow-append h (x ∷ xs) ys a b = (a.0, AllBelow-append h xs ys a.1 b)

  NoneAbove-snoc :
      (h : Hlc) (xs : List A) (y : A)
      → NoneAbove h xs
      → less h (clock y) ≡ false
      → NoneAbove h (xs ++ y ∷ [])
  NoneAbove-snoc h [] y n p = (p, tt)
  NoneAbove-snoc h (x ∷ xs) y n p = (n.0, NoneAbove-snoc h xs y n.1 p)

  -- The elements between the best one and the rest have been passed over.
  select_loop-IsLast :
      (before : List A) (best : A) (passed rest : List A)
      → AllBelow (clock best) before
      → NoneAbove (clock best) passed
      → IsLast (select_loop best rest) (before ++ best ∷ (passed ++ rest))
  unfolding select_loop
  select_loop-IsLast before best passed [] a n = (before, passed, rw append-nil, a, n)
  select_loop-IsLast before best passed (x ∷ rest) a n =
      elim (Bool-cases (less (clock best) (clock x))) [
        | inl newer ↦ rw newer (
            subst (IsLast (select_loop x rest)) (append_assoc before (best ∷ passed) (x ∷ rest)) (
              select_loop-IsLast (before ++ best ∷ passed) x [] rest
                (AllBelow-append (clock x) before (best ∷ passed)
                  (AllBelow-mono (clock best) (clock x) before newer a)
                  (newer, AllBelow-of_NoneAbove (clock best) (clock x) passed newer n))
                tt))
        | inr older ↦ rw older (
            subst (λ l. IsLast (select_loop best rest) (before ++ best ∷ l))
              (append_assoc passed (x ∷ []) rest)
              (select_loop-IsLast before best (passed ++ x ∷ []) rest a
                (NoneAbove-snoc (clock best) passed x n older)))
      ]

  -- On a list that is not empty `lww_select` returns an element of it: all clocks before it are
  -- smaller, and none after it is greater. So of equal greatest clocks the first one wins.
  pub lww_select-IsLast :
      (x : A) (xs : List A) → (best : A) × (lww_select (x ∷ xs) ≡ some best) × IsLast best (x ∷ xs)
  unfolding lww_select
  lww_select-IsLast x xs = (select_loop x xs, refl, select_loop-IsLast [] x [] xs tt tt)
