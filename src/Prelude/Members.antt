-- ===== src/Prelude/Members.antt =====
-- Members of a list.
use mathlib.Core.Path.{◌≡◌, refl, ap}
use mathlib.Core.Logic.{◌⊎◌, inl, inr}
use mathlib.Core.List.{List, [], ◌∷◌, ◌++◌, map}

module _ {A : Type 0} where
  abbrev pub OneOf : A → List A → Type 0
  OneOf a [] = ⊥
  OneOf a (x ∷ xs) = (a ≡ x) ⊎ OneOf a xs

module _ {A : Type 0} where
  pub OneOf-left : (a : A) (xs ys : List A) → OneOf a xs → OneOf a (xs ++ ys)
  OneOf-left a [] ys m = absurd m
  OneOf-left a (x ∷ xs) ys (inl e) = inl e
  OneOf-left a (x ∷ xs) ys (inr m) = inr (OneOf-left a xs ys m)

  pub OneOf-right : (a : A) (xs ys : List A) → OneOf a ys → OneOf a (xs ++ ys)
  OneOf-right a [] ys m = m
  OneOf-right a (x ∷ xs) ys m = inr (OneOf-right a xs ys m)

  pub OneOf-append : (a : A) (xs ys : List A) → OneOf a (xs ++ ys) → OneOf a xs ⊎ OneOf a ys
  OneOf-append a [] ys m = inr m
  OneOf-append a (x ∷ xs) ys (inl e) = inl (inl e)
  OneOf-append a (x ∷ xs) ys (inr m) = elim (OneOf-append a xs ys m) [
    | inl l ↦ inl (inr l)
    | inr r ↦ inr r
  ]

  abbrev pub Includes : List A → List A → Type 0
  Includes xs ys = (a : A) → OneOf a ys → OneOf a xs

  -- The same members.
  abbrev pub Same : List A → List A → Type 0
  Same xs ys = Includes xs ys × Includes ys xs

  pub Same-append :
      (xs ys xs' ys' : List A) → Same xs xs' → Same ys ys' → Same (xs ++ ys) (xs' ++ ys')
  Same-append xs ys xs' ys' (f, g) (h, k) = (both xs' ys' xs ys f h, both xs ys xs' ys' g k)
    where
      both :
          (ps bs cs ds : List A) → Includes cs ps → Includes ds bs → Includes (cs ++ ds) (ps ++ bs)
      both ps bs cs ds f h a m = elim (OneOf-append a ps bs m) [
        | inl l ↦ OneOf-left a cs ds (f a l)
        | inr r ↦ OneOf-right a cs ds (h a r)
      ]

  pub Same-refl : (xs : List A) → Same xs xs
  Same-refl xs = ((λ a m. m), (λ a m. m))

  pub Same-trans : (xs ys zs : List A) → Same xs ys → Same ys zs → Same xs zs
  Same-trans xs ys zs (f, g) (h, k) = ((λ a m. f a (h a m)), (λ a m. k a (g a m)))

  pub Same-swap : (xs ys : List A) → Same (xs ++ ys) (ys ++ xs)
  Same-swap xs ys = (swap ys xs, swap xs ys)
    where
      swap : (ps bs : List A) → Includes (bs ++ ps) (ps ++ bs)
      swap ps bs a m = elim (OneOf-append a ps bs m) [
        | inl l ↦ OneOf-right a bs ps l
        | inr r ↦ OneOf-left a bs ps r
      ]

pub OneOf-map :
    {A B : Type 0} (f : A → B) (b : B) (xs : List A)
    → OneOf b (map f xs)
    → (a : A) × OneOf a xs × (b ≡ f a)
OneOf-map f b [] m = absurd m
OneOf-map f b (x ∷ xs) (inl e) = (x, inl refl, e)
OneOf-map f b (x ∷ xs) (inr m) = let (a, n, e) = OneOf-map f b xs m in (a, inr n, e)

pub map-OneOf :
    {A B : Type 0} (f : A → B) (a : A) (xs : List A) → OneOf a xs → OneOf (f a) (map f xs)
map-OneOf f a [] m = absurd m
map-OneOf f a (x ∷ xs) (inl e) = inl (ap f e)
map-OneOf f a (x ∷ xs) (inr m) = inr (map-OneOf f a xs m)
