-- ===== src/Mousedb/Filter/Members.antt =====
-- A Bloom filter has no false negatives.
use cs.Prelude.{
  ℕ, zero, suc, ◌+◌, ◌%◌, ◌≤◌, ◌<◌, ◌≡◌, refl, ◌∙◌, inl, inr, true, false, Bool-cases, List, [],
  ◌∷◌, arith,
}
use cs.Mousedb.Filter.{Bitset, BloomFilter, init, hash, add_loop, add, contains_loop, contains}
use native.Mathlib.Decide.{ℕ_discrete}
use native.Mathlib.Nat.{mod-lt}
use mathlib.Core.Path.{subst}

module _ (bs : Bitset) {Item : Type 0} (hasher : Item → ℕ) where
  open bs use {
    Bits, make, set, test, size, size-make, test-make, size-set, test-set_self, test-set_ne,
  }

  abbrev Filter : Type 0
  Filter = BloomFilter bs hasher

  -- The bitset has the length that positions are reduced to, which is not 0.
  abbrev pub IsValid : Filter → Type 0
  IsValid f = (0 < f.bit_count) × (size f.bits ≡ f.bit_count)

  test-set_mono : (b : Bits) (i j : ℕ) → i < size b → test b j ≡ true → test (set b i) j ≡ true
  test-set_mono b i j h t = elim (ℕ_discrete i j) [
    | yes same ↦ rw same (test-set_self b j (rw same at h))
    | no other ↦ rw (test-set_ne b i j other) t
  ]

  module _ (f : Filter) (item : Item) (pos : 0 < f.bit_count) where
    abbrev place : ℕ → ℕ
    place i = hash bs hasher item i % f.bit_count

    add_loop_keeps :
        (left i : ℕ) (b : Bits) (j : ℕ)
        → size b ≡ f.bit_count
        → (size (add_loop bs hasher f item left i b) ≡ f.bit_count)
          × (test b j ≡ true → test (add_loop bs hasher f item left i b) j ≡ true)
    unfolding add_loop
    add_loop_keeps zero i b j e = (e, λ t. t)
    add_loop_keeps (suc left) i b j e =
        let in_range : place i < size b = rw e (mod-lt _ pos) in
        let later = add_loop_keeps left (i + 1) (set b (place i)) j (size-set b (place i) ∙ e) in
        (later.0, λ t. later.1 (test-set_mono b (place i) j in_range t))

    -- The loop sets the bits of the seeds that it runs through.
    add_loop_sets :
        (left i : ℕ) (b : Bits) (seed : ℕ)
        → size b ≡ f.bit_count
        → i ≤ seed
        → seed < i + left
        → test (add_loop bs hasher f item left i b) (place seed) ≡ true
    unfolding add_loop
    add_loop_sets zero i b seed e lo hi = absurd (omega arith)
    add_loop_sets (suc left) i b seed e lo hi =
        let b' = set b (place i) in
        let e' : size b' ≡ f.bit_count = size-set b (place i) ∙ e in
        elim (ℕ_discrete i seed) [
          | yes same ↦ (add_loop_keeps left (i + 1) b' (place seed) e').1 (
              subst (λ k. test b' (place k) ≡ true) same
                (test-set_self b (place i) (rw e (mod-lt _ pos))))
          | no other ↦ add_loop_sets left (i + 1) b' seed e' (omega arith) (omega arith)
        ]

  -- `contains` tests the bit of every seed.
  AllSet : Filter → Item → ℕ → ℕ → Type 0
  AllSet f item i left =
      (seed : ℕ)
      → i ≤ seed
      → seed < i + left
      → test f.bits (hash bs hasher item seed % f.bit_count) ≡ true

  contains_of_AllSet :
      (f : Filter) (item : Item) (left i : ℕ)
      → AllSet f item i left
      → contains_loop bs hasher f item left i ≡ true
  unfolding contains_loop AllSet
  contains_of_AllSet f item zero i all = refl
  contains_of_AllSet f item (suc left) i all =
      rw (all i (omega arith) (omega arith)) (
        contains_of_AllSet f item left (i + 1) (λ seed lo hi. all seed (omega arith) (omega arith)))

  AllSet-of_contains :
      (f : Filter) (item : Item) (left i : ℕ)
      → contains_loop bs hasher f item left i ≡ true
      → AllSet f item i left
  unfolding contains_loop AllSet
  AllSet-of_contains f item zero i e = λ seed lo hi. absurd (omega arith)
  AllSet-of_contains f item (suc left) i e = λ seed lo hi.
      elim (Bool-cases (test f.bits (hash bs hasher item i % f.bit_count))) [
        | inr clear ↦ cc (rw clear at e)
        | inl lit ↦ elim (ℕ_discrete i seed) [
          | yes same ↦ rw (← same) lit
          | no other ↦
              AllSet-of_contains f item left (i + 1) (rw lit at e) seed (omega arith) (omega arith)
        ]
      ]

  pub add-IsValid : (f : Filter) (item : Item) → IsValid f → IsValid (add bs hasher f item)
  unfolding add
  add-IsValid f item (pos, e) = (pos, (add_loop_keeps f item pos f.hash_count 0 f.bits 0 e).0)

  contains-add_self :
      (f : Filter) (item : Item) → IsValid f → contains bs hasher (add bs hasher f item) item ≡ true
  unfolding contains add AllSet
  contains-add_self f item (pos, e) =
      contains_of_AllSet (add bs hasher f item) item f.hash_count 0
        (λ seed lo hi. add_loop_sets f item pos f.hash_count 0 f.bits seed e lo hi)

  contains-add_mono :
      (f : Filter) (item other : Item)
      → IsValid f
      → contains bs hasher f other ≡ true
      → contains bs hasher (add bs hasher f item) other ≡ true
  unfolding contains add AllSet
  contains-add_mono f item other (pos, e) h =
      contains_of_AllSet (add bs hasher f item) other f.hash_count 0 (λ seed lo hi.
        (add_loop_keeps f item pos f.hash_count 0 f.bits _ e).1
          (AllSet-of_contains f other f.hash_count 0 h seed lo hi))

  unfoldable pub add_all : Filter → List Item → Filter
  add_all f [] = f
  add_all f (x ∷ xs) = add_all (add bs hasher f x) xs

  abbrev pub AllContained : Filter → List Item → Type 0
  AllContained f [] = Unit {0}
  AllContained f (x ∷ xs) = (contains bs hasher f x ≡ true) × AllContained f xs

  add_all-keeps :
      (f : Filter) (xs : List Item) (other : Item)
      → IsValid f
      → contains bs hasher f other ≡ true
      → contains bs hasher (add_all f xs) other ≡ true
  unfolding add_all
  add_all-keeps f [] other v h = h
  add_all-keeps f (x ∷ xs) other v h =
      add_all-keeps (add bs hasher f x) xs other (add-IsValid f x v)
        (contains-add_mono f x other v h)

  add_all-AllContained : (f : Filter) (xs : List Item) → IsValid f → AllContained (add_all f xs) xs
  unfolding add_all
  add_all-AllContained f [] v = tt
  add_all-AllContained f (x ∷ xs) v = (
    add_all-keeps (add bs hasher f x) xs x (add-IsValid f x v) (contains-add_self f x v),
    add_all-AllContained (add bs hasher f x) xs (add-IsValid f x v),
  )

  -- A filter of at least one bit contains every item that was added to it, and none before the
  -- first one, if it hashes at least once.
  pub init-contains :
      (bit_count hash_count : ℕ) (xs : List Item) (other : Item)
      → 0 < bit_count
      → 0 < hash_count
      → AllContained (add_all (init bs hasher bit_count hash_count) xs) xs
        × (contains bs hasher (init bs hasher bit_count hash_count) other ≡ false)
  init-contains bit_count zero xs other pos once = absurd (omega arith)
  init-contains bit_count (suc hash_count) xs other pos once = (
    add_all-AllContained (init bs hasher bit_count (suc hash_count)) xs
        (unfold init in (pos, size-make bit_count)),
    unfold init contains contains_loop in rw test-make refl,
  )
