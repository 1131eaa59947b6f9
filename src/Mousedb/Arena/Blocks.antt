-- ===== src/Mousedb/Arena/Blocks.antt =====
-- The blocks that `allocate` hands out.
use cs.Prelude.{
  ℕ, ◌+◌, ◌-◌, ◌≤◌, ◌<◌, ◌≡◌, ◌≢◌, refl, ap, sym, ◌∙◌, ◌⊎◌, inl, inr, ltb, leb, Bool-cases, Option,
  some, none, List, [], ◌∷◌, ◌++◌, length, length-append, get_or, arith, zero, suc,
}
use native.Mathlib.Decide.{ℕ_discrete}
use cs.Mousedb.Arena.{Arena, Ptr, init, Call, allocates, allocates_slab, call, requested}

pub record Block : Type 0 where
  pub ptr : Ptr
  pub bytes : ℕ

abbrev pub end_of : Block → ℕ
end_of b = b.ptr.offset + b.bytes

-- The block lies in a slab that the arena owns.
abbrev pub Inside : List ℕ → Block → Type 0
Inside slabs b =
    (i : ℕ) × (b.ptr.slab ≡ some i) × (i < length slabs) × (end_of b ≤ get_or slabs i 0)

abbrev pub Apart : Block → Block → Type 0
Apart b c = (b.ptr.slab ≢ c.ptr.slab) ⊎ (end_of b ≤ c.ptr.offset) ⊎ (end_of c ≤ b.ptr.offset)

abbrev pub AllApart : Block → List Block → Type 0
AllApart b [] = Unit {0}
AllApart b (c ∷ cs) = Apart b c × AllApart b cs

-- Every block lies inside a slab, and no two of them overlap.
abbrev pub Disjoint : List ℕ → List Block → Type 0
Disjoint slabs [] = Unit {0}
Disjoint slabs (b ∷ bs) = Inside slabs b × AllApart b bs × Disjoint slabs bs

-- In the active slab, blocks end where the free part begins.
abbrev pub Settled : Option ℕ → ℕ → List Block → Type 0
Settled active mark [] = Unit {0}
Settled active mark (b ∷ bs) = (b.ptr.slab ≡ active → end_of b ≤ mark) × Settled active mark bs

abbrev pub ActiveFits : ℕ → List ℕ → Option ℕ → ℕ → Type 0
ActiveFits slab_size slabs active unused =
    (unused ≤ slab_size)
    × (((active ≡ none) × (unused ≡ 0))
        ⊎ ((i : ℕ) × (active ≡ some i) × (i < length slabs) × (slab_size ≤ get_or slabs i 0)))

pub record Placed (slab_size : ℕ) (slabs : List ℕ) (active : Option ℕ) (unused : ℕ)
    (bs : List Block) : Type 0 where
  pub active_fits : ActiveFits slab_size slabs active unused
  pub disjoint : Disjoint slabs bs
  pub settled : Settled active (slab_size - unused) bs

get_or-append : (xs ys : List ℕ) (i : ℕ) → i < length xs → get_or (xs ++ ys) i 0 ≡ get_or xs i 0
get_or-append [] ys i h = absurd (omega arith)
get_or-append (x ∷ xs) ys zero h = refl
get_or-append (x ∷ xs) ys (suc i) h = get_or-append xs ys i (omega arith)

get_or-last : (xs : List ℕ) (n : ℕ) → get_or (xs ++ n ∷ []) (length xs) 0 ≡ n
get_or-last [] n = refl
get_or-last (x ∷ xs) n = get_or-last xs n

module _ (slabs : List ℕ) (n : ℕ) where
  Inside-grow : (b : Block) → Inside slabs b → Inside (slabs ++ n ∷ []) b
  Inside-grow b (i, e, lt, fits) = (
    i,
    e,
    omega (arith, length-append slabs (n ∷ [])),
    omega (arith, get_or-append slabs (n ∷ []) i lt),
  )

  Disjoint-grow : (bs : List Block) → Disjoint slabs bs → Disjoint (slabs ++ n ∷ []) bs
  Disjoint-grow [] d = tt
  Disjoint-grow (b ∷ bs) (inside, apart, d) = (Inside-grow b inside, apart, Disjoint-grow bs d)

  -- Blocks placed before are not in the new slab.
  new-AllApart :
      (size : ℕ) (bs : List Block)
      → Disjoint slabs bs
      → AllApart
          (record { ptr = record { slab = some (length slabs); offset = 0 }; bytes = size })
          bs
  new-AllApart size [] d = tt
  new-AllApart size (b ∷ bs) ((i, e, lt, fits), apart, d) =
      (inl (λ same. ground arith), new-AllApart size bs d)

some_injective : (i j : ℕ) → ◌≡◌ {A = Option ℕ} (some i) (some j) → i ≡ j
some_injective i j e = cc

abbrev at_end : List ℕ → ℕ → Block
at_end slabs size = record { ptr = record { slab = some (length slabs); offset = 0 }; bytes = size }

at_end-Inside :
    (slabs : List ℕ) (n size : ℕ) → size ≤ n → Inside (slabs ++ n ∷ []) (at_end slabs size)
at_end-Inside slabs n size h = (
  length slabs,
  refl,
  omega (arith, length-append slabs (n ∷ [])),
  omega (arith, get_or-last slabs n),
)

module _ (slab_size : ℕ) (slabs : List ℕ) (active : Option ℕ) (unused : ℕ) (bs : List Block) where
  ActiveFits-grow :
      (n : ℕ)
      → ActiveFits slab_size slabs active unused
      → ActiveFits slab_size (slabs ++ n ∷ []) active unused
  ActiveFits-grow n (le, inl e) = (le, inl e)
  ActiveFits-grow n (le, inr (i, e, lt, fits)) = (
    le,
    inr (
      i,
      e,
      omega (arith, length-append slabs (n ∷ [])),
      omega (arith, get_or-append slabs (n ∷ []) i lt),
    ),
  )

  not_active : ActiveFits slab_size slabs active unused → some (length slabs) ≢ active
  not_active (le, inl (e, z)) same = cc
  not_active (le, inr (i, e, lt, fits)) same = ground arith

  -- A slab for one block only: the active slab stays.
  large-Placed :
      (size : ℕ)
      → Placed slab_size slabs active unused bs
      → Placed slab_size (slabs ++ size ∷ []) active unused (at_end slabs size ∷ bs)
  large-Placed size v = record {
    active_fits = ActiveFits-grow size v.active_fits;
    disjoint = (
      at_end-Inside slabs size size (omega arith),
      new-AllApart slabs size size bs v.disjoint,
      Disjoint-grow slabs size bs v.disjoint,
    );
    settled = (λ same. absurd (not_active v.active_fits same), v.settled);
  }

  elsewhere :
      (mark : ℕ) (cs : List Block) → Disjoint slabs cs → Settled (some (length slabs)) mark cs
  elsewhere mark [] d = tt
  elsewhere mark (c ∷ cs) ((i, e, lt, fits), apart, d) =
      (λ same. absurd (ground arith), elsewhere mark cs d)

  -- A new active slab, with the block at its start.
  fresh-Placed :
      (size : ℕ)
      → size < slab_size
      → Placed slab_size slabs active unused bs
      → Placed slab_size
          (slabs ++ slab_size ∷ [])
          (some (length slabs))
          (slab_size - size)
          (at_end slabs size ∷ bs)
  fresh-Placed size h v = record {
    active_fits = (
      omega arith,
      inr (
        length slabs,
        refl,
        omega (arith, length-append slabs (slab_size ∷ [])),
        omega (arith, get_or-last slabs slab_size),
      ),
    );
    disjoint = (
      at_end-Inside slabs slab_size size (omega arith),
      new-AllApart slabs slab_size size bs v.disjoint,
      Disjoint-grow slabs slab_size bs v.disjoint,
    );
    settled = (λ same. omega arith, elsewhere _ bs v.disjoint);
  }

  in_active : ℕ → Block
  in_active size = record {
    ptr = record { slab = active; offset = slab_size - unused };
    bytes = size;
  }

  in_active-AllApart :
      (size : ℕ)
      → 0 < size
      → size ≤ unused
      → ActiveFits slab_size slabs active unused
      → (cs : List Block) → Disjoint slabs cs
      → Settled active (slab_size - unused) cs
      → AllApart (in_active size) cs
  unfolding in_active
  in_active-AllApart size pos h f [] d s = tt
  in_active-AllApart size pos h (le, inl (e, z)) (c ∷ cs) d s = absurd (omega arith)
  in_active-AllApart size pos h (le, inr (i, e, lt, fits)) (c ∷ cs) ((j, e', lt', fits'), apart, d)
        (s, ss) =
      (
        elim (ℕ_discrete i j) [
          | yes same ↦ inr (inr (s (e' ∙ sym (ap some same) ∙ sym e)))
          | no other ↦ inl (λ same. other (some_injective i j (sym e ∙ same ∙ e')))
        ],
        in_active-AllApart size pos h (le, inr (i, e, lt, fits)) cs d ss,
      )

  in_active-Inside :
      (size : ℕ)
      → 0 < size
      → size ≤ unused
      → ActiveFits slab_size slabs active unused
      → Inside slabs (in_active size)
  unfolding in_active
  in_active-Inside size pos h (le, inl (e, z)) = absurd (omega arith)
  in_active-Inside size pos h (le, inr (i, e, lt, fits)) = (i, e, lt, omega arith)

  shrunk :
      (size : ℕ)
      → ActiveFits slab_size slabs active unused
      → ActiveFits slab_size slabs active (unused - size)
  shrunk size (le, inl (e, z)) = (omega arith, inl (e, omega arith))
  shrunk size (le, inr fits) = (omega arith, inr fits)

  Settled-raise : (m n : ℕ) → m ≤ n → (cs : List Block) → Settled active m cs → Settled active n cs
  Settled-raise m n h [] s = tt
  Settled-raise m n h (c ∷ cs) (s, ss) = (λ same. omega (arith, s same), Settled-raise m n h cs ss)

  -- The next bytes of the active slab.
  active-Placed :
      (size : ℕ)
      → 0 < size
      → size ≤ unused
      → Placed slab_size slabs active unused bs
      → Placed slab_size slabs active (unused - size) (in_active size ∷ bs)
  unfolding in_active
  active-Placed size pos h v = record {
    active_fits = shrunk size v.active_fits;
    disjoint = (
      in_active-Inside size pos h v.active_fits,
      in_active-AllApart size pos h v.active_fits bs v.disjoint v.settled,
      v.disjoint,
    );
    settled = (
      λ same. omega (arith, v.active_fits.0),
      Settled-raise (slab_size - unused) (slab_size - (unused - size)) (omega arith) bs v.settled,
    );
  }

abbrev pub Inv : Arena → List Block → Type 0
Inv a bs = Placed a.slab_size a.slabs a.active_slab a.active_slab_unused bs

abbrev pub block : Ptr → ℕ → Block
block p size = record { ptr = p; bytes = size }

pub call-Inv :
    (a : Arena) (c : Call) (bs : List Block)
    → 0 < requested c
    → Inv a bs
    → let r = call a c in Inv r.0 (block r.1 (requested c) ∷ bs)
unfolding call in_active
call-Inv a (allocates_slab size) bs pos v =
    large-Placed a.slab_size a.slabs a.active_slab a.active_slab_unused bs size v
call-Inv a (allocates size) bs pos v = elim (Bool-cases (leb a.slab_size size)) [
  | inl large ↦
      rw large (large-Placed a.slab_size a.slabs a.active_slab a.active_slab_unused bs size v)
  | inr small ↦ rw small (elim (Bool-cases (ltb a.active_slab_unused size)) [
    | inl full ↦ rw full (
        fresh-Placed a.slab_size a.slabs a.active_slab a.active_slab_unused bs size (ground arith)
          v)
    | inr room ↦ rw room (
        active-Placed a.slab_size a.slabs a.active_slab a.active_slab_unused bs size pos
          (ground arith) v)
  ])
]

-- Calls in a row: the arena after them and the blocks, newest first.
pub run : Arena → List Block → List Call → Arena × List Block
run a bs [] = (a, bs)
run a bs (c ∷ cs) = let (a', p) = call a c in run a' (block p (requested c) ∷ bs) cs

abbrev pub AllPositive : List Call → Type 0
AllPositive [] = Unit {0}
AllPositive (c ∷ cs) = (0 < requested c) × AllPositive cs

run-Inv :
    (a : Arena) (bs : List Block) (cs : List Call)
    → AllPositive cs
    → Inv a bs
    → let r = run a bs cs in Inv r.0 r.1
unfolding run
run-Inv a bs [] h v = v
run-Inv a bs (c ∷ cs) (pos, hs) v =
    run-Inv (call a c).0 (block (call a c).1 (requested c) ∷ bs) cs hs (call-Inv a c bs pos v)

pub init-Inv : (slab_size : ℕ) → Inv (init slab_size) []
unfolding init
init-Inv slab_size = record {
  active_fits = (omega arith, inl (refl, refl));
  disjoint = tt;
  settled = tt;
}

-- The blocks that any calls on a new arena return, of one byte at least each, lie inside the
-- slabs that the arena has obtained, and no two of them overlap.
pub run-init-Disjoint :
    (slab_size : ℕ) (cs : List Call)
    → AllPositive cs
    → let r = run (init slab_size) [] cs in Disjoint r.0.slabs r.1
run-init-Disjoint slab_size cs h = (run-Inv (init slab_size) [] cs h (init-Inv slab_size)).disjoint
