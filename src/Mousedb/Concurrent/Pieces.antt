-- ===== src/Mousedb/Concurrent/Pieces.antt =====
-- Blocks that are placed, in another order, without one of them, and with one cut in two.
use cs.Prelude.{ℕ, ◌+◌, ◌-◌, ◌≤◌, ◌≡◌, refl, sym, inl, inr, Option, List, [], ◌∷◌, ◌++◌, arith}
use mathlib.Core.Path.{subst}
use mathlib.Core.List.{Permᴰ}
use cs.Mousedb.Arena.{Ptr}
use cs.Mousedb.Arena.Blocks.{
  Block, Inside, Apart, AllApart, Disjoint, Settled, Placed, end_of, block,
}

Apart-sym : (b c : Block) → Apart b c → Apart c b
Apart-sym b c (inl other) = inl (λ same. other (sym same))
Apart-sym b c (inr (inl before)) = inr (inr before)
Apart-sym b c (inr (inr behind)) = inr (inl behind)

AllApart-Perm : {cs ds : List Block} (b : Block) → Permᴰ cs ds → AllApart b cs → AllApart b ds
AllApart-Perm b Permᴰ.nil d = tt
AllApart-Perm b (Permᴰ.cons e p) (d, ds) = (subst (Apart b) e d, AllApart-Perm b p ds)
AllApart-Perm b (Permᴰ.swap e f) (d, (d', ds)) = (subst (Apart b) f d', (subst (Apart b) e d, ds))
AllApart-Perm b (Permᴰ.trans p q) d = AllApart-Perm b q (AllApart-Perm b p d)

module _ (slabs : List ℕ) where
  Disjoint-swap :
      (b c : Block) (ds : List Block) → Disjoint slabs (b ∷ c ∷ ds) → Disjoint slabs (c ∷ b ∷ ds)
  Disjoint-swap b c ds (b_in, (bc, b_ds), (c_in, c_ds, d)) =
      (c_in, (Apart-sym b c bc, c_ds), (b_in, b_ds, d))

  Disjoint-Perm : {cs ds : List Block} → Permᴰ cs ds → Disjoint slabs cs → Disjoint slabs ds
  Disjoint-Perm Permᴰ.nil d = tt
  Disjoint-Perm (Permᴰ.cons {a} {b} {l₁} {l₂} e p) (inside, apart, d) = (
    subst (Inside slabs) e inside,
    subst (λ (c : Block). AllApart c l₂) e (AllApart-Perm a p apart),
    Disjoint-Perm p d,
  )
  Disjoint-Perm (Permᴰ.swap {a} {b} {a'} {b'} {l} e f) d =
      subst (λ (c : Block). Disjoint slabs (a' ∷ c ∷ l)) e
        (subst (λ (c : Block). Disjoint slabs (c ∷ a ∷ l)) f (Disjoint-swap a b l d))
  Disjoint-Perm (Permᴰ.trans p q) d = Disjoint-Perm q (Disjoint-Perm p d)

  pub Disjoint-append : (cs ds : List Block) → Disjoint slabs (cs ++ ds) → Disjoint slabs ds
  Disjoint-append [] ds d = d
  Disjoint-append (c ∷ cs) ds (inside, apart, d) = Disjoint-append cs ds d

Settled-Perm :
    {cs ds : List Block} (active : Option ℕ) (mark : ℕ)
    → Permᴰ cs ds
    → Settled active mark cs
    → Settled active mark ds
Settled-Perm active mark Permᴰ.nil s = tt
Settled-Perm active mark (Permᴰ.cons e p) (s, ss) = (
  subst (λ (c : Block). c.ptr.slab ≡ active → end_of c ≤ mark) e s,
  Settled-Perm active mark p ss,
)
Settled-Perm active mark (Permᴰ.swap e f) (s, (t, ss)) = (
  subst (λ (c : Block). c.ptr.slab ≡ active → end_of c ≤ mark) f t,
  (subst (λ (c : Block). c.ptr.slab ≡ active → end_of c ≤ mark) e s, ss),
)
Settled-Perm active mark (Permᴰ.trans p q) s =
    Settled-Perm active mark q (Settled-Perm active mark p s)

-- Behind the first bytes of a block.
abbrev pub past : ℕ → Ptr → Ptr
past n p = record p { offset = p.offset + n }

-- A part of a block is apart from what the block is apart from.
module _ (p q : Ptr) (m n : ℕ) (same : q.slab ≡ p.slab) (above : p.offset ≤ q.offset)
    (within : q.offset + m ≤ p.offset + n) where
  Apart-part : (c : Block) → Apart (block p n) c → Apart (block q m) c
  Apart-part c (inl other) = inl (λ e. other (cc))
  Apart-part c (inr (inl before)) = inr (inl (omega arith))
  Apart-part c (inr (inr behind)) = inr (inr (omega arith))

  AllApart-part : (cs : List Block) → AllApart (block p n) cs → AllApart (block q m) cs
  AllApart-part [] d = tt
  AllApart-part (c ∷ cs) (d, ds) = (Apart-part c d, AllApart-part cs ds)

  Inside-part : (slabs : List ℕ) → Inside slabs (block p n) → Inside slabs (block q m)
  Inside-part slabs (i, e, lt, fits) = (i, cc, lt, omega (arith, within))

module _ (slab_size : ℕ) (slabs : List ℕ) (active : Option ℕ) (unused : ℕ) where
  pub Placed-Perm :
      {bs cs : List Block}
      → Permᴰ bs cs
      → Placed slab_size slabs active unused bs
      → Placed slab_size slabs active unused cs
  Placed-Perm p v = record {
    active_fits = v.active_fits;
    disjoint = Disjoint-Perm slabs p v.disjoint;
    settled = Settled-Perm active (slab_size - unused) p v.settled;
  }

  pub Placed-drop :
      (b : Block) (bs : List Block)
      → Placed slab_size slabs active unused (b ∷ bs)
      → Placed slab_size slabs active unused bs
  Placed-drop b bs v = record {
    active_fits = v.active_fits;
    disjoint = v.disjoint.2;
    settled = v.settled.1;
  }

  -- The first `m` bytes and the others.
  pub Placed-cut :
      (p : Ptr) (m n : ℕ) (bs : List Block)
      → m ≤ n
      → Placed slab_size slabs active unused (block p n ∷ bs)
      → Placed slab_size slabs active unused (block p m ∷ block (past m p) (n - m) ∷ bs)
  Placed-cut p m n bs h v = record {
    active_fits = v.active_fits;
    disjoint = (
      Inside-part p p m n refl (omega arith) (omega (arith, h)) slabs v.disjoint.0,
      (
        inr (inl (omega arith)),
        AllApart-part p p m n refl (omega arith) (omega (arith, h)) bs v.disjoint.1,
      ),
      (
        Inside-part p (past m p) (n - m) n refl (omega arith) (omega (arith, h)) slabs v.disjoint.0,
        AllApart-part p (past m p) (n - m) n refl (omega arith) (omega (arith, h)) bs v.disjoint.1,
        v.disjoint.2,
      ),
    );
    settled =
        (λ e. omega (arith, h, v.settled.0 e), (λ e. omega (arith, h, v.settled.0 e), v.settled.1));
  }
