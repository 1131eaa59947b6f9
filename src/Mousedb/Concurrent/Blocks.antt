-- ===== src/Mousedb/Concurrent/Blocks.antt =====
-- The blocks that the threads are given.
use cs.Prelude.{
  ℕ, ◌*◌, ◌/◌, ◌≤◌, ◌<◌, ◌≡◌, refl, ◌==◌, if◌then◌else◌, ltb, leb, Bool, Bool-cases, true, false,
  inl, inr, List, [], ◌∷◌, ◌++◌, arith,
}
use mathlib.Core.Path.{subst}
use mathlib.Core.List.{Permᴰ}
use mathlib.Core.List.Permᴰ
use cs.Mousedb.Arena.{Arena, allocates, call}
use cs.Mousedb.Arena.Blocks.{Block, block, Inv, call-Inv}
use cs.Mousedb.Concurrent.{Shard, ConcurrentArena, update, allocate_direct, refill_size, refill}
use cs.Mousedb.Concurrent.Pieces.{Placed-Perm, Placed-drop}
use cs.Mousedb.Concurrent.Tails.{own, tails}

pub Inv-Perm : (a : Arena) {bs cs : List Block} → Permᴰ bs cs → Inv a bs → Inv a cs
Inv-Perm a p v = Placed-Perm a.slab_size a.slabs a.active_slab a.active_slab_unused p v

Inv-drop : (a : Arena) (b : Block) (bs : List Block) → Inv a (b ∷ bs) → Inv a bs
Inv-drop a b bs v = Placed-drop a.slab_size a.slabs a.active_slab a.active_slab_unused b bs v

Inv-drop_own : (a : Arena) (s : Shard) (bs : List Block) → Inv a (own s ++ bs) → Inv a bs
unfolding own
Inv-drop_own a s bs v = by_size (s.unused == 0) v
  where
    by_size :
        (test : Bool) → Inv a ((if test then [] else block s.begin s.unused ∷ []) ++ bs) → Inv a bs
    by_size true w = w
    by_size false w = Inv-drop a (block s.begin s.unused) bs w

pub Inv-own :
    (a : Arena) (b : Block) (s : Shard) (bs : List Block)
    → Inv a (b ∷ block s.begin s.unused ∷ bs)
    → Inv a (b ∷ (own s ++ bs))
unfolding own
Inv-own a b s bs v = by_size (s.unused == 0)
  where
    by_size : (test : Bool) → Inv a (b ∷ ((if test then [] else block s.begin s.unused ∷ []) ++ bs))
    by_size true =
        Inv-drop a (block s.begin s.unused) (b ∷ bs) (Inv-Perm a (Permᴰ.swap refl refl) v)
    by_size false = v

Inv-positive_own :
    (a : Arena) (s : Shard) (bs : List Block)
    → 0 < s.unused
    → Inv a (own s ++ bs)
    → Inv a (block s.begin s.unused ∷ bs)
unfolding own
Inv-positive_own a s bs h v =
    let some_left : (s.unused == 0) ≡ false = ground (arith, h) in
    subst (λ (t : Bool). Inv a ((if t then [] else block s.begin s.unused ∷ []) ++ bs)) some_left v

-- What the shards have left and what the threads hold are placed in the arena.
abbrev pub Kept : ConcurrentArena → List Block → Type 0
Kept c users = Inv c.arena (tails c.shards ++ users)

pub direct-Kept :
    (size : ℕ) (c : ConcurrentArena) (users : List Block)
    → 0 < size
    → Kept c users
    → let r = allocate_direct size c in Kept r.0 (block r.1 size ∷ users)
unfolding allocate_direct update call
direct-Kept size c users pos v =
    Inv-Perm (call c.arena (allocates size)).0
      (Permᴰ.symm
        (Permᴰ.middle (block (call c.arena (allocates size)).1 size) (tails c.shards) users))
      (call-Inv c.arena (allocates size) (tails c.shards ++ users) pos v)

refill_size-large :
    (c : ConcurrentArena) (size : ℕ) → size ≤ c.slab_slice_size / 4 → size ≤ refill_size c
unfolding refill_size
refill_size-large c size h = elim (Bool-cases (leb (c.slab_slice_size / 2) c.unused)) [
  | inl enough ↦
      rw enough (by_upper (ltb c.unused (c.slab_slice_size * 2)) (ground (arith, enough, h)))
  | inr few ↦ rw few (omega (arith, h))
]
  where
    by_upper :
        (test : Bool) → size ≤ c.unused → size ≤ (if test then c.unused else c.slab_slice_size)
    by_upper true g = g
    by_upper false g = omega (arith, h)

-- Refilled or not, the shard has room.
pub record Room (size : ℕ) (c : ConcurrentArena) (bs : List Block) (r : ConcurrentArena × Shard)
    : Type 0 where
  pub placed : Inv r.0.arena (block r.1.begin r.1.unused ∷ bs)
  pub room : size ≤ r.1.unused
  pub same : r.0.shards ≡ c.shards

pub refill-Room :
    (size : ℕ) (c : ConcurrentArena) (s : Shard) (bs : List Block)
    → 0 < size
    → size ≤ c.slab_slice_size / 4
    → Inv c.arena (own s ++ bs)
    → Room size c bs (refill size c s)
unfolding refill update call
refill-Room size c s bs pos h v = elim (Bool-cases (ltb s.unused size)) [
  | inl few ↦ rw few (record {
    placed =
        call-Inv c.arena (allocates (refill_size c)) bs
          (omega (arith, pos, refill_size-large c size h)) (Inv-drop_own c.arena s bs v);
    room = refill_size-large c size h;
    same = refl;
  })
  | inr many ↦ rw many (record {
    placed = Inv-positive_own c.arena s bs (ground (arith, many, pos)) v;
    room = ground (arith, many);
    same = refl;
  })
]
