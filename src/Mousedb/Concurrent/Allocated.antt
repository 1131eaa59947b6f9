-- ===== src/Mousedb/Concurrent/Allocated.antt =====
-- What a call of `allocate` keeps.
use cs.Prelude.{
  ℕ, ◌-◌, ◌/◌, ◌^◌, ◌≤◌, ◌<◌, ◌≡◌, refl, sym, ap, ◌∙◌, ◌==◌, if◌then◌else◌, ltb, Bool, Bool-cases,
  true, false, ◌&&◌, inl, inr, Option, some, List, ◌∷◌, ◌++◌, length, length-set, set, arith,
}
use cs.Prelude.Bits.{and_mask}
use mathlib.Core.Path.{subst}
use mathlib.Core.List.{Permᴰ}
use mathlib.Core.List.Permᴰ
use native.Mathlib.Nat.{mod-lt, one-le-pow}
use cs.Mousedb.Arena.{Ptr}
use cs.Mousedb.Arena.Blocks.{Block, block, Inv}
use cs.Mousedb.Concurrent.{
  Shard, ConcurrentArena, Turn, update, get_shard, allocate_direct, refill, taken, allocate_in,
  allocate_at, reset_shard, allocate_shard, concurrent_allocate, first_empty,
}
use cs.Mousedb.Concurrent.Pieces.{Placed-cut}
use cs.Mousedb.Concurrent.Tails.{own, tails, Place, place, tails_first}
use cs.Mousedb.Concurrent.Blocks.{Kept, Inv-Perm, Inv-own, direct-Kept, Room, refill-Room}

-- A call returns a block, placed apart from the others.
pub record Allocated (size : ℕ) (c : ConcurrentArena) (users : List Block)
    (answer : Option (ConcurrentArena × Ptr)) : Type 0 where
  pub next : ConcurrentArena
  pub ptr : Ptr
  pub answered : answer ≡ some (next, ptr)
  pub kept : Kept next (block ptr size ∷ users)
  pub same_length : length next.shards ≡ length c.shards

module _ (size : ℕ) (users : List Block) (pos : 0 < size) where
  allocate_in-Allocated :
      (i : ℕ) (c : ConcurrentArena) (p : Place c.shards i)
      → size ≤ c.slab_slice_size / 4
      → Kept c users
      → Allocated size c users (allocate_in i size c (some p.shard))
  unfolding allocate_in
  allocate_in-Allocated i c p h v = record {
    next = record r.0 { shards = set r.0.shards i t };
    ptr = r.1.begin;
    answered = refl;
    kept =
        subst (λ (ss : List Shard). Inv r.0.arena (tails ss ++ (block r.1.begin size ∷ users)))
          (sym (ap (λ (ss : List Shard). set ss i t) room.same ∙ p.replaced t))
          (Inv-Perm r.0.arena
            (Permᴰ.trans (Permᴰ.cons refl (Permᴰ.symm (tails_first p.before p.behind t users))) (
              Permᴰ.symm
                (Permᴰ.middle (block r.1.begin size) (tails (p.before ++ (t ∷ p.behind))) users)))
            split);
    same_length = length-set r.0.shards i t ∙ ap (λ (ss : List Shard). length ss) room.same;
  }
    where
      others : List Block
      others = tails (p.before ++ p.behind) ++ users

      r : ConcurrentArena × Shard
      r = refill size c p.shard

      t : Shard
      t = taken size r.1

      first : Inv c.arena (own p.shard ++ others)
      first =
          Inv-Perm c.arena (tails_first p.before p.behind p.shard users)
            (subst (λ (ss : List Shard). Inv c.arena (tails ss ++ users)) p.here v)

      room : Room size c others r
      room = refill-Room size c p.shard others pos h first

      split : Inv r.0.arena (block r.1.begin size ∷ (own t ++ others))
      split =
          unfold taken in
          Inv-own r.0.arena (block r.1.begin size) t others (
            Placed-cut r.0.arena.slab_size r.0.arena.slabs r.0.arena.active_slab
              r.0.arena.active_slab_unused r.1.begin size r.1.unused others room.room room.placed)

  allocate_at-Allocated :
      (i : ℕ) (c : ConcurrentArena)
      → i < length c.shards
      → size ≤ c.slab_slice_size / 4
      → Kept c users
      → Allocated size c users (allocate_at i size c)
  unfolding allocate_at
  allocate_at-Allocated i c inside h v =
      let p = place c.shards i inside in
      subst (λ (o : Option Shard). Allocated size c users (allocate_in i size c o)) (sym p.found)
        (allocate_in-Allocated i c p h v)

  get_shard-lt :
      (k cpu_id : ℕ) (c : ConcurrentArena)
      → length c.shards ≡ 2 ^ k
      → get_shard c cpu_id < length c.shards
  unfolding get_shard
  get_shard-lt k cpu_id c e =
      let one_at_least : 1 ≤ 2 ^ k = one-le-pow k 2 (omega arith) in
      omega (
        arith,
        e,
        and_mask k (length c.shards - 1) cpu_id (omega (arith, e, one_at_least)),
        mod-lt cpu_id {m = 2 ^ k} one_at_least,
      )

  shard-Allocated :
      (k : ℕ) (t : Turn) (c : ConcurrentArena)
      → length c.shards ≡ 2 ^ k
      → size ≤ c.slab_slice_size / 4
      → Kept c users
      → Allocated size c users (allocate_shard t size c)
  unfolding allocate_shard
  shard-Allocated k t c e h v = by_lock t.shard_free
    where
      other :
          Allocated size
            (reset_shard t c)
            users
            (allocate_at (get_shard c t.cpu) size (reset_shard t c))
      other =
          unfold reset_shard in
          allocate_at-Allocated (get_shard c t.cpu) (reset_shard t c) (get_shard-lt k t.cpu c e) h v

      by_lock :
          (free : Bool)
          → Allocated size c users (
              if free
              then allocate_at (get_shard c (c.cpu_ids t.thread)) size c
              else allocate_at (get_shard c t.cpu) size (reset_shard t c))
      by_lock true =
          allocate_at-Allocated (get_shard c (c.cpu_ids t.thread)) c
            (get_shard-lt k (c.cpu_ids t.thread) c e) h v
      by_lock false =
          unfold reset_shard in
          record {
            next = other.next;
            ptr = other.ptr;
            answered = other.answered;
            kept = other.kept;
            same_length = other.same_length;
          }

  pub allocate-Allocated :
      (k : ℕ) (t : Turn) (c : ConcurrentArena)
      → length c.shards ≡ 2 ^ k
      → Kept c users
      → Allocated size c users (concurrent_allocate t size c)
  unfolding concurrent_allocate
  allocate-Allocated k t c e v = elim (Bool-cases (ltb (c.slab_slice_size / 4) size)) [
    | inl large ↦ rw large direct
    | inr small ↦ rw small (
        by_test ((c.cpu_ids t.thread == 0) && first_empty c && t.arena_free)
          (ground (arith, small)))
  ]
    where
      direct : Allocated size c users (some (allocate_direct size c))
      direct = record {
        next = (allocate_direct size c).0;
        ptr = (allocate_direct size c).1;
        answered = refl;
        kept = direct-Kept size c users pos v;
        same_length = unfold allocate_direct update in refl;
      }

      by_test :
          (test : Bool)
          → size ≤ c.slab_slice_size / 4
          → Allocated size c users
              (if test then some (allocate_direct size c) else allocate_shard t size c)
      by_test true h = direct
      by_test false h = shard-Allocated k t c e h v
