-- ===== src/Mousedb/Concurrent/Threads.antt =====
-- Threads take turns in calling `allocate`.
use cs.Prelude.{
  ℕ, ◌^◌, ◌≤◌, ◌<◌, ◌≡◌, refl, sym, ◌∙◌, Option, some, List, [], ◌∷◌, ◌++◌, length, replicate,
  length-replicate, zero, suc,
}
use cs.Prelude.Options.{◌>>=◌}
use mathlib.Core.Path.{subst}
use cs.Mousedb.Arena as Arena
use cs.Mousedb.Arena.Blocks.{Block, block, Disjoint, Inv, init-Inv}
use cs.Mousedb.Concurrent.{
  ConcurrentArena, Turn, empty_shard, init, round_up_to_power_of_two, concurrent_allocate,
}
use cs.Mousedb.Concurrent.Rounding.{round_up_to_power_of_two-LeastPower}
use cs.Mousedb.Concurrent.Pieces.{Disjoint-append}
use cs.Mousedb.Concurrent.Tails.{own, tails}
use cs.Mousedb.Concurrent.Blocks.{Kept}
use cs.Mousedb.Concurrent.Allocated.{allocate-Allocated}

-- The blocks that the calls return, newest first, each with the size asked for.
unfoldable pub run :
    ConcurrentArena → List Block → List (Turn × ℕ) → Option (ConcurrentArena × List Block)
run c users [] = some (c, users)
run c users ((t, size) ∷ calls) =
    concurrent_allocate t size c >>= λ r. run r.0 (block r.1 size ∷ users) calls

abbrev pub AllPositive : List (Turn × ℕ) → Type 0
AllPositive [] = Unit {0}
AllPositive ((t, size) ∷ calls) = (0 < size) × AllPositive calls

-- The calls return, and their blocks lie in the slabs of the arena, no two of them overlapping.
abbrev pub AllServed : Option (ConcurrentArena × List Block) → Type 0
AllServed answer =
    (c : ConcurrentArena) × (users : List Block) × (answer ≡ some (c, users))
    × Disjoint c.arena.slabs users

run-AllServed :
    (k : ℕ) (c : ConcurrentArena) (users : List Block) (calls : List (Turn × ℕ))
    → AllPositive calls
    → length c.shards ≡ 2 ^ k
    → Kept c users
    → AllServed (run c users calls)
unfolding run
run-AllServed k c users [] h e v =
    (c, users, refl, Disjoint-append c.arena.slabs (tails c.shards) users v.disjoint)
run-AllServed k c users ((t, size) ∷ calls) (pos, h) e v =
    let a = allocate-Allocated size users pos k t c e v in
    subst
      (λ (o : Option (ConcurrentArena × Arena.Ptr)).
        AllServed (o >>= λ r. run r.0 (block r.1 size ∷ users) calls))
      (sym a.answered)
      (run-AllServed k a.next (block a.ptr size ∷ users) calls h (a.same_length ∙ e) a.kept)

no_tails : (n : ℕ) → tails (replicate n empty_shard) ≡ []
no_tails zero = refl
no_tails (suc n) = from_rest (no_tails n)
  where
    from_rest :
        tails (replicate n empty_shard) ≡ []
        → own empty_shard ++ tails (replicate n empty_shard) ≡ []
    from_rest e = unfold own in e

init-Kept : (cpu_ids : ℕ → ℕ) (num_cpus slab_size : ℕ) → Kept (init cpu_ids num_cpus slab_size) []
unfolding init
init-Kept cpu_ids num_cpus slab_size =
    subst (λ (bs : List Block). Inv (Arena.init slab_size) (bs ++ []))
      (sym (no_tails (round_up_to_power_of_two num_cpus))) (init-Inv slab_size)

-- In a new arena for up to 2 ^ 63 processors and slabs of any size, however threads take turns,
-- whatever their `cpu_id_` is at the start, whatever they find of the locks and on whatever processors
-- they run: every call for one byte at least returns, using no shard that does not exist, and the
-- blocks lie in the slabs of the arena, no two of them overlapping.
pub run-init-AllServed :
    (cpu_ids : ℕ → ℕ) (num_cpus slab_size : ℕ) (calls : List (Turn × ℕ))
    → num_cpus ≤ 2 ^ 63
    → AllPositive calls
    → AllServed (run (init cpu_ids num_cpus slab_size) [] calls)
run-init-AllServed cpu_ids num_cpus slab_size calls few h =
    let (k, power, reached, least) = round_up_to_power_of_two-LeastPower num_cpus few in
    run-AllServed k (init cpu_ids num_cpus slab_size) [] calls h (counted ∙ power)
      (init-Kept cpu_ids num_cpus slab_size)
  where
    counted : length (init cpu_ids num_cpus slab_size).shards ≡ round_up_to_power_of_two num_cpus
    counted = unfold init in length-replicate (round_up_to_power_of_two num_cpus) empty_shard
