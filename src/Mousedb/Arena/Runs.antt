-- ===== src/Mousedb/Arena/Runs.antt =====
-- Runs of the allocator.
use cs.Prelude.{◌+◌, ◌≡◌, refl, List, [], ◌∷◌, arith}
use cs.Mousedb.Arena.{Call, allocates, allocates_slab, init, call}
use cs.Mousedb.Arena.Blocks.{Disjoint, run-init-Disjoint}
use cs.Mousedb.Arena.Blocks as Blocks
use cs.Mousedb.Arena.Counters.{Balanced, asked_by, left_over, left_over_by, run-init-Balanced}
use cs.Mousedb.Arena.Counters as Counters

-- The second call does not fit behind the first one, so 3996 bytes are given up.
abbrev two_slabs : List Call
two_slabs = allocates 100 ∷ allocates 4000 ∷ allocates_slab 50 ∷ allocates 5000 ∷ allocates 96 ∷ []

unused_twice : (Counters.run (init 4096) (allocates 100 ∷ allocates 4000 ∷ [])).unused ≡ 3996 + 4092
unfolding Counters.run call init
unused_twice = refl

run-init-Disjoint_example :
    Disjoint (Blocks.run (init 4096) [] two_slabs).0.slabs (Blocks.run (init 4096) [] two_slabs).1
run-init-Disjoint_example = run-init-Disjoint 4096 two_slabs (omega arith)

run-init-Balanced_example :
    Balanced
      (asked_by two_slabs)
      (left_over_by (init 4096) two_slabs)
      (Counters.run (init 4096) two_slabs)
run-init-Balanced_example = run-init-Balanced 4096 two_slabs (omega arith)
