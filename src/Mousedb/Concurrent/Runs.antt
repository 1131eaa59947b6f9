-- ===== src/Mousedb/Concurrent/Runs.antt =====
-- Runs of the concurrent arena.
use cs.Prelude.{◌==◌, if◌then◌else◌, ℕ, ◌≡◌, refl, true, false, List, [], ◌∷◌, arith}
use cs.Mousedb.Concurrent.{Turn, init, spread, round_up_to_power_of_two}
use cs.Mousedb.Concurrent.Rounding.{LeastPower, round_up_to_power_of_two-LeastPower}
use cs.Mousedb.Concurrent.Threads.{run, AllServed, run-init-AllServed}

rounded : round_up_to_power_of_two 12 ≡ 16
unfolding round_up_to_power_of_two spread
rounded = refl

-- The first call finds the arena locked, the third its shard.
abbrev three_calls : List (Turn × ℕ)
three_calls =
    (record { thread = 0; arena_free = false; shard_free = true; cpu = 3 }, 24)
    ∷ (record { thread = 1; arena_free = true; shard_free = true; cpu = 1 }, 4000)
    ∷ (record { thread = 1; arena_free = false; shard_free = false; cpu = 5 }, 32)
    ∷ []

-- Thread 1 has used another arena.
abbrev started : ℕ → ℕ
started thread = if thread == 1 then 21 else 0

round_up_to_power_of_two-LeastPower_example : LeastPower 12 (round_up_to_power_of_two 12)
round_up_to_power_of_two-LeastPower_example = round_up_to_power_of_two-LeastPower 12 (omega arith)

run-init-AllServed_example : AllServed (run (init started 12 65536) [] three_calls)
run-init-AllServed_example =
    run-init-AllServed started 12 65536 three_calls (omega arith)
      (omega arith, (omega arith, (omega arith, tt)))
