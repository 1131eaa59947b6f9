-- ===== src/Mousedb/SpinMutex/Runs.antt =====
-- Runs of the lock.
use cs.Prelude.{◌≡◌, ◌≤◌, ◌⊎◌, refl, true, false, [], ◌∷◌}
use cs.Mousedb.SpinMutex.{
  lock_round, try_lock, after_access, outside, spinning, System, calls_lock, tries, Reach, here,
  then_step,
}
use cs.Mousedb.SpinMutex.Exclusion.{holders, unlocked, reach_exclusion}

abbrev one_waits : System
one_waits = record { flag = false; threads = spinning ∷ outside ∷ [] }

-- The second thread takes the lock while the first is in its loop.
abbrev second_has_it : System
second_has_it = after_access one_waits 1 outside (try_lock one_waits.flag)

abbrev both_run : Reach (unlocked 2) second_has_it
both_run =
    then_step (unlocked 2) one_waits second_has_it
      (then_step (unlocked 2) (unlocked 2) one_waits (here (unlocked 2))
        (calls_lock (unlocked 2) 0 refl))
      (tries one_waits 1 refl)

reach_exclusion_example :
    (holders second_has_it.threads ≤ 1)
    × ((holders second_has_it.threads ≡ 1)
        ⊎ ((lock_round second_has_it.flag ≡ (true, true))
            × (try_lock second_has_it.flag ≡ (true, true))))
reach_exclusion_example = reach_exclusion 2 second_has_it both_run
