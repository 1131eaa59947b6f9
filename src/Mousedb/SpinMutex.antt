-- ===== src/Mousedb/SpinMutex.antt =====
-- The lock of mousedb/server/lib_database/src/spin_mutex.hpp, with the threads that use it.
-- Each access to the flag is atomic, so that a step of one thread is one access.
pub mod Exclusion
mod Runs
use cs.Prelude.{ℕ, ◌≡◌, not, if◌then◌else◌, Bool, true, false, Option, some, List, get_elem?, set}

-- `flag_.test_and_set()`: the flag after it and its old value.
pub test_and_set : Bool → Bool × Bool
test_and_set flag = (true, flag)

-- One round of the loop in `lock`, and `try_lock`: the flag, and whether the lock has been taken.
pub lock_round : Bool → Bool × Bool
lock_round flag = let (flag', old) = test_and_set flag in (flag', not old)

pub try_lock : Bool → Bool × Bool
try_lock flag = let (flag', old) = test_and_set flag in (flag', not old)

-- `flag_.clear()`
pub unlock : Bool → Bool
unlock flag = false

-- Where a thread is: it has not called `lock`, is in its loop, or has the lock.
pub data Phase : Type 0 where
  outside spinning inside : Phase

pub record System : Type 0 where
  pub flag : Bool
  pub threads : List Phase

-- The system after an access by thread i, which is inside if it has taken the lock.
pub after_access : System → ℕ → Phase → Bool × Bool → System
after_access s i otherwise (flag, taken) = record {
  flag = flag;
  threads = set s.threads i (if taken then inside else otherwise);
}

-- A thread calls `lock`, takes a round of its loop, calls `try_lock`, or calls `unlock`, as only one
-- that has the lock does.
pub data Step : System → System → Type 0 where
  calls_lock :
      (s : System) (i : ℕ)
      → get_elem? s.threads i ≡ some outside
      → Step s (record s { threads = set s.threads i spinning })
  spins :
      (s : System) (i : ℕ)
      → get_elem? s.threads i ≡ some spinning
      → Step s (after_access s i spinning (lock_round s.flag))
  tries :
      (s : System) (i : ℕ)
      → get_elem? s.threads i ≡ some outside
      → Step s (after_access s i outside (try_lock s.flag))
  unlocks :
      (s : System) (i : ℕ)
      → get_elem? s.threads i ≡ some inside
      → Step s (record { flag = unlock s.flag; threads = set s.threads i outside })

pub data Reach : System → System → Type 0 where
  here : (s : System) → Reach s s
  then_step : (s t u : System) → Reach s t → Step t u → Reach s u
