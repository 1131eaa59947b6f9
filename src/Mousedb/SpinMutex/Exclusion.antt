-- ===== src/Mousedb/SpinMutex/Exclusion.antt =====
-- At most one thread has the lock.
use cs.Prelude.{
  ℕ, zero, suc, ◌+◌, ◌≤◌, ◌≡◌, refl, ap, ◌⊎◌, inl, inr, if◌then◌else◌, not, true, false, Bool, some,
  List, [], ◌∷◌, get_elem?, set, replicate, arith,
}
use cs.Mousedb.SpinMutex.{
  test_and_set, lock_round, try_lock, after_access, unlock, Phase, outside, spinning, inside,
  System, Step, calls_lock, spins, tries, unlocks, Reach, here, then_step,
}

abbrev pub has_lock : Phase → ℕ
has_lock outside = 0
has_lock spinning = 0
has_lock inside = 1

pub holders : List Phase → ℕ
holders [] = 0
holders (p ∷ threads) = has_lock p + holders threads

holders-set :
    (threads : List Phase) (i : ℕ) (old new : Phase)
    → get_elem? threads i ≡ some old
    → holders (set threads i new) + has_lock old ≡ holders threads + has_lock new
unfolding holders
holders-set [] i old new e = absurd (cc)
holders-set (p ∷ threads) zero old new e =
    let same : p ≡ old = cc in omega (arith, ap has_lock same)
holders-set (p ∷ threads) (suc i) old new e = omega (arith, holders-set threads i old new e)

-- The flag is set while one thread has the lock, and clear while none has.
abbrev pub of_flag : Bool → ℕ
of_flag true = 1
of_flag false = 0

of_flag_le : (flag : Bool) → of_flag flag ≤ 1
of_flag_le true = omega arith
of_flag_le false = omega arith

taken-holders :
    (s : System) (i : ℕ) (old : Phase) (flag : Bool)
    → get_elem? s.threads i ≡ some old
    → has_lock old ≡ 0
    → holders s.threads ≡ of_flag flag
    → holders (set s.threads i (if not flag then inside else old)) ≡ 1
taken-holders s i old true e n h = omega (arith, holders-set s.threads i old old e, n)
taken-holders s i old false e n h = omega (arith, holders-set s.threads i old inside e, n)

step-holders :
    (s t : System)
    → Step s t
    → holders s.threads ≡ of_flag s.flag
    → holders t.threads ≡ of_flag t.flag
unfolding after_access lock_round try_lock test_and_set unlock
step-holders _ _ (calls_lock s i e) h = omega (arith, holders-set s.threads i outside spinning e)
step-holders _ _ (spins s i e) h = taken-holders s i spinning s.flag e refl h
step-holders _ _ (tries s i e) h = taken-holders s i outside s.flag e refl h
step-holders _ _ (unlocks s i e) h =
    omega (arith, holders-set s.threads i inside outside e, of_flag_le s.flag)

reach-holders :
    (s t : System)
    → Reach s t
    → holders s.threads ≡ of_flag s.flag
    → holders t.threads ≡ of_flag t.flag
reach-holders _ _ (here s) h = h
reach-holders _ _ (then_step s u t r p) h = step-holders u t p (reach-holders s u r h)

no_holders : (n : ℕ) → holders (replicate n outside) ≡ 0
unfolding holders
no_holders zero = refl
no_holders (suc n) = omega (arith, no_holders n)

abbrev pub unlocked : ℕ → System
unlocked n = record { flag = false; threads = replicate n outside }

free :
    (flag : Bool)
    → of_flag flag ≡ 0
    → (lock_round flag ≡ (true, true)) × (try_lock flag ≡ (true, true))
unfolding lock_round try_lock test_and_set
free true h = absurd (cc)
free false h = (refl, refl)

-- However n threads take turns, at most one of them has the lock, and when none has it, the next
-- round of `lock` or call of `try_lock` takes it.
pub reach_exclusion :
    (n : ℕ) (s : System)
    → Reach (unlocked n) s
    → (holders s.threads ≤ 1)
      × ((holders s.threads ≡ 1)
          ⊎ ((lock_round s.flag ≡ (true, true)) × (try_lock s.flag ≡ (true, true))))
reach_exclusion n s r =
    let h = reach-holders (unlocked n) s r (no_holders n) in
    (omega (arith, of_flag_le s.flag), by_flag s.flag h)
  where
    by_flag :
        (flag : Bool)
        → holders s.threads ≡ of_flag flag
        → (holders s.threads ≡ 1)
          ⊎ ((lock_round flag ≡ (true, true)) × (try_lock flag ≡ (true, true)))
    by_flag true h = inl h
    by_flag false h = inr (free false refl)
