-- ===== src/Mousedb/Hlc/Monotone.antt =====
-- Clocks that are handed out grow, as long as the wall clock fits the 48 bits that the packed
-- state keeps and the counter does not reach its last value.
use cs.Prelude.{
  ℕ, suc, ◌+◌, ◌^◌, ◌≤◌, ◌<◌, ◌≡◌, sym, true, Option, none, some, List, [], ◌∷◌, length, arith,
}
use mathlib.Core.Path.{subst}
use cs.Mousedb.Hlc.{Hlc, Event, less, pack, unpack_phys, unpack_log, attempt, run}
use cs.Mousedb.Hlc.Pack.{unpack-pack}

-- A clock whose physical part fits 48 bits and whose counter can still be raised `left` times.
abbrev pub Fits : ℕ → Hlc → Type 0
Fits left h = (h.physical_us < 2 ^ 48) × (h.logical + left ≤ 65535)

abbrev pub FitsRemote : ℕ → Option Hlc → Type 0
FitsRemote left none = Unit {0}
FitsRemote left (some h) = Fits left h

-- The packed state read as a clock of this node.
abbrev pub held : ℕ → ℕ → Hlc
held node_id loop = record {
  physical_us = unpack_phys loop;
  logical = unpack_log loop;
  node_id = node_id;
}

abbrev pub Exceeds : Hlc → Option Hlc → Type 0
Exceeds h none = Unit {0}
Exceeds h (some remote) = less remote h ≡ true

pub attempt-Exceeds :
    (node_id loop now left : ℕ) (remote : Option Hlc)
    → Fits (suc left) (held node_id loop)
    → now < 2 ^ 48
    → FitsRemote (suc left) remote
    → (less (held node_id loop) (attempt node_id loop now remote) ≡ true)
      × Exceeds (attempt node_id loop now remote) remote
      × Fits left (attempt node_id loop now remote)
unfolding attempt less
attempt-Exceeds node_id loop now left none f n r = (ground arith, tt, (ground arith, ground arith))
attempt-Exceeds node_id loop now left (some remote) f n r =
    (ground arith, ground arith, (ground arith, ground arith))

-- The state that a successful exchange stores reads back as the clock that is returned.
pub held-pack :
    (node_id loop now : ℕ) (remote : Option Hlc)
    → let h = attempt node_id loop now remote in
      Fits 0 h → held node_id (pack h.physical_us h.logical) ≡ h
unfolding attempt
held-pack node_id loop now remote f =
    let h = attempt node_id loop now remote in ground (arith, unpack-pack h.physical_us h.logical)

-- Every event of a list leaves room for `length es` more increments.
abbrev pub FitEvents : List Event → Type 0
FitEvents [] = Unit {0}
FitEvents (e ∷ es) = (e.now < 2 ^ 48) × FitsRemote (suc (length es)) e.remote × FitEvents es

-- Each clock exceeds the one before it, and the remote clock merged into it.
abbrev pub Increasing : Hlc → List Event → List Hlc → Type 0
Increasing h [] [] = Unit {0}
Increasing h (e ∷ es) (k ∷ ks) = (less h k ≡ true) × Exceeds k e.remote × Increasing k es ks
Increasing h [] (k ∷ ks) = ⊥
Increasing h (e ∷ es) [] = ⊥

Fits-weaken : (left : ℕ) (h : Hlc) → Fits left h → Fits 0 h
Fits-weaken left h f = (f.0, omega arith)

-- The clocks that a node hands out are strictly increasing and above each remote clock received,
-- provided that wall clock and remote clocks stay below 2 ^ 48 microseconds and the counters
-- leave room for the events.
pub run-Increasing :
    (node_id state : ℕ) (es : List Event)
    → Fits (length es) (held node_id state)
    → FitEvents es
    → Increasing (held node_id state) es (run node_id state es)
unfolding run
run-Increasing node_id state [] f fe = tt
run-Increasing node_id state (e ∷ es) f (now_fits, remote_fits, rest) = (
  step.0,
  step.1,
  subst (λ k. Increasing k es (run node_id next es)) back (later (run-Increasing node_id next es)),
)
  where
    h : Hlc
    h = attempt node_id state e.now e.remote

    step : (less (held node_id state) h ≡ true) × Exceeds h e.remote × Fits (length es) h
    step = attempt-Exceeds node_id state e.now (length es) e.remote f now_fits remote_fits

    back : held node_id (pack h.physical_us h.logical) ≡ h
    back = held-pack node_id state e.now e.remote (Fits-weaken (length es) h step.2)

    next : ℕ
    next = pack h.physical_us h.logical

    later :
        (Fits (length es) (held node_id next)
          → FitEvents es
          → Increasing (held node_id next) es (run node_id next es))
        → Increasing (held node_id next) es (run node_id next es)
    later ih = ih (subst (Fits (length es)) (sym back) step.2) rest
