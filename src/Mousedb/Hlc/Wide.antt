-- ===== src/Mousedb/Hlc/Wide.antt =====
-- What happens when the wall clock does not fit the 48 bits that the packed state keeps. (2 ^ 48
-- microseconds after the epoch is in December 1978.)
use cs.Prelude.{
  Option, some, inl, inr, Bool-cases, ◌+◌, map, max, ltb, if◌then◌else◌, ℕ, zero, suc, ◌^◌, ◌≤◌,
  ◌<◌, ◌≡◌, refl, ap, ◌∙◌, none, List, [], ◌∷◌, replicate, true, arith,
}
use cs.Mousedb.Hlc.{Hlc, Event, u16, less, pack, attempt, run}
use cs.Mousedb.Hlc.Pack.{pack_lem}

abbrev pub stamp : ℕ → ℕ → Hlc
stamp node_id now = record { physical_us = now; logical = 0; node_id = node_id }

abbrev pub send_at : ℕ → Event
send_at now = record { now = now; remote = none }

-- A send returns the bare wall clock with a zero counter, whatever the state holds.
pub attempt_wide :
    (node_id loop now : ℕ)
    → loop < 2 ^ 64
    → 2 ^ 48 ≤ now
    → attempt node_id loop now none ≡ stamp node_id now
unfolding attempt
attempt_wide node_id loop now h w = ground arith

pack-lt : (phys : ℕ) → pack phys 0 < 2 ^ 64
pack-lt phys = omega (arith, pack_lem phys 0 (omega arith))

-- So the first send of a list is answered alike, and leaves the same state.
send_step :
    (node_id state now : ℕ) (es : List Event)
    → state < 2 ^ 64
    → 2 ^ 48 ≤ now
    → run node_id state (send_at now ∷ es) ≡ stamp node_id now ∷ run node_id (pack now 0) es
unfolding run
send_step node_id state now es h w =
    ap (λ (k : Hlc). k ∷ run node_id (pack k.physical_us k.logical) es)
      (attempt_wide node_id state now h w)

-- From a 64-bit state, sends within one microsecond at or after 2 ^ 48 all return the same clock.
pub run_repeats :
    (node_id state now n : ℕ)
    → state < 2 ^ 64
    → 2 ^ 48 ≤ now
    → run node_id state (replicate n (send_at now)) ≡ replicate n (stamp node_id now)
run_repeats node_id state now zero h w = unfold run in refl
run_repeats node_id state now (suc n) h w =
    send_step node_id state now (replicate n (send_at now)) h w
    ∙ ap (◌∷◌ (stamp node_id now)) (run_repeats node_id (pack now 0) now n (pack-lt now) w)

-- And when the wall clock steps back between two sends, the later clock is the smaller one.
pub run_retreats :
    (node_id state now earlier : ℕ)
    → state < 2 ^ 64
    → 2 ^ 48 ≤ earlier
    → earlier < now
    → (run node_id state (send_at now ∷ send_at earlier ∷ [])
        ≡ stamp node_id now ∷ stamp node_id earlier ∷ [])
      × (less (stamp node_id earlier) (stamp node_id now) ≡ true)
unfolding less
run_retreats node_id state now earlier h w lt = (
  send_step node_id state now (send_at earlier ∷ []) h (omega arith)
      ∙ ap (◌∷◌ (stamp node_id now))
          (send_step node_id (pack now 0) earlier [] (pack-lt now) w ∙ unfold run in refl),
  ground arith,
)

-- A clock that a node without a memory would hand out: the later one of the wall clock and the remote
-- clock, with a counter that only a remote clock that is not behind raises.
abbrev pub fresh : ℕ → ℕ → Option Hlc → Hlc
fresh node_id now none = stamp node_id now
fresh node_id now (some r) = record {
  physical_us = max now r.physical_us;
  logical = if ltb r.physical_us now then 0 else u16 (r.logical + 1);
  node_id = node_id;
}

abbrev pub AllWide : List Event → Type 0
AllWide [] = Unit {0}
AllWide (e ∷ es) = (2 ^ 48 ≤ e.now) × AllWide es

attempt-fresh :
    (node_id loop now : ℕ) (remote : Option Hlc)
    → loop < 2 ^ 64
    → 2 ^ 48 ≤ now
    → attempt node_id loop now remote ≡ fresh node_id now remote
unfolding attempt
attempt-fresh node_id loop now none h w = ground arith
attempt-fresh node_id loop now (some r) h w = ground arith

fresh_logical-lt :
    (node_id now : ℕ) (remote : Option Hlc) → (fresh node_id now remote).logical < 2 ^ 16
fresh_logical-lt node_id now none = omega arith
fresh_logical-lt node_id now (some r) = elim (Bool-cases (ltb r.physical_us now)) [
  | inl older ↦ rw older (omega arith)
  | inr newer ↦ rw newer (omega arith)
]

-- From a 64-bit state, with a wall clock of 2 ^ 48 microseconds since 1970 or more, as it has been since
-- the end of 1978, a node hands out the clocks of a node without a memory: whatever it has handed out
-- before, each is the later one of the wall clock and the remote clock, and its counter is 0, or
-- one more, modulo 2 ^ 16, than that of a remote clock that is not behind the wall clock.
pub run_forgets :
    (node_id state : ℕ) (es : List Event)
    → state < 2 ^ 64
    → AllWide es
    → run node_id state es ≡ map (λ (e : Event). fresh node_id e.now e.remote) es
unfolding run
run_forgets node_id state [] h w = refl
run_forgets node_id state (e ∷ es) h (wide, ws) =
    ap (λ (k : Hlc). k ∷ run node_id (pack k.physical_us k.logical) es)
      (attempt-fresh node_id state e.now e.remote h wide)
    ∙ ap (◌∷◌ (fresh node_id e.now e.remote))
        (run_forgets node_id (pack next.physical_us next.logical) es small ws)
  where
    next : Hlc
    next = fresh node_id e.now e.remote

    small : pack next.physical_us next.logical < 2 ^ 64
    small = omega (
      arith,
      pack_lem next.physical_us next.logical (fresh_logical-lt node_id e.now e.remote),
      fresh_logical-lt node_id e.now e.remote,
    )
