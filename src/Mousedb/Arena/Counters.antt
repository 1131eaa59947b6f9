-- ===== src/Mousedb/Arena/Counters.antt =====
-- The counters that `used()`, `unused()` and `size()` report.
use cs.Prelude.{
  ℕ, ◌+◌, ◌%◌, ◌^◌, ◌≤◌, ◌<◌, ◌≡◌, refl, ltb, leb, if◌then◌else◌, List, [], ◌∷◌, ◌++◌, arith,
}
use cs.Prelude.Bits.{u64_mod}
use cs.Mousedb.Arena.{
  Arena, u64, optimize_slab_size, init, Call, allocates, allocates_slab, call, requested,
}

-- A slab size is at least a page, at most 2 GiB, and a multiple of the alignment.
pub optimize_slab_size_bounds :
    (n : ℕ)
    → (4096 ≤ optimize_slab_size n)
      × (optimize_slab_size n ≤ 2 ^ 31)
      × (optimize_slab_size n % 16 ≡ 0)
      × (n ≤ 2 ^ 31 → n ≤ optimize_slab_size n)
unfolding optimize_slab_size
optimize_slab_size_bounds n = (ground arith, ground arith, ground arith, ground arith)

abbrev pub sum : List ℕ → ℕ
sum [] = 0
sum (x ∷ xs) = x + sum xs

sum-append : (xs ys : List ℕ) → sum (xs ++ ys) ≡ sum xs + sum ys
sum-append [] ys = omega arith
sum-append (x ∷ xs) ys = omega (arith, sum-append xs ys)

-- What is left of the active slab when a call gives it up for a new one.
pub left_over : Arena → Call → ℕ
left_over a (allocates size) =
    if leb a.slab_size size
    then 0
    else if ltb a.active_slab_unused size
    then a.active_slab_unused
    else 0
left_over a (allocates_slab size) = 0

-- The memory that was ever asked for, the counters, and `extra`, as numbers modulo 2 ^ 64.
pub record Balanced (asked extra : ℕ) (a : Arena) : Type 0 where
  pub used_asked : u64 a.used ≡ u64 asked
  pub size_slabs : u64 a.size ≡ u64 (sum a.slabs)
  pub unused_extra : u64 (a.used + a.unused) ≡ u64 (a.size + extra)

abbrev pub InRange : Arena → Type 0
InRange a = (a.active_slab_unused ≤ a.slab_size) × (a.slab_size < u64_mod)

pub call-Balanced :
    (a : Arena) (c : Call) (asked extra : ℕ)
    → requested c < u64_mod
    → InRange a
    → Balanced asked extra a
    → Balanced (asked + requested c) (extra + left_over a c) (call a c).0
unfolding call left_over
call-Balanced a (allocates size) asked extra h r b = record {
  used_asked = ground arith;
  size_slabs =
      ground (arith, sum-append a.slabs (size ∷ []), sum-append a.slabs (a.slab_size ∷ []));
  unused_extra = ground arith;
}
call-Balanced a (allocates_slab size) asked extra h r b = record {
  used_asked = ground arith;
  size_slabs = ground (arith, sum-append a.slabs (size ∷ []));
  unused_extra = ground arith;
}

call-InRange : (a : Arena) (c : Call) → InRange a → InRange (call a c).0
unfolding call
call-InRange a (allocates size) r = ground arith
call-InRange a (allocates_slab size) r = ground arith

unfoldable pub run : Arena → List Call → Arena
run a [] = a
run a (c ∷ cs) = run (call a c).0 cs

abbrev pub AllRequestable : List Call → Type 0
AllRequestable [] = Unit {0}
AllRequestable (c ∷ cs) = (requested c < u64_mod) × AllRequestable cs

abbrev pub asked_by : List Call → ℕ
asked_by [] = 0
asked_by (c ∷ cs) = requested c + asked_by cs

pub left_over_by : Arena → List Call → ℕ
left_over_by a [] = 0
left_over_by a (c ∷ cs) = left_over a c + left_over_by (call a c).0 cs

run-Balanced :
    (a : Arena) (cs : List Call) (asked extra : ℕ)
    → AllRequestable cs
    → InRange a
    → Balanced asked extra a
    → Balanced (asked + asked_by cs) (extra + left_over_by a cs) (run a cs)
unfolding run left_over_by
run-Balanced a [] asked extra h r b = record {
  used_asked = omega (arith, b.used_asked);
  size_slabs = b.size_slabs;
  unused_extra = omega (arith, b.unused_extra);
}
run-Balanced a (c ∷ cs) asked extra (hc, hs) r b =
    let later =
      run-Balanced (call a c).0 cs (asked + requested c) (extra + left_over a c) hs
        (call-InRange a c r) (call-Balanced a c asked extra hc r b) in
    record {
      used_asked = omega (arith, later.used_asked);
      size_slabs = later.size_slabs;
      unused_extra = omega (arith, later.unused_extra);
    }

-- After any calls on a new arena, modulo 2 ^ 64: `used()` is the sum of the sizes asked for,
-- `size()` is the sum of the slabs, and `used() + unused()` exceeds `size()` by what was left of
-- each active slab that a call gave up.
pub run-init-Balanced :
    (slab_size : ℕ) (cs : List Call)
    → AllRequestable cs
    → Balanced (asked_by cs) (left_over_by (init slab_size) cs) (run (init slab_size) cs)
run-init-Balanced slab_size cs h =
    let total = run-Balanced (init slab_size) cs 0 0 h start empty in
    record {
      used_asked = omega (arith, total.used_asked);
      size_slabs = total.size_slabs;
      unused_extra = omega (arith, total.unused_extra);
    }
  where
    start : InRange (init slab_size)
    start = unfold init in (omega arith, omega (arith, optimize_slab_size_bounds slab_size))

    empty : Balanced 0 0 (init slab_size)
    empty = unfold init in record { used_asked = refl; size_slabs = refl; unused_extra = refl }
