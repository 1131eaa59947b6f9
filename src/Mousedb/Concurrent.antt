-- ===== src/Mousedb/Concurrent.antt =====
-- `ConcurrentArena` of mousedb/server/lib_database/src/arena.cpp, which gives each processor a shard
-- of memory. A call holds the lock of its shard, or of the arena, around all that it changes there, and is
-- one step. What it finds of the locks and of the processors is an argument of it: which thread calls,
-- what each `try_lock` answers, and the processor that `reset_shard` is told.
pub mod Ors
pub mod Spreading
pub mod Rounding
pub mod Pieces
pub mod Tails
pub mod Threads
pub mod Blocks
pub mod Allocated
mod Runs
use cs.Prelude.{
  ℕ, ◌+◌, ◌-◌, ◌*◌, ◌/◌, ◌^◌, Bool, true, false, ◌&&◌, ◌||◌, min, ltb, leb, ◌==◌, if◌then◌else◌,
  bit_and, bit_or, Option, none, some, List, [], ◌∷◌, get_elem?, set, length, replicate, zero, suc,
}
use cs.Prelude.Bits.{shr}
use cs.Mousedb.Arena.{Arena, Ptr, allocate, u64}
use cs.Mousedb.Arena as Arena

-- `for (size_t i = 1; i < sizeof(size_t) * 8; i *= 2) n |= n >> i;`
pub spread : ℕ → ℕ → ℕ → ℕ
spread zero i n = n
spread (suc rounds) i n =
    let rest = spread rounds (i * 2) (bit_or n (shr n i)) in if ltb i 64 then rest else n

pub round_up_to_power_of_two : ℕ → ℕ
round_up_to_power_of_two n = if n == 0 then 1 else u64 (spread 7 1 (n - 1) + 1)

pub record Shard : Type 0 where
  pub begin : Ptr
  pub unused : ℕ

-- `cpu_id_` is a variable of each thread that all arenas share.
pub record ConcurrentArena : Type 0 where
  pub slab_slice_size : ℕ
  pub arena : Arena
  pub shards : List Shard
  pub cpu_ids : ℕ → ℕ
  pub used : ℕ
  pub unused : ℕ
  pub size : ℕ

abbrev pub nullptr : Ptr
nullptr = record { slab = none; offset = 0 }

abbrev pub empty_shard : Shard
empty_shard = record { begin = nullptr; unused = 0 }

-- A new arena finds what each thread's `cpu_id_` has become through the arenas before.
unfoldable pub init : (ℕ → ℕ) → ℕ → ℕ → ConcurrentArena
init cpu_ids num_cpus slab_size = record {
  slab_slice_size = min (128 * 1024) (slab_size / 8);
  arena = Arena.init slab_size;
  shards = replicate (round_up_to_power_of_two num_cpus) empty_shard;
  cpu_ids = cpu_ids;
  used = 0;
  unused = 0;
  size = 0;
}

pub record Turn : Type 0 where
  pub thread : ℕ
  pub arena_free : Bool
  pub shard_free : Bool
  pub cpu : ℕ

unfoldable pub update : ConcurrentArena → ConcurrentArena
update c = record c { used = c.arena.used; unused = c.arena.unused; size = c.arena.size }

-- The place of a shard in the vector.
unfoldable pub get_shard : ConcurrentArena → ℕ → ℕ
get_shard c cpu_id = bit_and cpu_id (length c.shards - 1)

-- `get_shard(0)->unused == 0`
abbrev pub is_empty : Option Shard → Bool
is_empty none = false
is_empty (some shard) = shard.unused == 0

unfoldable pub first_empty : ConcurrentArena → Bool
first_empty c = is_empty (get_elem? c.shards (get_shard c 0))

-- From the arena itself.
unfoldable pub allocate_direct : ℕ → ConcurrentArena → ConcurrentArena × Ptr
allocate_direct size c = let (a, p) = allocate c.arena size in (update (record c { arena = a }), p)

unfoldable pub refill_size : ConcurrentArena → ℕ
refill_size c =
    if leb (c.slab_slice_size / 2) c.unused && ltb c.unused (c.slab_slice_size * 2)
    then c.unused
    else c.slab_slice_size

-- A shard that has too little left is given more of the arena.
unfoldable pub refill : ℕ → ConcurrentArena → Shard → ConcurrentArena × Shard
refill size c shard =
    if ltb shard.unused size
    then (let (a, p) = allocate c.arena (refill_size c) in
        (update (record c { arena = a }), record { begin = p; unused = refill_size c }))
    else (c, shard)

-- The bytes are taken from the front of the shard.
unfoldable pub taken : ℕ → Shard → Shard
taken size shard = record {
  begin = record shard.begin { offset = shard.begin.offset + size };
  unused = shard.unused - size;
}

unfoldable pub allocate_in : ℕ → ℕ → ConcurrentArena → Option Shard → Option (ConcurrentArena × Ptr)
allocate_in i size c none = none
allocate_in i size c (some shard) =
    let (c', shard') = refill size c shard in
    some (record c' { shards = set c'.shards i (taken size shard') }, shard'.begin)

-- From the shard at a place, where there is one.
unfoldable pub allocate_at : ℕ → ℕ → ConcurrentArena → Option (ConcurrentArena × Ptr)
allocate_at i size c = allocate_in i size c (get_elem? c.shards i)

abbrev pub with_cpu_id : (ℕ → ℕ) → ℕ → ℕ → ℕ → ℕ
with_cpu_id cpu_ids thread cpu_id t = if t == thread then cpu_id else cpu_ids t

unfoldable pub reset_shard : Turn → ConcurrentArena → ConcurrentArena
reset_shard t c = record c {
  cpu_ids = with_cpu_id c.cpu_ids t.thread (bit_or t.cpu (length c.shards));
}

unfoldable pub allocate_shard : Turn → ℕ → ConcurrentArena → Option (ConcurrentArena × Ptr)
allocate_shard t size c =
    if t.shard_free
    then allocate_at (get_shard c (c.cpu_ids t.thread)) size c
    else allocate_at (get_shard c t.cpu) size (reset_shard t c)

unfoldable pub concurrent_allocate : Turn → ℕ → ConcurrentArena → Option (ConcurrentArena × Ptr)
concurrent_allocate t size c =
    if ltb (c.slab_slice_size / 4) size
      || ((c.cpu_ids t.thread == 0) && first_empty c && t.arena_free)
    then some (allocate_direct size c)
    else allocate_shard t size c
