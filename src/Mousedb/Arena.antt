-- ===== src/Mousedb/Arena.antt =====
-- The slab allocator `Arena` of mousedb/server/lib_database/src/arena.cpp.
-- The memory of a slab is not modelled here: a slab is its size, and a pointer the number of a slab
-- with an offset (`none` for an offset from `nullptr`). A `size_t` is a number below 2 ^ 64, with
-- the wrap written out. The maximal alignment is that of the x86-64 ABI.
pub mod Blocks
pub mod Counters
mod Runs
use cs.Prelude.{
  ℕ, ◌+◌, ◌-◌, ◌*◌, ◌/◌, ◌%◌, ◌^◌, Bool, not, min, max, ltb, leb, ◌==◌, if◌then◌else◌, Option, none,
  some, List, [], ◌∷◌, ◌++◌, length,
}
use cs.Prelude.Bits.{u64_mod}

abbrev align_unit : ℕ
align_unit = 16

pub optimize_slab_size : ℕ → ℕ
optimize_slab_size slab_size =
    let clamped = min (max slab_size 4096) (2 * 2 ^ 30) in
    if not (clamped % align_unit == 0) then (1 + clamped / align_unit) * align_unit else clamped

pub record Ptr : Type 0 where
  pub slab : Option ℕ
  pub offset : ℕ

pub record Arena : Type 0 where
  pub slab_size : ℕ
  pub slabs : List ℕ
  pub active_slab : Option ℕ
  pub active_slab_unused : ℕ
  pub used : ℕ
  pub unused : ℕ
  pub size : ℕ

pub init : ℕ → Arena
unfolding optimize_slab_size
init slab_size = record {
  slab_size = optimize_slab_size slab_size;
  slabs = [];
  active_slab = none;
  active_slab_unused = 0;
  used = 0;
  unused = 0;
  size = 0;
}

abbrev pub u64 : ℕ → ℕ
u64 x = x % u64_mod

-- The new slab is the last one.
pub slabify : Arena → ℕ → Arena × ℕ
slabify a size =
    (record a { size = u64 (a.size + size); slabs = a.slabs ++ size ∷ [] }, length a.slabs)

-- The three ways through `allocate`, after `used_` has been raised.
abbrev at_start : ℕ → Ptr
at_start slab = record { slab = some slab; offset = 0 }

pub allocate_large : Arena → ℕ → Arena × Ptr
unfolding slabify
allocate_large a size = let (a', slab) = slabify a size in (a', at_start slab)

pub allocate_fresh : Arena → ℕ → Arena × Ptr
unfolding slabify
allocate_fresh a size =
    let a₁ = record a { unused = u64 (a.unused + (a.active_slab_unused + a.slab_size - size)) } in
    let (a₂, slab) = slabify a₁ a.slab_size in
    (record a₂ { active_slab = some slab; active_slab_unused = a.slab_size - size }, at_start slab)

pub allocate_active : Arena → ℕ → Arena × Ptr
allocate_active a size = (
  record a {
    active_slab_unused = a.active_slab_unused - size;
    unused = u64 (a.unused + u64_mod - size);
  },
  record { slab = a.active_slab; offset = a.slab_size - a.active_slab_unused },
)

pub allocate : Arena → ℕ → Arena × Ptr
unfolding allocate_large allocate_fresh allocate_active
allocate a size =
    let a' = record a { used = u64 (a.used + size) } in
    if leb a.slab_size size
    then allocate_large a' size
    else if ltb a.active_slab_unused size
    then allocate_fresh a' size
    else allocate_active a' size

pub allocate_slab : Arena → ℕ → Arena × Ptr
unfolding allocate_large
allocate_slab a size = allocate_large (record a { used = u64 (a.used + size) }) size

-- Calls in a row, the pointers newest first with the sizes asked for.
pub data Call : Type 0 where
  allocates allocates_slab : ℕ → Call

unfoldable pub call : Arena → Call → Arena × Ptr
unfolding allocate allocate_slab
call a (allocates size) = allocate a size
call a (allocates_slab size) = allocate_slab a size

abbrev pub requested : Call → ℕ
requested (allocates size) = size
requested (allocates_slab size) = size
