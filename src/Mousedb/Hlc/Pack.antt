-- ===== src/Mousedb/Hlc/Pack.antt =====
-- The packed state: 48 bits of microseconds over 16 bits of counter.
use cs.Prelude.{ℕ, ◌+◌, ◌*◌, ◌%◌, ◌^◌, ◌<◌, ◌≡◌, refl, arith}
use cs.Prelude.Bits.{or_high_low, and_mask}
use cs.Mousedb.Hlc.{pack, unpack_phys, unpack_log}

-- `pack` keeps the low 48 bits of the physical part, with no loss of the counter.
pub pack_lem : (phys log : ℕ) → log < 2 ^ 16 → pack phys log ≡ phys % 2 ^ 48 * 2 ^ 16 + log
unfolding pack
pack_lem phys log h = ground (arith, or_high_low 16 (phys % 2 ^ 48) log)

pub unpack-pack :
    (phys log : ℕ)
    → log < 2 ^ 16
    → (unpack_phys (pack phys log) ≡ phys % 2 ^ 48) × (unpack_log (pack phys log) ≡ log)
unfolding unpack_phys unpack_log
unpack-pack phys log h = (
  omega (arith, pack_lem phys log h),
  omega (arith, pack_lem phys log h, and_mask 16 0xFFFF (pack phys log) refl),
)
