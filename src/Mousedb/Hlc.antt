-- ===== src/Mousedb/Hlc.antt =====
-- The hybrid logical clock of mousedb/server/exe_server/src/hlc.hpp.
-- Integers are numbers with the wrap of their C++ type written out: the counter is a `uint16_t`,
-- the packed state a `uint64_t`. Wall-clock readings are arguments.
pub mod Order
pub mod Pack
pub mod Advance
pub mod Lww
pub mod Monotone
pub mod Wide
mod Runs
use cs.Prelude.{
  ℕ, ◌+◌, ◌%◌, ◌^◌, Bool, true, false, ◌&&◌, not, Option, none, some, List, [], ◌∷◌, bit_and,
  bit_or, max, ltb, ◌==◌, if◌then◌else◌,
}
use cs.Prelude.Bits.{shl64, shr}

pub record Hlc : Type 0 where
  pub physical_us : ℕ
  pub logical : ℕ
  pub node_id : ℕ

-- `operator<=>` compares the three fields as a tuple; this is `a < b`.
unfoldable pub less : Hlc → Hlc → Bool
less a b =
    if ltb a.physical_us b.physical_us
    then true
    else if ltb b.physical_us a.physical_us
    then false
    else if ltb a.logical b.logical
    then true
    else if ltb b.logical a.logical
    then false
    else ltb a.node_id b.node_id

abbrev pub u16 : ℕ → ℕ
u16 x = x % 2 ^ 16

pub pack : ℕ → ℕ → ℕ
pack phys log = bit_or (shl64 phys 16) log

pub unpack_phys : ℕ → ℕ
unpack_phys x = shr x 16

pub unpack_log : ℕ → ℕ
unpack_log x = u16 (bit_and x 0xFFFF)

-- The physical part and the counter that one round of `advance` computes from the state, the
-- wall clock `now` and the remote clock.
pub merged_phys : ℕ → ℕ → Option Hlc → ℕ
merged_phys old_phys now (some remote) = max (max now remote.physical_us) old_phys
merged_phys old_phys now none = if ltb now old_phys then old_phys else now

pub merged_log : ℕ → ℕ → ℕ → Option Hlc → ℕ
merged_log phys old_phys old_log (some remote) =
    let same_local = phys == old_phys in
    let same_remote = phys == remote.physical_us in
    if same_local && same_remote
    then u16 (max old_log remote.logical + 1)
    else if same_local
    then u16 (old_log + 1)
    else if same_remote
    then u16 (remote.logical + 1)
    else 0
merged_log phys old_phys old_log none = if phys == old_phys then u16 (old_log + 1) else 0

-- What one round would return, from the state `loop` that it has loaded.
pub attempt : ℕ → ℕ → ℕ → Option Hlc → Hlc
unfolding merged_phys merged_log unpack_phys unpack_log
attempt node_id loop now remote =
    let phys = merged_phys (unpack_phys loop) now remote in
    record {
      physical_us = phys;
      logical = merged_log phys (unpack_phys loop) (unpack_log loop) remote;
      node_id = node_id;
    }

-- One pass of `while (true)`: the reading of the wall clock, the value of `state_` that the weak
-- compare-exchange finds, and whether the exchange fails although the values agree.
pub record Round : Type 0 where
  pub now : ℕ
  pub current : ℕ
  pub spurious : Bool

-- What `advance` returns and the state that it leaves; `none` while it has not yet succeeded.
unfoldable pub advance : ℕ → Option Hlc → ℕ → List Round → Option (Hlc × ℕ)
unfolding attempt pack
advance node_id remote loop [] = none
advance node_id remote loop (r ∷ rounds) =
    let h = attempt node_id loop r.now remote in
    let retry = advance node_id remote r.current rounds in
    if r.current == loop && not r.spurious then some (h, pack h.physical_us h.logical) else retry

-- The constructor stores the wall clock with a zero counter.
pub init : ℕ → ℕ
unfolding pack
init now = pack now 0

-- Events of one node whose exchanges succeed at once: `now_send` has no remote clock,
-- `recv_and_merge` has one. The result lists the clocks handed out.
pub record Event : Type 0 where
  pub now : ℕ
  pub remote : Option Hlc

pub run : ℕ → ℕ → List Event → List Hlc
unfolding attempt pack
run node_id state [] = []
run node_id state (e ∷ es) =
    let h = attempt node_id state e.now e.remote in
    h ∷ run node_id (pack h.physical_us h.logical) es
