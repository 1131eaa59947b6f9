-- ===== src/Tempus.antt =====
-- The machines of tempus/src/logic.cpp.
-- An `int` of the source is a number, since ranks and clocks are never negative. Sends and internal
-- events raise a clock by one each, which in a run of 60 seconds with 6 steps a second at most stays
-- far from the largest `int`; the stamp of a message that arrives may be any. A socket is a number,
-- and `none` is an access outside `channels`. Random numbers, arrivals and the wall clock are
-- arguments.
pub mod Routing
pub mod Receiver
pub mod Node
pub mod Pacing
pub mod Setup
mod Runs
use cs.Prelude.{
  ℕ, zero, suc, ◌+◌, ◌-◌, ◌*◌, ◌^◌, ◌/◌, ◌%◌, ◌==◌, max, ltb, leb, if◌then◌else◌, not, Bool, Option,
  none, some, List, [], ◌∷◌, ◌++◌, length, get_elem?,
}
use cs.Prelude.Options.{◌>>=◌}

pub record Message : Type 0 where
  pub sender_rank : ℕ
  pub logical_timestamp : ℕ

-- `LogicalClock` is its value, an `int`. Past the largest one the addition overflows, which is `none`.
abbrev pub int_max : ℕ
int_max = 2 ^ 31 - 1

pub update_on_receive : ℕ → ℕ → Option ℕ
update_on_receive value received_timestamp =
    if ltb (max value received_timestamp) int_max
    then some (max value received_timestamp + 1)
    else none

pub increment : ℕ → ℕ
increment value = value + 1

-- `idle` is `NONE`.
pub data EventType : Type 0 where
  receive send_to_next send_to_second_next send_to_all internal idle : EventType

unfoldable pub decide_next_event : ℕ → ℕ → EventType
decide_next_event random internal_event_probability_cap =
    if leb random 1
    then send_to_next
    else if leb random 2
    then send_to_second_next
    else if leb random 3
    then send_to_all
    else if leb random internal_event_probability_cap
    then internal
    else idle

pub calculate_target_rank : ℕ → ℕ → ℕ → ℕ
calculate_target_rank source_rank target_offset num_vms = (source_rank + target_offset) % num_vms

pub calculate_channel_index : ℕ → ℕ → ℕ
calculate_channel_index source_rank target_rank =
    if ltb source_rank target_rank then target_rank - 1 else target_rank

-- The calls of `sendMessage`: the socket and the message.
abbrev pub Sends : Type 0
Sends = List (ℕ × Message)

pub send_offset : ℕ → ℕ → Message → List ℕ → ℕ → Option Sends
send_offset rank offset message channels num_vms =
    let target_rank = calculate_target_rank rank offset num_vms in
    let sends = get_elem? channels (calculate_channel_index rank target_rank) >>= λ channel.
    some ((channel, message) ∷ []) in
    if not (target_rank == rank) then sends else some []

-- The loop of `SEND_TO_ALL` from channel `i` on.
pub send_each : ℕ → ℕ → Message → List ℕ → Sends
send_each rank i message [] = []
send_each rank i message (channel ∷ channels) =
    let target_rank = if leb rank i then i + 1 else i in
    let rest = send_each rank (i + 1) message channels in
    if not (target_rank == rank) then (channel, message) ∷ rest else rest

pub handle_send_event : ℕ → EventType → ℕ → List ℕ → ℕ → Option (ℕ × Sends)
unfolding increment send_offset send_each
handle_send_event rank event_type clock channels num_vms =
    let clock' = increment clock in
    let out_msg : Message = record { sender_rank = rank; logical_timestamp = clock' } in
    elim event_type [
      | send_to_next ↦ send_offset rank 1 out_msg channels num_vms >>= λ sends. some (clock', sends)
      | send_to_second_next ↦
          send_offset rank 2 out_msg channels num_vms >>= λ sends. some (clock', sends)
      | send_to_all ↦ some (clock', send_each rank 0 out_msg channels)
      | _ ↦ some (clock', [])
    ]
