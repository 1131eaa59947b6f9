-- ===== src/Tempus/Node.antt =====
-- The loop of `runNode`.
pub mod Order
use cs.Prelude.{
  ℕ, ◌==◌, if◌then◌else◌, leb, get_elem?, Option-cases, ◌+◌, ◌<◌, ◌≤◌, ◌≡◌, refl, sym, ap, ◌∙◌,
  Option, none, some, List, [], ◌∷◌, ◌++◌, length, max, arith, inl, inr, Bool-cases,
}
use cs.Prelude.Options.{◌>>=◌}
use cs.Tempus.{
  Message, EventType, receive, send_to_next, send_to_second_next, send_to_all, internal, idle,
  Sends, update_on_receive, increment, decide_next_event, handle_send_event, send_offset, send_each,
  calculate_target_rank, calculate_channel_index,
}
use mathlib.Core.Path.{subst}

pub record Node : Type 0 where
  pub clock : ℕ
  pub queue : List Message

-- What a step does, with the clock that it logs: a message taken with the length of the queue left,
-- sends, an internal event.
pub data Event : Type 0 where
  received : Message → ℕ → ℕ → Event
  sent : Sends → ℕ → Event
  counted : ℕ → Event

pub process_received_message : Message → ℕ → ℕ → Option (ℕ × Event)
unfolding update_on_receive
process_received_message msg clock queue_size =
    update_on_receive clock msg.logical_timestamp >>= λ clock'.
    some (clock', received msg queue_size clock')

module _ (rank : ℕ) (channels : List ℕ) (num_vms : ℕ) where
  -- The branch with no message, by the event drawn.
  pub perform : EventType → Node → Option (Node × List Event)
  unfolding increment
  perform event n =
      let sends = handle_send_event rank event n.clock channels num_vms >>= λ r.
      some (record n { clock = r.0 }, sent r.1 r.0 ∷ []) in
      elim event [
        | send_to_next ↦ sends
        | send_to_second_next ↦ sends
        | send_to_all ↦ sends
        | internal ↦ some (record n { clock = increment n.clock }, counted (increment n.clock) ∷ [])
        | _ ↦ some (n, [])
      ]

  -- One iteration, with the messages that have arrived since the last and the random number.
  pub step : Node → List Message → ℕ → Option (Node × List Event)
  unfolding process_received_message
  step n arrived random = elim (n.queue ++ arrived) [
    | [] ↦ perform (decide_next_event random 10) (record n { queue = [] })
    | msg ∷ queue ↦ process_received_message msg n.clock (length queue) >>= λ (clock, event).
        some (record { clock = clock; queue = queue }, event ∷ [])
  ]

  pub run_steps : Node → List (List Message × ℕ) → Option (Node × List Event)
  run_steps n [] = some (n, [])
  run_steps n (i ∷ is) = step n i.0 i.1 >>= λ first.
      run_steps first.0 is >>= λ later. some (later.0, first.1 ++ later.1)
