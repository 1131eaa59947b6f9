-- ===== src/Tempus/Runs.antt =====
-- Runs of a machine.
use cs.Prelude.{◌≤◌, ℕ, ◌+◌, ◌<◌, ◌≡◌, ◌≢◌, refl, some, List, [], ◌∷◌, ◌++◌, map, get_elem?, arith}
use cs.Tempus.{
  int_max, Message, send_to_next, send_to_second_next, send_to_all, handle_send_event,
  calculate_channel_index, Sends,
}
use cs.Tempus.Routing.{channels_of, channels_from, Routed, handle_send_event-Routed}
use cs.Tempus.Receiver.{Channel, receive_all, receive_some, message_of}
use cs.Tempus.Receiver.Reassembly.{Delivers, stream_of, receive_all-Delivers}
use cs.Tempus.Node.{Node, Event, run_steps}
use cs.Tempus.Node.Order.{Ordered, run_steps-Ordered}
use cs.Prelude.Bytes.{le_bytes, of_le_bytes}
use cs.Tempus.Receiver.{bytes_of}

abbrev socket : ℕ → ℕ
socket rank = rank + 100

-- Machine 1 of 3, sending to all, has the sockets of machines 0 and 2.
to_all_sockets : channels_of socket 1 3 ≡ 100 ∷ 102 ∷ []
unfolding channels_from
to_all_sockets = refl

abbrev stamp_8 : Message
stamp_8 = record { sender_rank = 1; logical_timestamp = 8 }

handle_send_event-Routed_example :
    ((sends : Sends) × (handle_send_event 1 send_to_next 7 (channels_of socket 1 3) 3
        ≡ some (8, sends))
      × Routed socket 1 2 stamp_8 sends)
    × ((sends : Sends) × (handle_send_event 1 send_to_second_next 7 (channels_of socket 1 3) 3
          ≡ some (8, sends))
        × Routed socket 1 0 stamp_8 sends)
    × (handle_send_event 1 send_to_all 7 (channels_of socket 1 3) 3
        ≡ some (8, map (λ channel. (channel, stamp_8)) (channels_of socket 1 3)))
    × ((target : ℕ)
        → target < 3
        → target ≢ 1
        → get_elem? (channels_of socket 1 3) (calculate_channel_index 1 target)
          ≡ some (socket target))
handle_send_event-Routed_example = handle_send_event-Routed socket 1 3 7 (omega arith)

abbrev idle_node : Node
idle_node = record { clock = 7; queue = [] }

-- A message with a later clock arrives, then three draws.
abbrev four_steps : List (List Message × ℕ)
four_steps =
    (record { sender_rank = 0; logical_timestamp = 20 } ∷ [], 5) ∷ ([], 3) ∷ ([], 9) ∷ ([], 1) ∷ []

run_steps-Ordered_example :
    (n : Node) × (events : List Event) × (run_steps 1
        (channels_of socket 1 3)
        3
        idle_node
        four_steps
      ≡ some (n, events))
    × (n.clock ≤ int_max)
    × Ordered 1 (channels_of socket 1 3) 3 7 events
run_steps-Ordered_example =
    run_steps-Ordered socket 1 3 (omega arith) idle_node four_steps (omega arith) tt
      ((omega arith, tt), (tt, (tt, (tt, tt))))

abbrev one_message : Message
one_message = record { sender_rank = 2; logical_timestamp = 300 }

abbrev fresh_channel : Channel
fresh_channel = record { buf = []; incoming = 2 ∷ 0 ∷ 0 ∷ 0 ∷ 44 ∷ 1 ∷ 0 ∷ 0 ∷ [] }

fresh_channel-Delivers : Delivers fresh_channel (one_message ∷ [])
unfolding stream_of bytes_of le_bytes
fresh_channel-Delivers = record { partial = omega arith; stream = refl }

abbrev done_channel : Channel
done_channel = record { buf = []; incoming = [] }

three_receptions :
    receive_all fresh_channel (3 ∷ 2 ∷ 100 ∷ []) ≡ some (done_channel, one_message ∷ [])
unfolding receive_all receive_some message_of of_le_bytes
three_receptions = refl

receive_all-Delivers_example :
    (rest : List Message) × (one_message ∷ [] ≡ (one_message ∷ []) ++ rest)
    × Delivers done_channel rest
receive_all-Delivers_example =
    receive_all-Delivers fresh_channel (one_message ∷ []) (3 ∷ 2 ∷ 100 ∷ []) done_channel
      (one_message ∷ []) ((omega arith, omega arith), tt) fresh_channel-Delivers three_receptions
