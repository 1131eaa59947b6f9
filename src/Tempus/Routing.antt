-- ===== src/Tempus/Routing.antt =====
-- Which machines a send reaches.
use cs.Prelude.{
  ℕ, zero, suc, ◌+◌, ◌-◌, ◌%◌, ◌<◌, ◌≡◌, ◌≢◌, refl, ap, ◌∙◌, ◌==◌, ltb, leb, if◌then◌else◌,
  Bool-cases, inl, inr, some, List, [], ◌∷◌, map, get_elem?, arith,
}
use cs.Tempus.{
  Message, send_to_next, send_to_second_next, send_to_all, calculate_target_rank,
  calculate_channel_index, send_offset, send_each, handle_send_event, increment, Sends,
}
use native.Mathlib.Nat.{mod-lt}

-- The set-up in tempus/src/main.cpp gives a machine one socket for each other machine, at the index
-- `other_rank` below its own rank and `other_rank - 1` above it.
unfoldable pub channels_from : (ℕ → ℕ) → ℕ → ℕ → ℕ → List ℕ
channels_from socket_to rank zero i = []
channels_from socket_to rank (suc left) i =
    socket_to (if leb rank i then i + 1 else i) ∷ channels_from socket_to rank left (i + 1)

abbrev pub channels_of : (ℕ → ℕ) → ℕ → ℕ → List ℕ
channels_of socket_to rank num_vms = channels_from socket_to rank (num_vms - 1) 0

get_elem?-channels_from :
    (socket_to : ℕ → ℕ) (rank left i j : ℕ)
    → j < left
    → get_elem? (channels_from socket_to rank left i) j
      ≡ some (socket_to (if leb rank (i + j) then i + j + 1 else i + j))
unfolding channels_from
get_elem?-channels_from socket_to rank zero i j h = absurd (omega arith)
get_elem?-channels_from socket_to rank (suc left) i zero h =
    ap (λ (k : ℕ). some (socket_to (if leb rank k then k + 1 else k))) (omega arith)
get_elem?-channels_from socket_to rank (suc left) i (suc j) h =
    get_elem?-channels_from socket_to rank left (i + 1) j (omega arith)
    ∙ ap (λ (k : ℕ). some (socket_to (if leb rank k then k + 1 else k))) (omega arith)

-- The index that is calculated for another machine is that of its socket.
get_elem?-channels_of :
    (socket_to : ℕ → ℕ) (rank target num_vms : ℕ)
    → rank < num_vms
    → target < num_vms
    → target ≢ rank
    → get_elem? (channels_of socket_to rank num_vms) (calculate_channel_index rank target)
      ≡ some (socket_to target)
unfolding calculate_channel_index
get_elem?-channels_of socket_to rank target num_vms r t n =
    get_elem?-channels_from socket_to rank (num_vms - 1) 0
      (if ltb rank target then target - 1 else target) (ground arith)
    ∙ ap (λ (k : ℕ). some (socket_to k)) (ground arith)

send_each-map :
    (socket_to : ℕ → ℕ) (rank left i : ℕ) (message : Message)
    → send_each rank i message (channels_from socket_to rank left i)
      ≡ map (λ channel. (channel, message)) (channels_from socket_to rank left i)
unfolding send_each channels_from
send_each-map socket_to rank zero i message = refl
send_each-map socket_to rank (suc left) i message =
    ground (arith, send_each-map socket_to rank left (i + 1) message)

-- What a send by offset sends: nothing when the offset leads back to the sender, and otherwise one
-- message, on the socket that leads to the machine so many ranks on.
abbrev pub Routed : (ℕ → ℕ) → ℕ → ℕ → Message → Sends → Type 0
Routed socket_to rank target message sends =
    (target ≡ rank → sends ≡ []) × (target ≢ rank → sends ≡ (socket_to target, message) ∷ [])

send_offset-Routed :
    (socket_to : ℕ → ℕ) (rank offset num_vms : ℕ) (message : Message)
    → rank < num_vms
    → (sends : Sends) × (send_offset rank offset message
          (channels_of socket_to rank num_vms)
          num_vms
        ≡ some sends)
      × Routed socket_to rank ((rank + offset) % num_vms) message sends
unfolding send_offset calculate_target_rank
send_offset-Routed socket_to rank offset num_vms message r =
    elim (Bool-cases ((rank + offset) % num_vms == rank)) [
      | inl same ↦ ([], rw same refl, ((λ e. refl), (λ n. absurd (n (ground arith)))))
      | inr other ↦ (
        (socket_to ((rank + offset) % num_vms), message) ∷ [],
        rw
            (
              other,
              get_elem?-channels_of socket_to rank ((rank + offset) % num_vms) num_vms r
                  (mod-lt (rank + offset) (omega arith)) (ground arith),
            )
            refl,
        ((λ e. absurd (ground arith)), (λ n. refl)),
      )
    ]

abbrev pub stamped : ℕ → ℕ → Message
stamped rank clock = record { sender_rank = rank; logical_timestamp = clock + 1 }

-- Each kind of send raises the clock by one and stamps its messages with the new value; the two
-- sends by offset reach the machine one or two ranks on, unless that is the sender, and the send
-- to all puts one message on each of the sockets, which are those to all other machines. No access
-- falls outside `channels`.
pub handle_send_event-Routed :
    (socket_to : ℕ → ℕ) (rank num_vms clock : ℕ)
    → rank < num_vms
    → let channels = channels_of socket_to rank num_vms in
      let message = stamped rank clock in
      ((sends : Sends) × (handle_send_event rank send_to_next clock channels num_vms
          ≡ some (clock + 1, sends))
        × Routed socket_to rank ((rank + 1) % num_vms) message sends)
      × ((sends : Sends) × (handle_send_event rank send_to_second_next clock channels num_vms
            ≡ some (clock + 1, sends))
          × Routed socket_to rank ((rank + 2) % num_vms) message sends)
      × (handle_send_event rank send_to_all clock channels num_vms
          ≡ some (clock + 1, map (λ channel. (channel, message)) channels))
      × ((target : ℕ)
          → target < num_vms
          → target ≢ rank
          → get_elem? channels (calculate_channel_index rank target) ≡ some (socket_to target))
unfolding handle_send_event increment
handle_send_event-Routed socket_to rank num_vms clock r =
    let message = stamped rank clock in
    let (s, e, routed) = send_offset-Routed socket_to rank 1 num_vms message r in
    let (s₂, e₂, routed₂) = send_offset-Routed socket_to rank 2 num_vms message r in
    (
      (s, rw e refl, routed),
      (s₂, rw e₂ refl, routed₂),
      rw (send_each-map socket_to rank (num_vms - 1) 0 message) refl,
      (λ target. λ t. λ n. get_elem?-channels_of socket_to rank target num_vms r t n),
    )
