-- ===== src/Tempus/Node/Order.antt =====
-- The order of a machine's events.
use cs.Prelude.{
  ℕ, ◌==◌, leb, ltb, suc, true, ◌≤◌, if◌then◌else◌, map, get_elem?, Option-cases, ◌+◌, ◌<◌, ◌≡◌,
  refl, sym, ap, ◌∙◌, Option, some, List, [], ◌∷◌, ◌++◌, length, max, arith, inl, inr, Bool-cases,
}
use cs.Prelude.Options.{◌>>=◌}
use cs.Tempus.{
  Message, EventType, receive, send_to_next, send_to_second_next, send_to_all, internal, idle,
  Sends, update_on_receive, increment, int_max, decide_next_event, handle_send_event, send_offset,
  send_each, calculate_target_rank, calculate_channel_index,
}
use mathlib.Core.Path.{subst}
use cs.Tempus.Routing.{channels_of, stamped, handle_send_event-Routed}
use cs.Tempus.Node.{
  Node, Event, received, sent, counted, process_received_message, perform, step, run_steps,
}

module _ (rank : ℕ) (channels : List ℕ) (num_vms : ℕ) where
  abbrev pub AllStamped : ℕ → Sends → Type 0
  AllStamped clock [] = Unit {0}
  AllStamped clock (s ∷ sends) =
      (s.1 ≡ record { sender_rank = rank; logical_timestamp = clock }) × AllStamped clock sends

  -- A received message is older than its reception, and messages carry the clock of their send.
  abbrev pub Justified : Event → Type 0
  Justified (received msg queue_size clock) = msg.logical_timestamp < clock
  Justified (sent sends clock) = AllStamped clock sends
  Justified (counted clock) = Unit {0}

  abbrev pub clock_of : Event → ℕ
  clock_of (received msg queue_size clock) = clock
  clock_of (sent sends clock) = clock
  clock_of (counted clock) = clock

  abbrev pub Ordered : ℕ → List Event → Type 0
  Ordered clock [] = Unit {0}
  Ordered clock (e ∷ es) = (clock < clock_of e) × Justified e × Ordered (clock_of e) es

  -- The clock after these events.
  abbrev pub clock_after : ℕ → List Event → ℕ
  clock_after clock [] = clock
  clock_after clock (e ∷ es) = clock_after (clock_of e) es

  send_each-AllStamped :
      (i clock : ℕ) (sockets : List ℕ)
      → AllStamped clock
          (send_each rank i (record { sender_rank = rank; logical_timestamp = clock }) sockets)
  unfolding send_each
  send_each-AllStamped i clock [] = tt
  send_each-AllStamped i clock (s ∷ sockets) =
      elim (Bool-cases ((if leb rank i then i + 1 else i) == rank)) [
        | inl own ↦ rw own (send_each-AllStamped (i + 1) clock sockets)
        | inr other ↦ rw other (refl, send_each-AllStamped (i + 1) clock sockets)
      ]

  send_offset-AllStamped :
      (offset clock : ℕ) (sends : Sends)
      → send_offset rank offset
          (record { sender_rank = rank; logical_timestamp = clock })
          channels
          num_vms
        ≡ some sends
      → AllStamped clock sends
  unfolding send_offset
  send_offset-AllStamped offset clock sends e =
      let target = calculate_target_rank rank offset num_vms in
      let message : Message = record { sender_rank = rank; logical_timestamp = clock } in
      elim (Bool-cases (target == rank)) [
        | inl own ↦
            let none_sent : [] ≡ sends = ground arith in subst (AllStamped clock) none_sent tt
        | inr other ↦
            elim (Option-cases (get_elem? channels (calculate_channel_index rank target))) [
              | inl outside ↦ absurd (ground arith)
              | inr (channel, inside) ↦
                  let one_sent : (channel, message) ∷ [] ≡ sends = ground arith in
                  subst (AllStamped clock) one_sent (refl, tt)
            ]
      ]

  abbrev AfterSends : ℕ → ℕ → Sends → Type 0
  AfterSends clock clock' sends = (clock' ≡ clock + 1) × AllStamped clock' sends

  abbrev the_sends : ℕ → Sends → Option (ℕ × Sends)
  the_sends clock sends = some (clock, sends)

  abbrev the_step : Node → List Event → Option (Node × List Event)
  the_step n events = some (n, events)

  result :
      (clock clock' : ℕ) (made sends : Sends)
      → AllStamped (clock + 1) made
      → the_sends (clock + 1) made ≡ some (clock', sends)
      → AfterSends clock clock' sends
  result clock clock' made sends h e =
      let clocks : clock + 1 ≡ clock' = ground arith in
      let same : made ≡ sends = ground arith in
      (sym clocks, subst (λ c. AllStamped c sends) clocks (subst (AllStamped (clock + 1)) same h))

  offset_case :
      (offset clock clock' : ℕ) (sends : Sends)
      → (send_offset rank offset
            (record { sender_rank = rank; logical_timestamp = clock + 1 })
            channels
            num_vms
          >>= λ sends. the_sends (clock + 1) sends)
        ≡ some (clock', sends)
      → AfterSends clock clock' sends
  offset_case offset clock clock' sends e =
      let message : Message = record { sender_rank = rank; logical_timestamp = clock + 1 } in
      elim (Option-cases (send_offset rank offset message channels num_vms)) [
        | inl failed ↦ absurd (ground arith)
        | inr (made, ok) ↦
            result clock clock' made sends (send_offset-AllStamped offset (clock + 1) made ok)
              (ground arith)
      ]

  handle_send_event-AfterSends :
      (event : EventType) (clock clock' : ℕ) (sends : Sends)
      → handle_send_event rank event clock channels num_vms ≡ some (clock', sends)
      → AfterSends clock clock' sends
  unfolding handle_send_event increment
  handle_send_event-AfterSends send_to_next clock clock' sends e =
      offset_case 1 clock clock' sends e
  handle_send_event-AfterSends send_to_second_next clock clock' sends e =
      offset_case 2 clock clock' sends e
  handle_send_event-AfterSends send_to_all clock clock' sends e =
      result clock clock' _ sends (send_each-AllStamped 0 (clock + 1) channels) e
  handle_send_event-AfterSends receive clock clock' sends e = result clock clock' [] sends tt e
  handle_send_event-AfterSends internal clock clock' sends e = result clock clock' [] sends tt e
  handle_send_event-AfterSends idle clock clock' sends e = result clock clock' [] sends tt e

  abbrev After : ℕ → Node → List Event → Type 0
  After clock n' events = Ordered clock events × (n'.clock ≡ clock_after clock events)

  no_event :
      (n n' : Node) (events : List Event)
      → the_step n [] ≡ some (n', events)
      → After n.clock n' events
  no_event n n' events e =
      let nodes : n ≡ n' = ground arith in
      let same : [] ≡ events = ground arith in
      subst (After n.clock n') same (tt, sym (ap (λ (m : Node). m.clock) nodes))

  one_event :
      (clock : ℕ) (event : Event) (m n' : Node) (events : List Event)
      → clock < clock_of event
      → Justified event
      → m.clock ≡ clock_of event
      → the_step m (event ∷ []) ≡ some (n', events)
      → After clock n' events
  one_event clock event m n' events later just c e =
      let nodes : m ≡ n' = ground arith in
      let same : event ∷ [] ≡ events = ground arith in
      subst (After clock n') same ((later, just, tt), sym (ap (λ (m : Node). m.clock) nodes) ∙ c)

  sends_case :
      (event : EventType) (n n' : Node) (events : List Event)
      → (handle_send_event rank event n.clock channels num_vms >>= λ r.
          the_step (record n { clock = r.0 }) (sent r.1 r.0 ∷ []))
        ≡ some (n', events)
      → After n.clock n' events
  sends_case event n n' events e =
      elim (Option-cases (handle_send_event rank event n.clock channels num_vms)) [
        | inl failed ↦ absurd (ground arith)
        | inr ((clock, sends), ok) ↦
            let (up, stamped) = handle_send_event-AfterSends event n.clock clock sends ok in
            one_event n.clock (sent sends clock) (record n { clock = clock }) n' events
              (omega arith) stamped refl (ground arith)
      ]

  perform-Ordered :
      (event : EventType) (n n' : Node) (events : List Event)
      → perform rank channels num_vms event n ≡ some (n', events)
      → Ordered n.clock events × (n'.clock ≡ clock_after n.clock events)
  unfolding perform increment
  perform-Ordered send_to_next n n' events e = sends_case send_to_next n n' events e
  perform-Ordered send_to_second_next n n' events e = sends_case send_to_second_next n n' events e
  perform-Ordered send_to_all n n' events e = sends_case send_to_all n n' events e
  perform-Ordered internal n n' events e =
      one_event n.clock (counted (n.clock + 1)) _ n' events (omega arith) tt refl e
  perform-Ordered receive n n' events e = no_event n n' events e
  perform-Ordered idle n n' events e = no_event n n' events e

  step-Ordered :
      (n : Node) (arrived : List Message) (random : ℕ) (n' : Node) (events : List Event)
      → step rank channels num_vms n arrived random ≡ some (n', events)
      → Ordered n.clock events × (n'.clock ≡ clock_after n.clock events)
  unfolding step process_received_message update_on_receive
  step-Ordered n arrived random n' events e = taken (n.queue ++ arrived) e
    where
      taken :
          (queue : List Message)
          → elim queue [
            | [] ↦
                perform rank channels num_vms
                  (decide_next_event random 10)
                  (record n { queue = [] })
            | msg ∷ queue ↦
                process_received_message msg n.clock (length queue) >>= λ (clock, event).
                the_step (record { clock = clock; queue = queue }) (event ∷ [])
          ]
            ≡ some (n', events)
          → After n.clock n' events
      taken [] e =
          perform-Ordered (decide_next_event random 10) (record n { queue = [] }) n' events e
      taken (msg ∷ queue) e = elim (Bool-cases (ltb (max n.clock msg.logical_timestamp) int_max)) [
        | inl fits ↦
            let clock = max n.clock msg.logical_timestamp + 1 in
            one_event n.clock (received msg (length queue) clock)
              (record { clock = clock; queue = queue }) n' events (omega arith) (omega arith) refl
              (rw fits at e)
        | inr overflows ↦ absurd (ground arith)
      ]

  Ordered-append :
      (clock : ℕ) (es fs : List Event)
      → Ordered clock es
      → Ordered (clock_after clock es) fs
      → Ordered clock (es ++ fs)
  Ordered-append clock [] fs h k = k
  Ordered-append clock (e ∷ es) fs (later, just, h) k =
      (later, just, Ordered-append (clock_of e) es fs h k)

  in_order :
      (n : Node) (inputs : List (List Message × ℕ)) (n' : Node) (events : List Event)
      → run_steps rank channels num_vms n inputs ≡ some (n', events)
      → Ordered n.clock events
  unfolding run_steps
  in_order n [] n' events e =
      let same : [] ≡ events = ground arith in subst (Ordered n.clock) same tt
  in_order n (i ∷ inputs) n' events e = elim (Option-cases (step rank channels num_vms n i.0 i.1)) [
    | inl failed ↦ absurd (ground arith)
    | inr ((n₁, events₁), first) ↦ elim (Option-cases (run_steps rank channels num_vms n₁ inputs)) [
      | inl failed ↦ absurd (ground arith)
      | inr ((n₂, events₂), later) ↦
          let (ordered, clock) = step-Ordered n i.0 i.1 n₁ events₁ first in
          let same : events₁ ++ events₂ ≡ events = ground arith in
          subst (Ordered n.clock) same (
            Ordered-append n.clock events₁ events₂ ordered
              (subst (λ c. Ordered c events₂) clock (in_order n₁ inputs n₂ events₂ later)))
    ]
  ]

module _ (socket_to : ℕ → ℕ) (rank num_vms : ℕ) (in_range : rank < num_vms) where
  abbrev sockets : List ℕ
  sockets = channels_of socket_to rank num_vms

  -- A step raises the clock by one at most.
  abbrev Performed : Node → Option (Node × List Event) → Type 0
  Performed n answer =
      (p : Node × List Event) × (answer ≡ some p)
      × (p.0.clock ≤ n.clock + 1)
      × (p.0.queue ≡ n.queue)

  perform_returns :
      (event : EventType) (n : Node) → Performed n (perform rank sockets num_vms event n)
  unfolding perform increment
  perform_returns send_to_next n =
      let ((sends, e, routed), _, _, _) =
        handle_send_event-Routed socket_to rank num_vms n.clock in_range in
      (
        (record n { clock = n.clock + 1 }, sent sends (n.clock + 1) ∷ []),
        rw e refl,
        omega arith,
        refl,
      )
  perform_returns send_to_second_next n =
      let (_, (sends, e, routed), _, _) =
        handle_send_event-Routed socket_to rank num_vms n.clock in_range in
      (
        (record n { clock = n.clock + 1 }, sent sends (n.clock + 1) ∷ []),
        rw e refl,
        omega arith,
        refl,
      )
  perform_returns send_to_all n =
      let (_, _, e, _) = handle_send_event-Routed socket_to rank num_vms n.clock in_range in
      (
        (
          record n { clock = n.clock + 1 },
          sent (map (λ s. (s, stamped rank n.clock)) sockets) (n.clock + 1) ∷ [],
        ),
        rw e refl,
        omega arith,
        refl,
      )
  perform_returns internal n = (_, refl, omega arith, refl)
  perform_returns receive n = ((n, []), refl, omega arith, refl)
  perform_returns idle n = ((n, []), refl, omega arith, refl)

  -- The messages' stamps are below the largest `int` by this much at least.
  abbrev pub AllBelow : ℕ → List Message → Type 0
  AllBelow left [] = Unit {0}
  AllBelow left (msg ∷ queue) = (msg.logical_timestamp + left ≤ int_max) × AllBelow left queue

  abbrev pub AllArrivedBelow : ℕ → List (List Message × ℕ) → Type 0
  AllArrivedBelow left [] = Unit {0}
  AllArrivedBelow left (i ∷ inputs) = AllBelow left i.0 × AllArrivedBelow left inputs

  AllBelow-append :
      (left : ℕ) (xs ys : List Message)
      → AllBelow left xs
      → AllBelow left ys
      → AllBelow left (xs ++ ys)
  AllBelow-append left [] ys a b = b
  AllBelow-append left (x ∷ xs) ys (h, a) b = (h, AllBelow-append left xs ys a b)

  AllBelow-weaken : (left : ℕ) (xs : List Message) → AllBelow (suc left) xs → AllBelow left xs
  AllBelow-weaken left [] a = tt
  AllBelow-weaken left (x ∷ xs) (h, a) = (omega (arith, h), AllBelow-weaken left xs a)

  AllArrivedBelow-weaken :
      (left : ℕ) (is : List (List Message × ℕ))
      → AllArrivedBelow (suc left) is
      → AllArrivedBelow left is
  AllArrivedBelow-weaken left [] a = tt
  AllArrivedBelow-weaken left (i ∷ is) (h, a) =
      (AllBelow-weaken left i.0 h, AllArrivedBelow-weaken left is a)

  -- After a step, what is left is still below.
  abbrev Stepped : ℕ → Option (Node × List Event) → Type 0
  Stepped left answer =
      (p : Node × List Event) × (answer ≡ some p)
      × (p.0.clock + left ≤ int_max)
      × AllBelow left p.0.queue

  step_returns :
      (left : ℕ) (n : Node) (arrived : List Message) (random : ℕ)
      → n.clock + suc left ≤ int_max
      → AllBelow (suc left) (n.queue ++ arrived)
      → Stepped left (step rank sockets num_vms n arrived random)
  unfolding step process_received_message update_on_receive
  step_returns left n arrived random small below = taken (n.queue ++ arrived) below
    where
      taken :
          (queue : List Message)
          → AllBelow (suc left) queue
          → Stepped left (elim queue [
            | [] ↦
                perform rank sockets num_vms (decide_next_event random 10) (record n { queue = [] })
            | msg ∷ queue ↦
                process_received_message msg n.clock (length queue) >>= λ (clock, event).
                the_step rank sockets num_vms (record { clock = clock; queue = queue }) (event ∷ [])
          ])
      taken [] b =
          let (p, e, raised, queue) =
            perform_returns (decide_next_event random 10) (record n { queue = [] }) in
          (p, e, omega (arith, raised, small), subst (AllBelow left) (sym queue) tt)
      taken (msg ∷ queue) (stamp, b) =
          let fits : ltb (max n.clock msg.logical_timestamp) int_max ≡ true =
            ground (arith, small, stamp) in
          (
            (
              record { clock = max n.clock msg.logical_timestamp + 1; queue = queue },
              received msg (length queue) (max n.clock msg.logical_timestamp + 1) ∷ [],
            ),
            rw fits refl,
            omega (arith, small, stamp),
            AllBelow-weaken left queue b,
          )

  steps_return :
      (n : Node) (inputs : List (List Message × ℕ))
      → n.clock + length inputs ≤ int_max
      → AllBelow (length inputs) n.queue
      → AllArrivedBelow (length inputs) inputs
      → (p : Node × List Event) × (run_steps rank sockets num_vms n inputs ≡ some p)
        × (p.0.clock ≤ int_max)
  unfolding run_steps
  steps_return n [] small q a = (_, refl, omega (arith, small))
  steps_return n (i ∷ inputs) small q (a, rest) =
      let (p, first, small', q') =
        step_returns (length inputs) n i.0 i.1 small
          (AllBelow-append (suc (length inputs)) n.queue i.0 q a) in
      let (r, later, last) =
        steps_return p.0 inputs small' q' (AllArrivedBelow-weaken (length inputs) inputs rest) in
      ((r.0, p.1 ++ r.1), rw first (rw later refl), last)

  -- A machine that is set up like this, when its clock and the stamps of the messages that it gets are
  -- below the largest `int` by as many as it takes steps, never looks outside `channels` and never
  -- overflows its clock. Whatever else arrives and whatever is drawn, the clocks of its events are strictly
  -- increasing from its first, a reception is later than the send of its message, and every
  -- message carries the clock of the event that sends it.
  pub run_steps-Ordered :
      (n : Node) (inputs : List (List Message × ℕ))
      → n.clock + length inputs ≤ int_max
      → AllBelow (length inputs) n.queue
      → AllArrivedBelow (length inputs) inputs
      → (n' : Node) × (events : List Event) × (run_steps rank sockets num_vms n inputs
          ≡ some (n', events))
        × (n'.clock ≤ int_max)
        × Ordered rank sockets num_vms n.clock events
  run_steps-Ordered n inputs small q a =
      let ((n', events), e, last) = steps_return n inputs small q a in
      (n', events, e, last, in_order rank sockets num_vms n inputs n' events e)
