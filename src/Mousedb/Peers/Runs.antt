-- ===== src/Mousedb/Peers/Runs.antt =====
-- Runs of the connection manager, over a database that is a list of pairs.
use cs.Prelude.{
  ℕ, ◌≡◌, ◌%◌, ◌^◌, ◌<◌, refl, true, false, not, Option, none, some, List, [], ◌∷◌, length, arith,
}
use cs.Mousedb.Hlc.{Hlc, Round, pack, attempt, advance}
use cs.Mousedb.KvStore.{zero_sign, compare_keys}
use cs.Mousedb.Wire.{
  Message, Address, put_request, get_request, put_ok, get_result, not_found, found,
}
use cs.Mousedb.Peers.{
  Sessions, Manager, accepted, answer, handle, on_identify, connected, connects_to, same_address,
}
use cs.Mousedb.Peers.Requests.{zero_clock, handle-put_request, handle-get_request}
use cs.Mousedb.Peers.Topology.{connects_to_one, peers_of, told, on_identify-told}

abbrev Pairs : Type 0
Pairs = List (List ℕ × List ℕ)

abbrev insert_pair : Pairs → List ℕ → List ℕ → Hlc → Pairs
insert_pair db key value ts = (key, value) ∷ db

abbrev find_pair : Pairs → List ℕ → Option (List ℕ)
find_pair [] key = none
find_pair (p ∷ db) key =
    let rest = find_pair db key in elim (compare_keys p.0 key) [ zero_sign ↦ some p.1 | _ ↦ rest ]

abbrev node_a : Address
node_a = record { host = b'h' ∷ []; port = 9000 }

abbrev node_b : Address
node_b = record { host = b'h' ∷ []; port = 9001 }

abbrev two_sessions : Sessions
two_sessions = (1, accepted) ∷ (2, accepted) ∷ []

abbrev manager : Manager insert_pair find_pair
manager = record { self = node_a; hlc = 0; sessions = two_sessions; db = [] }

abbrev key_7 : List ℕ
key_7 = b'k' ∷ b'7' ∷ []

abbrev one_round : List Round
one_round = record { now = 50; current = 0; spurious = false } ∷ []

merges :
    advance (9000 % 2 ^ 32) (some zero_clock) 0 one_round
    ≡ some (attempt 9000 0 50 (some zero_clock), pack 50 0)
unfolding advance
merges = refl

handle-put_request_example :
    (r : Message) × (handle insert_pair find_pair manager 2
        (put_request key_7 (b'1' ∷ []))
        one_round
      ≡ some (
        answer insert_pair find_pair 2 r
            (record manager { hlc = pack 50 0; db = (key_7, b'1' ∷ []) ∷ [] }),
        none,
      ))
    × (put_ok r ≡ true)
handle-put_request_example =
    handle-put_request insert_pair find_pair manager 2 key_7 (b'1' ∷ []) one_round
      (attempt 9000 0 50 (some zero_clock)) (pack 50 0) (omega arith) (omega arith) merges

handle-get_request_example :
    (r : Message) × (handle insert_pair find_pair manager 2 (get_request key_7) []
      ≡ some (answer insert_pair find_pair 2 r manager, none))
    × (find_pair [] key_7 ≡ none → get_result r ≡ some not_found)
    × ((value : List ℕ)
        → length value < 2 ^ 32
        → find_pair [] key_7 ≡ some value
        → get_result r ≡ some (found value zero_clock))
handle-get_request_example =
    handle-get_request insert_pair find_pair manager 2 key_7 [] (omega arith)

connects_to_one_example : connects_to node_a [] node_b ≡ not (connects_to node_b [] node_a)
unfolding connected same_address compare_keys
connects_to_one_example = connects_to_one node_a node_b [] [] refl refl refl

on_identify-told_example :
    on_identify 2 node_b two_sessions ≡ told 2 node_b (peers_of 2 two_sessions) two_sessions
on_identify-told_example = on_identify-told 2 node_b two_sessions
