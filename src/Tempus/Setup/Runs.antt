-- ===== src/Tempus/Setup/Runs.antt =====
-- Runs of the set-up.
use cs.Prelude.{ℕ, ◌≡◌, inl, inr, refl, true, none, some, List, [], ◌∷◌, map, zero, suc, ◌<◌, arith}
use cs.Prelude.Members.{OneOf}
use cs.Tempus.Setup.{
  exits, outside, connects, refuses, Connect, Accept, set_up, set_up_with, listen_on, accept_all,
  accept_one, accept_ranked, read_rank, read_more, finish, then_do,
}
use cs.Tempus.Setup.Sets.{arrives}
use cs.Tempus.Setup.Channels.{AllFound, set_up-AllFound}

-- Rank 2 of 4: rank 1 arrives before rank 0, and rank 3 refuses once.
abbrev socket_to : ℕ → ℕ
socket_to t = 7

abbrev one_refusal : List Connect
one_refusal =
    record { channel = some 6; tries = refuses (some 7) ∷ connects ∷ []; sends = 4 ∷ [] } ∷ []

abbrev order : List ℕ
order = 1 ∷ 0 ∷ []

order_all : (t : ℕ) → t < 2 → OneOf t order
order_all zero h = inr (inl refl)
order_all (suc zero) h = inl refl
order_all (suc (suc t)) h = absurd (omega arith)

set_up-AllFound_example : AllFound socket_to 2 4 (
    set_up 2 4
      (record { sock = some 3; bound = true; listens = true })
      (map (arrives socket_to) order)
      one_refusal)
set_up-AllFound_example =
    set_up-AllFound socket_to 2 4 3 order one_refusal (omega arith) (omega arith) refl
      (omega arith, (omega arith, tt)) order_all
      (record { first = 6; made = refl; reached = refl; whole = refl }, tt)

-- When the rank arrives in two parts, the second is stored behind the buffer.
in_parts : Accept
in_parts = record { other_sock = some 5; reads = (0 ∷ 0 ∷ []) ∷ (0 ∷ 0 ∷ []) ∷ [] }

set_up-in_parts :
    set_up 1 2 (record { sock = some 3; bound = true; listens = true }) (in_parts ∷ []) [] ≡ outside
unfolding in_parts set_up set_up_with listen_on accept_all accept_one accept_ranked read_rank
    read_more finish then_do
set_up-in_parts = refl

-- An accept that fails closes the channels that were never opened, as descriptor 0.
set_up_closes_zero :
    set_up 1 3
      (record { sock = some 3; bound = true; listens = true })
      (record { other_sock = none; reads = [] } ∷ [])
      []
    ≡ exits (0 ∷ 0 ∷ 3 ∷ [])
unfolding set_up set_up_with listen_on accept_all accept_one finish then_do
set_up_closes_zero = refl
