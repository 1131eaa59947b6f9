-- ===== src/Converse/Failover.antt =====
-- The change of the leader in converse/exe_server/src/server.cpp.
-- A replica waits for its leader's stream of transactions to end, and takes the next leader from the
-- addresses that it was given when it joined. Other servers that join it meanwhile are left out.
pub mod Succession
mod Runs
use cs.Prelude.{
  ℕ, ◌==◌, ◌&&◌, if◌then◌else◌, Bool, true, false, Option, none, some, List, [], ◌∷◌, ◌++◌,
}
use cs.Prelude.Options.{◌>>=◌}
use cs.Converse.Link.{Address, Impl, take_in}

pub same_host : List ℕ → List ℕ → Bool
same_host [] [] = true
same_host [] (y ∷ ys) = false
same_host (x ∷ xs) [] = false
same_host (x ∷ xs) (y ∷ ys) = (x == y) && same_host xs ys

-- `Address::operator==`
pub same_address : Address → Address → Bool
same_address a b = same_host a.host b.host && (a.port == b.port)

pub record Leading : Type 0 where
  pub followed : List Address
  pub cluster_addresses : List Address

pub after_following : Address → Leading → Leading
after_following addr l = record l { followed = addr ∷ l.followed }

-- The loop: the leaders that are followed, after the one that was joined, until the replica leads, and what is left of its addresses
-- then. `none` is `front()` of no addresses.
pub follow : Address → List Address → Option Leading
follow my_address [] = none
follow my_address (addr ∷ addresses) =
    let rest = follow my_address addresses in
    if same_address addr my_address
    then some (record { followed = []; cluster_addresses = addresses })
    else rest >>= (λ (l : Leading). some (after_following addr l))

-- The leader's side of the servers that join it, and the addresses that the last one is given.
pub joined : Impl → List Address → Impl
joined i [] = i
joined i (a ∷ addresses) = joined (take_in i a).0 addresses

-- A replica that joins after others.
pub join_after : Impl → List Address → Address → Option Leading
join_after i before my_address = follow my_address (take_in (joined i before) my_address).1
