-- ===== src/Converse/Failover/Runs.antt =====
-- Runs of the change of the leader.
use cs.Prelude.{ℕ, ◌≡◌, refl, some, [], ◌∷◌, ◌++◌}
use cs.Converse.Link.{Address, Impl}
use cs.Converse.Failover.{same_host, same_address, Leading, join_after}
use cs.Converse.Failover.Succession.{join_after-succession, join_after-two_leaders}

abbrev server : ℕ → Address
server port = record { host = b'h' ∷ []; port = port }

abbrev new_leader : Impl
new_leader = record { cluster_addresses = []; client_writers = []; cluster_writers = [] }

join_after-succession_example :
    (first : Leading) × (second : Leading) × (join_after new_leader (server 1 ∷ []) (server 2)
      ≡ some first)
    × (join_after new_leader ((server 1 ∷ []) ++ (server 2 ∷ server 3 ∷ [])) (server 4)
        ≡ some second)
    × (first.followed ≡ server 1 ∷ [])
    × (second.followed ≡ first.followed ++ (server 2 ∷ server 3 ∷ []))
unfolding same_address same_host
join_after-succession_example =
    join_after-succession new_leader (server 1 ∷ []) (server 3 ∷ []) (server 2) (server 4) refl
      (refl, tt) (refl, (refl, (refl, tt)))

join_after-two_leaders_example :
    (leading : Leading) × (join_after new_leader [] (server 1) ≡ some leading)
    × (join_after new_leader (server 1 ∷ []) (server 2)
        ≡ some (record { followed = server 1 ∷ []; cluster_addresses = [] }))
    × (join_after
          (record new_leader { cluster_addresses = leading.cluster_addresses })
          []
          (server 3)
        ≡ some (record { followed = []; cluster_addresses = [] }))
unfolding same_address same_host
join_after-two_leaders_example =
    join_after-two_leaders new_leader new_leader (server 1) (server 2) (server 3) refl refl
