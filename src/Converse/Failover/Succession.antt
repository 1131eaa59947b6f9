-- ===== src/Converse/Failover/Succession.antt =====
-- The replicas of one leader succeed it in the order in which they joined.
use cs.Prelude.{ℕ, ◌≡◌, refl, sym, ap, ◌∙◌, ◌==◌, true, false, some, List, [], ◌∷◌, ◌++◌, arith}
use cs.Converse.Link.{Address, Impl, take_in}
use cs.Converse.Failover.{
  same_host, same_address, Leading, after_following, follow, joined, join_after,
}
use mathlib.Core.List.{append_assoc, append-nil}

-- A leader that nobody has joined.
abbrev pub Alone : Impl → Type 0
Alone i = i.cluster_addresses ≡ []

-- None of these has the address.
abbrev pub Others : Address → List Address → Type 0
Others a [] = Unit {0}
Others a (b ∷ before) = (same_address b a ≡ false) × Others a before

same_host_refl : (xs : List ℕ) → same_host xs xs ≡ true
unfolding same_host
same_host_refl [] = refl
same_host_refl (x ∷ xs) =
    let here : (x == x) ≡ true = ground arith in rw (here, same_host_refl xs) refl

same_address_refl : (a : Address) → same_address a a ≡ true
unfolding same_address
same_address_refl a =
    let port : (a.port == a.port) ≡ true = ground arith in rw (same_host_refl a.host, port) refl

joined-addresses :
    (i : Impl) (before : List Address)
    → (joined i before).cluster_addresses ≡ i.cluster_addresses ++ before
unfolding joined take_in
joined-addresses i [] = sym (append-nil i.cluster_addresses)
joined-addresses i (a ∷ before) =
    joined-addresses (take_in i a).0 before ∙ append_assoc i.cluster_addresses (a ∷ []) before

follow-before :
    (a : Address) (before : List Address)
    → Others a before
    → follow a (before ++ (a ∷ [])) ≡ some (record { followed = before; cluster_addresses = [] })
unfolding follow after_following
follow-before a [] o = rw (same_address_refl a) refl
follow-before a (b ∷ before) (other, o) = rw (other, follow-before a before o) refl

-- What a replica is given when it joins.
join_after-follows :
    (i : Impl) (before : List Address) (a : Address)
    → Alone i
    → Others a before
    → join_after i before a ≡ some (record { followed = before; cluster_addresses = [] })
unfolding join_after take_in
join_after-follows i before a e o =
    ap (λ (k : List Address). follow a (k ++ (a ∷ [])))
      (joined-addresses i before ∙ ap (λ (k : List Address). k ++ before) e)
    ∙ follow-before a before o

-- Of two replicas that join the same leader one after the other, with other servers before the first
-- and between them, all of different addresses, the first leads once all before it are lost. The
-- second has followed the same leaders until then, follows the first, and leads once all
-- between them are lost too. Neither runs out of addresses.
pub join_after-succession :
    (i : Impl) (before between : List Address) (a b : Address)
    → Alone i
    → Others a before
    → Others b (before ++ (a ∷ between))
    → (first : Leading) × (second : Leading) × (join_after i before a ≡ some first)
      × (join_after i (before ++ (a ∷ between)) b ≡ some second)
      × (first.followed ≡ before)
      × (second.followed ≡ first.followed ++ (a ∷ between))
join_after-succession i before between a b e oa ob = (
  record { followed = before; cluster_addresses = [] },
  record { followed = before ++ (a ∷ between); cluster_addresses = [] },
  join_after-follows i before a e oa,
  join_after-follows i (before ++ (a ∷ between)) b e ob,
  refl,
  refl,
)

-- The first two replicas of a leader, a and b, and a server n that joins a when a leads and has the
-- addresses that its succession leaves it: b leads once its second leader, a, is lost, and n leads
-- once its first, a, is lost, so both do.
pub join_after-two_leaders :
    (i next : Impl) (a b n : Address)
    → Alone i
    → same_address a b ≡ false
    → (leading : Leading) × (join_after i [] a ≡ some leading)
      × (join_after i (a ∷ []) b ≡ some (record { followed = a ∷ []; cluster_addresses = [] }))
      × (join_after (record next { cluster_addresses = leading.cluster_addresses }) [] n
          ≡ some (record { followed = []; cluster_addresses = [] }))
join_after-two_leaders i next a b n e d = (
  record { followed = []; cluster_addresses = [] },
  join_after-follows i [] a e tt,
  join_after-follows i (a ∷ []) b e (d, tt),
  join_after-follows (record next { cluster_addresses = [] }) [] n refl tt,
)
