-- ===== src/Converse/Client/Reconnect.antt =====
-- The change of the server, when no lock is held.
use cs.Prelude.{
  ℕ, ◌≡◌, refl, ap, ◌∙◌, ◌==◌, if◌then◌else◌, ◌⊎◌, inl, inr, Bool, Bool-cases, true, false, Option,
  none, some, List, [], ◌∷◌, ◌++◌, arith,
}
use cs.Converse.Link.{Address}
use cs.Converse.Models.{User}
use cs.Converse.Client.{unavailable, Backend, returned, go_on, and_then, lock_unique}
use cs.Converse.Client.Session.{
  connect_first, connected_to, read_again, resume, reconnect, reconnect_from, handle_reconnect,
}

abbrev pub AllDown : (Address → Bool) → List Address → Type 0
AllDown healthy [] = Unit {0}
AllDown healthy (a ∷ addresses) = (healthy a ≡ false) × AllDown healthy addresses

-- The first address that is healthy, with those before and behind it.
pub record FirstUp (healthy : Address → Bool) (addresses : List Address) : Type 0 where
  pub down : List Address
  pub next : Address
  pub after : List Address
  pub in_order : addresses ≡ down ++ (next ∷ after)
  pub all_down : AllDown healthy down
  pub next_up : healthy next ≡ true

connect_first-FirstUp :
    (healthy : Address → Bool) (addresses : List Address)
    → ((u : FirstUp healthy addresses) × (connect_first healthy addresses ≡ some u.next))
      ⊎ (AllDown healthy addresses × (connect_first healthy addresses ≡ none))
unfolding connect_first
connect_first-FirstUp healthy [] = inr (tt, refl)
connect_first-FirstUp healthy (a ∷ addresses) =
    by_health (connect_first-FirstUp healthy addresses) (Bool-cases (healthy a))
  where
    by_health :
        ((u : FirstUp healthy addresses) × (connect_first healthy addresses ≡ some u.next))
          ⊎ (AllDown healthy addresses × (connect_first healthy addresses ≡ none))
        → (healthy a ≡ true) ⊎ (healthy a ≡ false)
        → ((u : FirstUp healthy (a ∷ addresses)) × ((if healthy a
                then some a
                else connect_first healthy addresses)
              ≡ some u.next))
          ⊎ (AllDown healthy (a ∷ addresses)
              × ((if healthy a then some a else connect_first healthy addresses) ≡ none))
    by_health later (inl up) = inl (
      record {
        down = [];
        next = a;
        after = addresses;
        in_order = refl;
        all_down = tt;
        next_up = up;
      },
      rw up refl,
    )
    by_health (inl (u, found)) (inr down) = inl (
      record {
        down = a ∷ u.down;
        next = u.next;
        after = u.after;
        in_order = ap (◌∷◌ a) u.in_order;
        all_down = (down, u.all_down);
        next_up = u.next_up;
      },
      rw down found,
    )
    by_health (inr (all, found)) (inr down) = inr ((down, all), rw down found)

-- The reader of a user from a server.
abbrev pub reader_for : Option User → Address → Option (Address × ℕ) → Option (Address × ℕ)
reader_for none server old = old
reader_for (some u) server old = some (server, u.id)

-- The backend behind a change to this server.
abbrev pub moved : Address → Backend → Backend
moved server b = record b {
  server = server;
  cluster_addresses = [];
  servers_reader = server;
  message_reader = reader_for b.user server b.message_reader;
  read_messages_reader = reader_for b.user server b.read_messages_reader;
}

abbrev pub lost : Backend → Backend
lost b = record b { cluster_addresses = [] }

resume-moved :
    (healthy : Address → Bool) (a : Address) (b : Backend)
    → resume healthy (some a) b ≡ returned tt (moved a b)
unfolding resume connected_to and_then go_on
resume-moved healthy a b = by_user b.user
  where
    by_user :
        (user : Option User)
        → read_again healthy user
            (record b { server = a; cluster_addresses = []; servers_reader = a })
          ≡ returned tt (record b {
            server = a;
            cluster_addresses = [];
            servers_reader = a;
            message_reader = reader_for user a b.message_reader;
            read_messages_reader = reader_for user a b.read_messages_reader;
          })
    by_user none = unfold read_again in refl
    by_user (some u) = unfold read_again in refl

module _ (healthy : Address → Bool) (b : Backend) (free : b.shared ≡ 0) (first : Address)
    (addresses : List Address) (known : b.cluster_addresses ≡ first ∷ addresses) where
  handle_reconnect-resume :
      handle_reconnect healthy unavailable b
      ≡ resume healthy (connect_first healthy b.cluster_addresses) b
  unfolding handle_reconnect
  handle_reconnect-resume = by_known b.cluster_addresses known
    where
      lock : lock_unique b ≡ returned tt b
      lock =
          let test : (b.shared == 0) ≡ true = ground (arith, free) in
          unfold lock_unique in rw test refl

      by_known :
          (now : List Address)
          → now ≡ first ∷ addresses
          → reconnect_from healthy now b
            ≡ resume healthy (connect_first healthy b.cluster_addresses) b
      by_known [] e = absurd (cc)
      by_known (x ∷ xs) e =
          unfold reconnect_from reconnect and_then in
          ap (go_on (λ l d. resume healthy (connect_first healthy d.cluster_addresses) d)) lock
          ∙ unfold go_on in refl

  resume-lost : resume healthy none b ≡ returned tt (lost b)
  unfolding resume
  resume-lost = refl

  -- When a stream ends because its server is unavailable, with the lock free and other servers known,
  -- the client moves to the first of them that is healthy, with the readers of its user, and
  -- forgets the others. Where none is healthy, it forgets them all and stays.
  pub handle_reconnect-moves :
      ((u : FirstUp healthy b.cluster_addresses) × (handle_reconnect healthy unavailable b
          ≡ returned tt (moved u.next b)))
      ⊎ (AllDown healthy b.cluster_addresses
          × (handle_reconnect healthy unavailable b ≡ returned tt (lost b)))
  handle_reconnect-moves = elim (connect_first-FirstUp healthy b.cluster_addresses) [
    | inl (u, found) ↦ inl (
      u,
      handle_reconnect-resume
          ∙ ap (λ (o : Option Address). resume healthy o b) found
          ∙ resume-moved healthy u.next b,
    )
    | inr (all, found) ↦ inr (
      all,
      handle_reconnect-resume ∙ ap (λ (o : Option Address). resume healthy o b) found ∙ resume-lost,
    )
  ]
