-- ===== src/Mousedb/Peers/Topology.antt =====
-- Who connects to whom, and who learns of a newcomer.
use cs.Prelude.{
  ℕ, ◌≡◌, refl, sym, ap, ap₂, ◌∙◌, inl, inr, ◌==◌, not, if◌then◌else◌, false, Bool-cases, List, [],
  ◌∷◌, ◌++◌, arith,
}
use mathlib.Core.List.{append_assoc, append-nil}
use cs.Mousedb.KvStore.Compare.{flip, compare_keys_order}
use cs.Mousedb.Wire.{Message, Address}
use cs.Mousedb.Peers.{
  Session, Sessions, before, same_address, send, at_session, has_session, peer_message, announce,
  introduce, broadcast_peer, on_identify, connected, connects_to,
}

-- Between two nodes that are not connected and have different addresses, exactly one opens a
-- connection when it hears of the other.
pub connects_to_one :
    (a b : Address) (sessions_a sessions_b : Sessions)
    → connected b sessions_a ≡ false
    → connected a sessions_b ≡ false
    → same_address a b ≡ false
    → connects_to a sessions_a b ≡ not (connects_to b sessions_b a)
unfolding connects_to before same_address flip
connects_to_one a b sessions_a sessions_b ha hb n =
    let swapped = (compare_keys_order a.host b.host []).1 in ground (arith, swapped)

-- What a session's queue gets when a newcomer identifies itself: the newcomer the addresses of all
-- others, in the order of the table, and every other session the address of the newcomer.
abbrev pub peers_of : ℕ → Sessions → List Message
peers_of id [] = []
peers_of id (e ∷ sessions) =
    if e.0 == id then peers_of id sessions else peer_message e.1.remote ∷ peers_of id sessions

abbrev pub told : ℕ → Address → List Message → Sessions → Sessions
told id addr peers [] = []
told id addr peers (e ∷ sessions) =
    (if e.0 == id
      then (e.0, record e.1 { remote = addr; write_q = e.1.write_q ++ peers })
      else (e.0, record e.1 { write_q = e.1.write_q ++ peer_message addr ∷ [] }))
    ∷ told id addr peers sessions

module _ (id : ℕ) (addr : Address) where
  abbrev renamed : Session → Session
  renamed s = record s { remote = addr }

  abbrev announced : Sessions → Sessions
  announced sessions = announce addr id (at_session id renamed sessions)

  introduce-peers_of :
      (sessions : Sessions) (s : Session)
      → introduce id sessions s ≡ record s { write_q = s.write_q ++ peers_of id sessions }
  unfolding introduce
  introduce-peers_of [] s =
      ap (λ (q : List Message). record s { write_q = q }) (sym (append-nil s.write_q))
  introduce-peers_of (e ∷ sessions) s = elim (Bool-cases (e.0 == id)) [
    | inl own ↦ rw own (introduce-peers_of sessions s)
    | inr other ↦ rw other (
        introduce-peers_of sessions (send s (peer_message e.1.remote))
        ∙ ap (λ (q : List Message). record s { write_q = q })
            (append_assoc s.write_q (peer_message e.1.remote ∷ []) (peers_of id sessions)))
  ]

  peers_of-announced :
      (sessions : Sessions) → peers_of id (announced sessions) ≡ peers_of id sessions
  unfolding announce at_session
  peers_of-announced [] = refl
  peers_of-announced (e ∷ sessions) = elim (Bool-cases (e.0 == id)) [
    | inl own ↦ ground (arith, peers_of-announced sessions)
    | inr other ↦ ground (arith, peers_of-announced sessions)
  ]

  has_session-announced :
      (sessions : Sessions) → has_session id (announced sessions) ≡ has_session id sessions
  unfolding has_session announce at_session
  has_session-announced [] = refl
  has_session-announced (e ∷ sessions) = elim (Bool-cases (e.0 == id)) [
    | inl own ↦ ground arith
    | inr other ↦ ground (arith, has_session-announced sessions)
  ]

  at_session-announced :
      (peers : List Message) (f : Session → Session) (sessions : Sessions)
      → ((s : Session) → f s ≡ record s { write_q = s.write_q ++ peers })
      → at_session id f (announced sessions) ≡ told id addr peers sessions
  unfolding announce at_session
  at_session-announced peers f [] h = refl
  at_session-announced peers f (e ∷ sessions) h = elim (Bool-cases (e.0 == id)) [
    | inl own ↦ rw own (
        rw own (
          rw own (
            ap₂ (λ (s : Session) (rest : Sessions). (e.0, s) ∷ rest) (h (renamed e.1))
              (at_session-announced peers f sessions h))))
    | inr other ↦ rw other (
        rw other (
          rw other (
            ap (◌∷◌ (e.0, send e.1 (peer_message addr)))
              (at_session-announced peers f sessions h))))
  ]

  announced-told :
      (peers : List Message) (sessions : Sessions)
      → has_session id sessions ≡ false
      → announced sessions ≡ told id addr peers sessions
  unfolding announce at_session has_session
  announced-told peers [] h = refl
  announced-told peers (e ∷ sessions) h = elim (Bool-cases (e.0 == id)) [
    | inl own ↦ absurd (ground arith)
    | inr other ↦ rw other (
        rw other (
          ap (◌∷◌ (e.0, send e.1 (peer_message addr)))
            (announced-told peers sessions (ground arith))))
  ]

-- When session `id` identifies itself, it gets the address, every other session is told of it, and
-- it is told of the addresses of all others, in the order of the table.
pub on_identify-told :
    (id : ℕ) (addr : Address) (sessions : Sessions)
    → on_identify id addr sessions ≡ told id addr (peers_of id sessions) sessions
unfolding on_identify broadcast_peer
on_identify-told id addr sessions =
    let peers : (s : Session)
        → introduce id (announced id addr sessions) s
          ≡ record s { write_q = s.write_q ++ peers_of id sessions } =
      λ s.
        introduce-peers_of id addr (announced id addr sessions) s
        ∙ ap (λ (ms : List Message). record s { write_q = s.write_q ++ ms })
            (peers_of-announced id addr sessions) in
    let same = has_session-announced id addr sessions in
    elim (Bool-cases (has_session id sessions)) [
      | inl known ↦ rw (same ∙ known) (
          at_session-announced id addr (peers_of id sessions)
            (introduce id (announced id addr sessions)) sessions peers)
      | inr unknown ↦
          rw (same ∙ unknown) (announced-told id addr (peers_of id sessions) sessions unknown)
    ]
