-- ===== src/Converse/Link/Streams.antt =====
-- What the clients' streams have been told.
use cs.Prelude.{ℕ, ◌≡◌, refl, sym, ap, ◌==◌, false, Bool-cases, inl, inr, List, [], ◌∷◌, ◌++◌}
use mathlib.Core.Path.{subst}
use cs.Converse.Link.{
  Address, Stream, Impl, Status, ok, has_writer, write_all, erase_stream, get_servers,
  cancel_get_servers, take_in, tell_clients, identify_myself,
}

-- Every stream has been told all of these addresses, once and in order.
abbrev pub AllTold : List Address → List Stream → Type 0
AllTold addresses [] = Unit {0}
AllTold addresses (s ∷ streams) = (s.1 ≡ addresses) × AllTold addresses streams

pub data Request : Type 0 where
  subscribe cancel : ℕ → Request
  identify : Address → Request

pub serve : Impl → Request → Impl
serve i (subscribe writer) = (get_servers i writer).0
serve i (cancel writer) = cancel_get_servers i writer
serve i (identify a) = (identify_myself i a []).0

pub serve_all : Impl → List Request → Impl
serve_all i [] = i
serve_all i (r ∷ rs) = serve_all (serve i r) rs

-- No writer subscribes while it is subscribed.
abbrev pub AllFresh : Impl → List Request → Type 0
AllFresh i [] = Unit {0}
AllFresh i (subscribe writer ∷ rs) =
    (has_writer writer i.client_writers ≡ false) × AllFresh (serve i (subscribe writer)) rs
AllFresh i (cancel writer ∷ rs) = AllFresh (serve i (cancel writer)) rs
AllFresh i (identify a ∷ rs) = AllFresh (serve i (identify a)) rs

write_all-AllTold :
    (addresses : List Address) (more : List Address) (streams : List Stream)
    → AllTold addresses streams
    → AllTold (addresses ++ more) (write_all more streams)
unfolding write_all
write_all-AllTold addresses more [] h = tt
write_all-AllTold addresses more (s ∷ streams) (e, h) =
    (ap (λ (k : List Address). k ++ more) e, write_all-AllTold addresses more streams h)

erase_stream-AllTold :
    (writer : ℕ) (addresses : List Address) (streams : List Stream)
    → AllTold addresses streams
    → AllTold addresses (erase_stream writer streams)
unfolding erase_stream
erase_stream-AllTold writer addresses [] h = tt
erase_stream-AllTold writer addresses (s ∷ streams) (e, h) = elim (Bool-cases (s.0 == writer)) [
  | inl same ↦ rw same (erase_stream-AllTold writer addresses streams h)
  | inr other ↦ rw other (e, erase_stream-AllTold writer addresses streams h)
]

get_servers-AllTold :
    (i : Impl) (writer : ℕ)
    → has_writer writer i.client_writers ≡ false
    → AllTold i.cluster_addresses i.client_writers
    → AllTold (get_servers i writer).0.cluster_addresses (get_servers i writer).0.client_writers
get_servers-AllTold i writer f h =
    subst (λ (p : Impl × Status). AllTold p.0.cluster_addresses p.0.client_writers)
      (sym (fresh_result i writer f)) (refl, h)
  where
    fresh_result :
        (i : Impl) (writer : ℕ)
        → has_writer writer i.client_writers ≡ false
        → get_servers i writer
          ≡ (record i { client_writers = (writer, i.cluster_addresses) ∷ i.client_writers }, ok)
    fresh_result i writer f = unfold get_servers in rw f refl

-- With requests served one after the other, every client that is subscribed has been told every
-- address of the cluster, once and in order.
pub serve_all-AllTold :
    (i : Impl) (rs : List Request)
    → AllFresh i rs
    → AllTold i.cluster_addresses i.client_writers
    → AllTold (serve_all i rs).cluster_addresses (serve_all i rs).client_writers
unfolding serve_all serve get_servers cancel_get_servers identify_myself take_in tell_clients
serve_all-AllTold i [] fresh h = h
serve_all-AllTold i (subscribe writer ∷ rs) (f, fresh) h =
    serve_all-AllTold (serve i (subscribe writer)) rs fresh (get_servers-AllTold i writer f h)
serve_all-AllTold i (cancel writer ∷ rs) fresh h =
    serve_all-AllTold (serve i (cancel writer)) rs fresh
      (erase_stream-AllTold writer i.cluster_addresses i.client_writers h)
serve_all-AllTold i (identify a ∷ rs) fresh h =
    serve_all-AllTold (serve i (identify a)) rs fresh
      (write_all-AllTold i.cluster_addresses (a ∷ []) i.client_writers h)

-- A client that subscribes between the two parts of `IdentifyMyself` is told the new address
-- twice.
pub tell_clients_twice :
    (i : Impl) (writer : ℕ) (a : Address)
    → has_writer writer i.client_writers ≡ false
    → (streams : List Stream) × ((tell_clients
          (get_servers (take_in i a).0 writer).0
          a).client_writers
        ≡ (writer, (i.cluster_addresses ++ a ∷ []) ++ a ∷ []) ∷ streams)
unfolding tell_clients get_servers take_in write_all
tell_clients_twice i writer a f = (write_all (a ∷ []) i.client_writers, rw f refl)
