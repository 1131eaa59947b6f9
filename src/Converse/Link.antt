-- ===== src/Converse/Link.antt =====
-- The service between servers of converse/exe_server/src/service/link/impl.cpp.
-- A writer is a number with the addresses that have been written to its stream. Each part of a
-- handler that holds one lock is a step of its own. Loops that wait for a cancellation are left out:
-- a cancellation is a step.
pub mod Streams
mod Runs
use cs.Prelude.{ℕ, ◌==◌, if◌then◌else◌, Bool, true, false, List, [], ◌∷◌, ◌++◌}

pub record Address : Type 0 where
  pub host : List ℕ
  pub port : ℕ

abbrev pub Stream : Type 0
Stream = ℕ × List Address

pub record Impl : Type 0 where
  pub cluster_addresses : List Address
  pub client_writers : List Stream
  pub cluster_writers : List ℕ

pub data Status : Type 0 where
  ok already_exists : Status

unfoldable pub has_writer : ℕ → List Stream → Bool
has_writer writer [] = false
has_writer writer (s ∷ streams) =
    let rest = has_writer writer streams in if s.0 == writer then true else rest

-- `writer->Write(response)` on one stream, and on all.
pub write_to : ℕ → List Address → List Stream → List Stream
write_to writer addresses [] = []
write_to writer addresses (s ∷ streams) =
    let rest = write_to writer addresses streams in
    (if s.0 == writer then (s.0, s.1 ++ addresses) else s) ∷ rest

pub write_all : List Address → List Stream → List Stream
write_all addresses [] = []
write_all addresses (s ∷ streams) = (s.0, s.1 ++ addresses) ∷ write_all addresses streams

pub erase_stream : ℕ → List Stream → List Stream
erase_stream writer [] = []
erase_stream writer (s ∷ streams) =
    let rest = erase_stream writer streams in if s.0 == writer then rest else s ∷ rest

-- `GetServers` up to its wait, and behind it.
pub get_servers : Impl → ℕ → Impl × Status
get_servers i writer =
    if has_writer writer i.client_writers
    then (
      record i { client_writers = write_to writer i.cluster_addresses i.client_writers },
      already_exists,
    )
    else (record i { client_writers = (writer, i.cluster_addresses) ∷ i.client_writers }, ok)

pub cancel_get_servers : Impl → ℕ → Impl
cancel_get_servers i writer = record i { client_writers = erase_stream writer i.client_writers }

-- The two parts of `IdentifyMyself`: the first takes the address in and answers with all of them,
-- the second tells the clients.
unfoldable pub take_in : Impl → Address → Impl × List Address
take_in i a =
    let addresses = i.cluster_addresses ++ a ∷ [] in
    (record i { cluster_addresses = addresses }, addresses)

pub tell_clients : Impl → Address → Impl
tell_clients i a = record i { client_writers = write_all (a ∷ []) i.client_writers }

-- With the bytes of the database.
pub identify_myself : Impl → Address → List ℕ → Impl × (List Address × List ℕ)
identify_myself i a database =
    let (i', addresses) = take_in i a in (tell_clients i' a, (addresses, database))

pub has_cluster_writer : ℕ → List ℕ → Bool
has_cluster_writer writer [] = false
has_cluster_writer writer (w ∷ writers) =
    let rest = has_cluster_writer writer writers in if w == writer then true else rest

pub get_transactions : Impl → ℕ → Impl × Status
get_transactions i writer =
    if has_cluster_writer writer i.cluster_writers
    then (i, already_exists)
    else (record i { cluster_writers = writer ∷ i.cluster_writers }, ok)
