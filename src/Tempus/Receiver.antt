-- ===== src/Tempus/Receiver.antt =====
-- Reassembling messages from a stream of bytes.
pub mod Reassembly
use cs.Prelude.{
  ℕ, ◌+◌, ◌-◌, ◌==◌, min, if◌then◌else◌, Option, none, some, List, [], ◌∷◌, ◌++◌, length, take,
  drop,
}
use cs.Prelude.Options.{◌>>=◌}
use cs.Prelude.Bytes.{le_bytes, of_le_bytes}
use cs.Tempus.{Message}

-- Two `int`s of four bytes, least significant first.
abbrev pub sizeof_message : ℕ
sizeof_message = 8

-- What `sendMessage` sends, and what the `memcpy` of the receiver makes of it.
unfoldable pub bytes_of : Message → List ℕ
bytes_of m = le_bytes 4 m.sender_rank ++ le_bytes 4 m.logical_timestamp

unfoldable pub message_of : List ℕ → Message
message_of bytes = record {
  sender_rank = of_le_bytes (take 4 bytes);
  logical_timestamp = of_le_bytes (drop 4 bytes);
}

-- The first `size` bytes of a channel's buffer, and the bytes that its socket still has to deliver.
pub record Channel : Type 0 where
  pub buf : List ℕ
  pub incoming : List ℕ

-- A channel that `poll` reports: `recv` delivers at most `available` bytes, and no more than it is
-- asked for. `none` is the exception on a disconnect.
unfoldable pub receive_some : Channel → ℕ → Option (Channel × List Message)
unfolding message_of
receive_some c available =
    let asked = min available (sizeof_message - length c.buf) in
    let bytes = take asked c.incoming in
    let buf = c.buf ++ bytes in
    let rest = drop asked c.incoming in
    if length bytes == 0
    then none
    else if length buf == sizeof_message
    then some (record { buf = []; incoming = rest }, message_of buf ∷ [])
    else some (record { buf = buf; incoming = rest }, [])

-- One return of `poll`: for each channel whether it is ready, and what it has. The messages go to
-- the queue in the order of the channels.
pub poll_round : List Channel → List (Option ℕ) → Option (List Channel × List Message)
unfolding receive_some
poll_round [] ready = some ([], [])
poll_round (c ∷ cs) [] = some (c ∷ cs, [])
poll_round (c ∷ cs) (none ∷ ready) = poll_round cs ready >>= λ later. some (c ∷ later.0, later.1)
poll_round (c ∷ cs) (some available ∷ ready) =
    let rest = poll_round cs ready in
    receive_some c available >>= λ first.
    rest >>= λ later. some (first.0 ∷ later.0, first.1 ++ later.1)

-- The receptions of one channel, one after the other.
unfoldable pub receive_all : Channel → List ℕ → Option (Channel × List Message)
receive_all c [] = some (c, [])
receive_all c (available ∷ more) = receive_some c available >>= λ first.
    receive_all first.0 more >>= λ later. some (later.0, first.1 ++ later.1)
