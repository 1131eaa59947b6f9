-- ===== src/Mousedb/Wire/Runs.antt =====
-- Runs of the protocol.
use cs.Prelude.{ℕ, ◌≡◌, some, List, [], ◌∷◌, ◌++◌, arith}
use cs.Mousedb.Wire.{write_req, Message, to_buffers, framed, process_message, read_msg}
use cs.Mousedb.Wire.Frames.{process_message-to_buffers}

abbrev key_7 : List ℕ
key_7 = b'k' ∷ b'e' ∷ b'y' ∷ b'7' ∷ []

abbrev small_message : Message
small_message = record { type = write_req; payload = key_7 }

process_message-to_buffers_example :
    (process_message (to_buffers small_message ++ 5 ∷ 6 ∷ []) ≡ framed small_message (5 ∷ 6 ∷ []))
    × (read_msg (to_buffers small_message ++ 5 ∷ 6 ∷ []) ≡ some (small_message, 5 ∷ 6 ∷ []))
process_message-to_buffers_example =
    process_message-to_buffers small_message (5 ∷ 6 ∷ []) tt (omega arith)
