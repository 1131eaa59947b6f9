-- ===== src/Mousedb/Wire/Frames.antt =====
-- Frames arrive as they were sent.
use cs.Prelude.{
  ℕ, ◌+◌, ◌-◌, ◌%◌, ◌^◌, ◌≤◌, ◌<◌, ◌≡◌, refl, ltb, ◌||◌, some, List, ◌++◌, length, length-append,
  take-append, drop-append, arith, false,
}
use cs.Prelude.Bytes.{put_be, read_be-put_be, put_be-append}
use cs.Mousedb.Wire.{
  FrameType, identify, wal_append, heartbeat, peer, write_req, write_resp, read_req, read_resp,
  unnamed, code_of, frame_type, Message, to_buffers, framed, process_message, read_msg,
}

-- A type that the enumeration names.
abbrev pub IsNamed : FrameType → Type 0
IsNamed (unnamed n) = ⊥
IsNamed _ = Unit {0}

frame_type-code_of :
    (t : FrameType) → IsNamed t → (frame_type (code_of t) ≡ t) × (code_of t < 2 ^ 16)
unfolding frame_type code_of
frame_type-code_of identify h = (refl, omega arith)
frame_type-code_of wal_append h = (refl, omega arith)
frame_type-code_of heartbeat h = (refl, omega arith)
frame_type-code_of peer h = (refl, omega arith)
frame_type-code_of write_req h = (refl, omega arith)
frame_type-code_of write_resp h = (refl, omega arith)
frame_type-code_of read_req h = (refl, omega arith)
frame_type-code_of read_resp h = (refl, omega arith)
frame_type-code_of (unnamed n) h = absurd h

abbrev header : Message → List ℕ → List ℕ
header m rest =
    put_be 4 ((length m.payload + 4) % 2 ^ 32) (put_be 2 (code_of m.type) (put_be 2 0 rest))

to_buffers-append :
    (m : Message) (rest : List ℕ) → to_buffers m ++ rest ≡ header m (m.payload ++ rest)
unfolding to_buffers
to_buffers-append m rest =
    let len = (length m.payload + 4) % 2 ^ 32 in
    rw
      (
        put_be-append 4 len (put_be 2 (code_of m.type) (put_be 2 0 m.payload)) rest,
        put_be-append 2 (code_of m.type) (put_be 2 0 m.payload) rest,
        put_be-append 2 0 m.payload rest,
      )
      refl

-- A message of a named type and at most 2 ^ 20 - 4 bytes of payload is read back by the server and
-- by the client as it was sent, and the bytes behind it are left.
pub process_message-to_buffers :
    (m : Message) (rest : List ℕ)
    → IsNamed m.type
    → length m.payload + 4 ≤ 2 ^ 20
    → (process_message (to_buffers m ++ rest) ≡ framed m rest)
      × (read_msg (to_buffers m ++ rest) ≡ some (m, rest))
unfolding process_message read_msg
process_message-to_buffers m rest h small =
    let (back, fits) = frame_type-code_of m.type h in
    let len : (length m.payload + 4) % 2 ^ 32 ≡ length m.payload + 4 = omega arith in
    let e₁ =
      read_be-put_be 4 (length m.payload + 4)
        (put_be 2 (code_of m.type) (put_be 2 0 (m.payload ++ rest))) (omega arith) in
    let e₂ = read_be-put_be 2 (code_of m.type) (put_be 2 0 (m.payload ++ rest)) (omega arith) in
    let e₃ = read_be-put_be 2 0 (m.payload ++ rest) (omega arith) in
    let l : length (m.payload ++ rest) ≡ length m.payload + length rest =
      length-append m.payload rest in
    let minus : length m.payload + 4 - 4 ≡ length m.payload = omega arith in
    let enough : ltb (length (m.payload ++ rest)) (length m.payload) ≡ false = ground (arith, l) in
    let size : (length m.payload + 4 + 2 ^ 32 - 4) % 2 ^ 32 ≡ length m.payload = omega arith in
    let in_range : (ltb (length m.payload + 4) 4 || ltb (2 ^ 20) (length m.payload + 4)) ≡ false =
      ground arith in
    (
      rw
          (
            to_buffers-append m rest,
            len,
            e₁,
            in_range,
            e₂,
            e₃,
            minus,
            enough,
            back,
            take-append m.payload rest,
            drop-append m.payload rest,
          )
          refl,
      rw
          (
            to_buffers-append m rest,
            len,
            e₁,
            e₂,
            e₃,
            size,
            enough,
            back,
            take-append m.payload rest,
            drop-append m.payload rest,
          )
          refl,
    )
