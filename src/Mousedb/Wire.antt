-- ===== src/Mousedb/Wire.antt =====
-- The messages of mousedb/server/exe_server/src/server.cpp and mousedb/client/src/client_main.cpp.
-- A string is the list of its bytes. `none` is a read past the end of the body, which the source
-- does not check for.
pub mod Frames
pub mod Bodies
mod Runs
use cs.Prelude.{
  ℕ, zero, suc, ◌+◌, ◌-◌, ◌*◌, ◌%◌, ◌^◌, ◌<◌, ◌==◌, ltb, leb, ◌||◌, if◌then◌else◌, Bool, true,
  false, Option, none, some, List, [], ◌∷◌, ◌++◌, length, take, drop,
}
use cs.Prelude.Options.{◌>>=◌}
use cs.Prelude.Bytes.{put_be, read_be}
use cs.Mousedb.Hlc.{Hlc}

-- Any other value is `unnamed`: the enumeration has a fixed underlying type.
pub data FrameType : Type 0 where
  identify wal_append heartbeat peer write_req write_resp read_req read_resp : FrameType
  unnamed : ℕ → FrameType

unfoldable pub code_of : FrameType → ℕ
code_of identify = 0
code_of wal_append = 1
code_of heartbeat = 2
code_of peer = 3
code_of write_req = 4
code_of write_resp = 5
code_of read_req = 6
code_of read_resp = 7
code_of (unnamed n) = n

unfoldable pub frame_type : ℕ → FrameType
frame_type n =
    if n == 0
    then identify
    else if n == 1
    then wal_append
    else if n == 2
    then heartbeat
    else if n == 3
    then peer
    else if n == 4
    then write_req
    else if n == 5
    then write_resp
    else if n == 6
    then read_req
    else if n == 7
    then read_resp
    else unnamed n

pub record Message : Type 0 where
  pub type : FrameType
  pub payload : List ℕ

-- The bytes of the two buffers, one after the other.
pub to_buffers : Message → List ℕ
to_buffers m =
    put_be 4 ((length m.payload + 4) % 2 ^ 32) (put_be 2 (code_of m.type) (put_be 2 0 m.payload))

-- What reading a frame from a connection comes to: more bytes are needed, the length is refused
-- and the session forgotten, or a frame with the bytes behind it.
pub data Frame : Type 0 where
  starved : Frame
  refused : Frame
  framed : Message → List ℕ → Frame

-- A read that may wait for bytes.
infixl 5 ◌>>read◌
abbrev pub ◌>>read◌ {ℓ} : {A : Type ℓ} → Option A → (A → Frame) → Frame
none >>read f = starved
some a >>read f = f a

-- The nested reads of `process_message`, from the bytes that the peer has sent.
pub process_message : List ℕ → Frame
process_message bytes = read_be 4 0 bytes >>read λ (len, bytes).
    let rest = read_be 2 0 bytes >>read λ (typ, bytes). read_be 2 0 bytes >>read λ (rsv, bytes).
    if ltb (length bytes) (len - 4)
    then starved
    else framed (record { type = frame_type typ; payload = take (len - 4) bytes })
        (drop (len - 4) bytes) in
    if ltb len 4 || ltb (2 ^ 20) len then refused else rest

-- The client's `read_msg` does not look at the length before it uses it: a length below 4 asks for
-- a body of nearly 2 ^ 32 bytes.
pub read_msg : List ℕ → Option (Message × List ℕ)
read_msg bytes = read_be 4 0 bytes >>= λ (len, bytes). read_be 2 0 bytes >>= λ (typ, bytes).
    read_be 2 0 bytes >>= λ (rsv, bytes).
    let size = (len + 2 ^ 32 - 4) % 2 ^ 32 in
    if ltb (length bytes) size
    then none
    else some (record { type = frame_type typ; payload = take size bytes }, drop size bytes)

-- Fourteen bytes.
pub encode_hlc : Hlc → List ℕ → List ℕ
encode_hlc c rest = put_be 8 c.physical_us (put_be 2 c.logical (put_be 4 c.node_id rest))

pub decode_hlc : List ℕ → Option Hlc
decode_hlc bytes = read_be 8 0 bytes >>= λ (phys, bytes). read_be 2 0 bytes >>= λ (log, bytes).
    read_be 4 0 bytes >>= λ (id, bytes).
    some (record { physical_us = phys; logical = log; node_id = id })

-- `std::string(p, n)` and `p += n`
pub read_string : ℕ → List ℕ → Option (List ℕ × List ℕ)
read_string n bytes = if ltb (length bytes) n then none else some (take n bytes, drop n bytes)

-- A string with its length before it, in `width` bytes.
pub put_string : ℕ → List ℕ → List ℕ → List ℕ
put_string width s rest = put_be width (length s % 256 ^ width) (s ++ rest)

pub get_string : ℕ → List ℕ → Option (List ℕ × List ℕ)
get_string width bytes = read_be width 0 bytes >>= λ (n, bytes). read_string n bytes

pub record Address : Type 0 where
  pub host : List ℕ
  pub port : ℕ

-- The payload of IDENTIFY and of PEER.
pub address_payload : Address → List ℕ
address_payload a = put_string 2 a.host (put_be 2 (a.port % 2 ^ 16) [])

pub read_address : List ℕ → Option Address
read_address body = get_string 2 body >>= λ (host, bytes).
    read_be 2 0 bytes >>= λ (port, bytes). some (record { host = host; port = port })

-- The requests of the client.
pub put_request : List ℕ → List ℕ → Message
put_request key value = record {
  type = write_req;
  payload =
      put_string 2 key
        (put_string 4 value (encode_hlc (record { physical_us = 0; logical = 0; node_id = 0 }) []));
}

pub get_request : List ℕ → Message
get_request key = record { type = read_req; payload = put_string 2 key [] }

-- What the server reads from a WRITE_REQ and from a READ_REQ.
pub read_write_req : List ℕ → Option (List ℕ × List ℕ × Hlc)
read_write_req body = get_string 2 body >>= λ (key, bytes).
    get_string 4 bytes >>= λ (value, bytes). decode_hlc bytes >>= λ ts. some (key, value, ts)

pub read_read_req : List ℕ → Option (List ℕ)
read_read_req body = get_string 2 body >>= λ (key, bytes). some key

pub record ValueRec : Type 0 where
  pub value : List ℕ
  pub clock : Hlc

-- The answer to a READ_REQ.
pub read_response : Option ValueRec → Message
read_response none = record { type = read_resp; payload = 1 ∷ [] }
read_response (some vr) = record {
  type = read_resp;
  payload = 0 ∷ put_string 4 vr.value (encode_hlc vr.clock []);
}

-- What the client makes of the answers: a PUT is fine or not; a GET fails, finds nothing, or finds
-- a value with its clock.
unfoldable pub put_ok : Message → Bool
put_ok m = elim m.type [
  | write_resp ↦ elim m.payload [ [] ↦ false | b ∷ bytes ↦ b == 0 ]
  | _ ↦ false
]

pub data Found : Type 0 where
  failed not_found : Found
  found : List ℕ → Hlc → Found

pub get_result : Message → Option Found
get_result m = elim m.type [
  | read_resp ↦ elim m.payload [
    | [] ↦ some failed
    | b ∷ bytes ↦
        let value = get_string 4 bytes >>= λ (value, bytes).
        decode_hlc bytes >>= λ ts. some (found value ts) in
        if b == 1 then some not_found else value
  ]
  | _ ↦ some failed
]
