-- ===== src/Mousedb/Wire/Bodies.antt =====
-- Requests, answers and addresses arrive as they were sent.
use cs.Prelude.{
  ℕ, ◌%◌, ◌^◌, ◌<◌, ◌≡◌, refl, ltb, none, some, List, [], ◌++◌, length, length-append, take-append,
  drop-append, arith, false,
}
use cs.Prelude.Bytes.{put_be, read_be-put_be}
use cs.Mousedb.Hlc.{Hlc}
use native.Mathlib.Nat.{mod-eq_of_lt}
use cs.Mousedb.Wire.{
  write_req, read_req, encode_hlc, decode_hlc, read_string, put_string, get_string, Address,
  address_payload, read_address, put_request, get_request, read_write_req, read_read_req, ValueRec,
  read_response, not_found, found, get_result,
}

-- The fields have the width of their C++ types.
abbrev pub InWidth : Hlc → Type 0
InWidth c = (c.physical_us < 2 ^ 64) × (c.logical < 2 ^ 16) × (c.node_id < 2 ^ 32)

decode_hlc-encode_hlc :
    (c : Hlc) (rest : List ℕ) → InWidth c → decode_hlc (encode_hlc c rest) ≡ some c
unfolding decode_hlc encode_hlc
decode_hlc-encode_hlc c rest (p, l, i) =
    rw
      (
        read_be-put_be 8 c.physical_us (put_be 2 c.logical (put_be 4 c.node_id rest)) (omega arith),
        read_be-put_be 2 c.logical (put_be 4 c.node_id rest) (omega arith),
        read_be-put_be 4 c.node_id rest (omega arith),
      )
      refl

get_string-put_string :
    (width : ℕ) (s rest : List ℕ)
    → length s < 256 ^ width
    → get_string width (put_string width s rest) ≡ some (s, rest)
unfolding get_string put_string read_string
get_string-put_string width s rest h =
    let small : length s % 256 ^ width ≡ length s = mod-eq_of_lt h in
    let enough : ltb (length (s ++ rest)) (length s) ≡ false =
      ground (arith, length-append s rest) in
    rw
      (
        small,
        read_be-put_be width (length s) (s ++ rest) h,
        enough,
        take-append s rest,
        drop-append s rest,
      )
      refl

-- An address whose host has less than 2 ^ 16 bytes and whose port has 16 bits is read back from
-- the payload of IDENTIFY and PEER.
pub read_address-address_payload :
    (a : Address)
    → length a.host < 2 ^ 16
    → a.port < 2 ^ 16
    → read_address (address_payload a) ≡ some a
unfolding read_address address_payload
read_address-address_payload a h p =
    let small : a.port % 2 ^ 16 ≡ a.port = omega arith in
    rw
      (
        small,
        get_string-put_string 2 a.host (put_be 2 a.port []) (omega arith),
        read_be-put_be 2 a.port [] (omega arith),
      )
      refl

-- The server reads from the client's requests the key, and the value with a zero clock, provided
-- that the lengths fit the fields for them.
pub read_write_req-put_request :
    (key value : List ℕ)
    → length key < 2 ^ 16
    → length value < 2 ^ 32
    → (read_write_req (put_request key value).payload
        ≡ some (key, value, record { physical_us = 0; logical = 0; node_id = 0 }))
      × (read_read_req (get_request key).payload ≡ some key)
unfolding read_write_req put_request read_read_req get_request
read_write_req-put_request key value hk hv =
    let zero_clock : Hlc = record { physical_us = 0; logical = 0; node_id = 0 } in
    (
      rw
          (
            get_string-put_string 2 key (put_string 4 value (encode_hlc zero_clock []))
                (omega arith),
            get_string-put_string 4 value (encode_hlc zero_clock []) (omega arith),
            decode_hlc-encode_hlc zero_clock [] (omega arith, omega arith, omega arith),
          )
          refl,
      rw (get_string-put_string 2 key [] (omega arith)) refl,
    )

-- The client reads from the server's answer to a READ_REQ what the server has found: nothing, or
-- the value with its clock, provided that they fit the fields for them.
pub get_result-read_response :
    (get_result (read_response none) ≡ some not_found)
    × ((vr : ValueRec)
        → length vr.value < 2 ^ 32
        → InWidth vr.clock
        → get_result (read_response (some vr)) ≡ some (found vr.value vr.clock))
unfolding get_result read_response
get_result-read_response = (
  refl,
  λ vr. λ h. λ w.
      rw
        (
          get_string-put_string 4 vr.value (encode_hlc vr.clock []) (omega arith),
          decode_hlc-encode_hlc vr.clock [] w,
        )
        refl,
)

pub put_request-write_req : (key value : List ℕ) → (put_request key value).type ≡ write_req
unfolding put_request
put_request-write_req key value = refl

pub get_request-read_req : (key : List ℕ) → (get_request key).type ≡ read_req
unfolding get_request
get_request-read_req key = refl
