-- ===== src/Mousedb/Peers/Requests.antt =====
-- A request, from the client to the database and back.
use cs.Prelude.{ℕ, ◌%◌, ◌^◌, ◌<◌, ◌≡◌, refl, true, Option, none, some, List, [], ◌∷◌, length, arith}
use cs.Mousedb.Hlc.{Hlc, Round, advance}
use cs.Mousedb.Wire.{
  write_resp, Message, put_request, get_request, put_ok, read_response, get_result, not_found,
  found,
}
use cs.Mousedb.Wire.Bodies.{
  read_write_req-put_request, get_result-read_response, put_request-write_req, get_request-read_req,
}
use cs.Mousedb.Peers.{Manager, kv_get, answer, handle}

abbrev pub zero_clock : Hlc
zero_clock = record { physical_us = 0; logical = 0; node_id = 0 }

module _ {Db : Type 0} (db_insert : Db → List ℕ → List ℕ → Hlc → Db)
    (db_find : Db → List ℕ → Option (List ℕ)) where
  -- A PUT of the client stores the pair under the clock that the server's merge with a zero clock
  -- returns, keeps the state of that merge, and queues one answer, which the client reads as
  -- success, provided that key and value fit their length fields.
  pub handle-put_request :
      (m : Manager db_insert db_find) (id : ℕ) (key value : List ℕ) (rounds : List Round)
      (merged : Hlc) (state : ℕ)
      → length key < 2 ^ 16
      → length value < 2 ^ 32
      → advance (m.self.port % 2 ^ 32) (some zero_clock) m.hlc rounds ≡ some (merged, state)
      → (r : Message) × (handle db_insert db_find m id (put_request key value) rounds
          ≡ some (
            answer db_insert db_find id r
                (record m { hlc = state; db = db_insert m.db key value merged }),
            none,
          ))
        × (put_ok r ≡ true)
  unfolding handle put_ok
  handle-put_request m id key value rounds merged state hk hv e = (
    record { type = write_resp; payload = 0 ∷ [] },
    rw (put_request-write_req key value, (read_write_req-put_request key value hk hv).0, e) refl,
    refl,
  )

  -- A GET of the client changes nothing but the queue, and the answer tells the client what the
  -- database finds; the clock that comes with a value is always the zero clock.
  pub handle-get_request :
      (m : Manager db_insert db_find) (id : ℕ) (key : List ℕ) (rounds : List Round)
      → length key < 2 ^ 16
      → (r : Message) × (handle db_insert db_find m id (get_request key) rounds
          ≡ some (answer db_insert db_find id r m, none))
        × (db_find m.db key ≡ none → get_result r ≡ some not_found)
        × ((value : List ℕ)
            → length value < 2 ^ 32
            → db_find m.db key ≡ some value
            → get_result r ≡ some (found value zero_clock))
  unfolding handle kv_get
  handle-get_request m id key rounds hk = (
    read_response (kv_get db_insert db_find m key),
    rw (get_request-read_req key, (read_write_req-put_request key [] hk (omega arith)).1) refl,
    (λ e. rw e (get_result-read_response.0)),
    (λ value. λ h. λ e. rw e (
        get_result-read_response.1
          (record { value = value; clock = record { physical_us = 0; logical = 0; node_id = 0 } }) h
          (omega arith, omega arith, omega arith))),
  )
