-- ===== src/Mousedb/Peers.antt =====
-- The sessions and the `ConnectionManager` of mousedb/server/exe_server/src/server.cpp.
-- A session is named by a number, its socket by nothing; the table of the sessions is the list of
-- its entries in the order of iteration. `send` puts a message at the end of the queue that the
-- strand writes out. The database is a parameter with its two operations.
pub mod Requests
pub mod Topology
mod Runs
use cs.Prelude.{
  ℕ, ◌+◌, ◌%◌, ◌^◌, ◌==◌, ltb, ◌&&◌, ◌||◌, not, if◌then◌else◌, Bool, true, false, Option, none,
  some, List, [], ◌∷◌, ◌++◌, map,
}
use cs.Prelude.Options.{◌>>=◌}
use cs.Mousedb.Hlc.{Hlc, Round, advance}
use cs.Mousedb.KvStore.{Sign, negative, zero_sign, positive, compare_keys}
use cs.Mousedb.Wire.{
  FrameType, identify, heartbeat, peer, write_req, write_resp, read_req, Message, Address,
  address_payload, read_address, read_write_req, read_read_req, ValueRec, read_response,
}

-- `operator<` and `operator==`; strings compare byte by byte, then by length.
pub before : Address → Address → Bool
before a b = elim (compare_keys a.host b.host) [
  | negative ↦ true
  | zero_sign ↦ ltb a.port b.port
  | positive ↦ false
]

pub same_address : Address → Address → Bool
same_address a b = elim (compare_keys a.host b.host) [ zero_sign ↦ a.port == b.port | _ ↦ false ]

pub record Session : Type 0 where
  pub outbound : Bool
  pub remote : Address
  pub write_q : List Message

abbrev pub Sessions : Type 0
Sessions = List (ℕ × Session)

pub is_server_peer : Session → Bool
is_server_peer s = not (s.remote.port == 0)

abbrev pub send : Session → Message → Session
send s m = record s { write_q = s.write_q ++ m ∷ [] }

-- A change of the session of that name.
pub at_session : ℕ → (Session → Session) → Sessions → Sessions
at_session id f [] = []
at_session id f (e ∷ sessions) =
    let rest = at_session id f sessions in (if e.0 == id then (e.0, f e.1) else e) ∷ rest

pub has_session : ℕ → Sessions → Bool
has_session id [] = false
has_session id (e ∷ sessions) =
    let rest = has_session id sessions in if e.0 == id then true else rest

abbrev pub peer_message : Address → Message
peer_message a = record { type = peer; payload = address_payload a }

-- The two loops of `broadcast_peer`.
pub announce : Address → ℕ → Sessions → Sessions
announce newcomer skip [] = []
announce newcomer skip (e ∷ sessions) =
    let rest = announce newcomer skip sessions in
    (if not (e.0 == skip) then (e.0, send e.1 (peer_message newcomer)) else e) ∷ rest

pub introduce : ℕ → Sessions → Session → Session
introduce skip [] new_sess = new_sess
introduce skip (e ∷ sessions) new_sess =
    introduce skip sessions
      (if not (e.0 == skip) then send new_sess (peer_message e.1.remote) else new_sess)

pub broadcast_peer : Address → ℕ → Sessions → Sessions
broadcast_peer newcomer skip sessions =
    let announced = announce newcomer skip sessions in
    if has_session skip announced
    then at_session skip (introduce skip announced) announced
    else announced

pub on_identify : ℕ → Address → Sessions → Sessions
on_identify id addr sessions =
    broadcast_peer addr id (at_session id (λ s. record s { remote = addr }) sessions)

pub send_all : Message → Sessions → Sessions
send_all m [] = []
send_all m (e ∷ sessions) =
    (if is_server_peer e.1 then (e.0, send e.1 m) else e) ∷ send_all m sessions

-- `unordered_map::erase`
pub forget : ℕ → Sessions → Sessions
forget id [] = []
forget id (e ∷ sessions) = let rest = forget id sessions in if e.0 == id then rest else e ∷ rest

pub connected : Address → Sessions → Bool
connected a [] = false
connected a (e ∷ sessions) =
    let rest = connected a sessions in if same_address e.1.remote a then true else rest

-- Whether `connect_to` opens a connection.
pub connects_to : Address → Sessions → Address → Bool
connects_to self sessions a =
    not (same_address a self || connected a sessions || not (before a self))

-- The sessions made by an accepted and by an opened connection, both started.
pub accepted : Session
accepted = record { outbound = false; remote = record { host = []; port = 0 }; write_q = [] }

pub opened : Address → Address → Session
opened self a = record {
  outbound = true;
  remote = a;
  write_q = record { type = identify; payload = address_payload self } ∷ [];
}

-- One tick of the timer.
abbrev pub beat : Sessions → Sessions
beat sessions = send_all (record { type = heartbeat; payload = [] }) sessions

module _ {Db : Type 0} (db_insert : Db → List ℕ → List ℕ → Hlc → Db)
    (db_find : Db → List ℕ → Option (List ℕ)) where
  pub record Manager : Type 0 where
    pub self : Address
    pub hlc : ℕ
    pub sessions : Sessions
    pub db : Db

  -- `ValueRec{res_str}` leaves the clock at its zeros.
  pub kv_get : Manager → List ℕ → Option ValueRec
  kv_get m key = db_find m.db key >>= λ value.
      some (record { value = value; clock = record { physical_us = 0; logical = 0; node_id = 0 } })

  abbrev pub answer : ℕ → Message → Manager → Manager
  answer id r m = record m { sessions = at_session id (λ s. send s r) m.sessions }

  -- The `switch` on a frame that session `id` has read, with the rounds that its merge of clocks
  -- takes. The result has the address to connect to, if the frame names one.
  pub handle : Manager → ℕ → Message → List Round → Option (Manager × Option Address)
  handle m id frame rounds = elim frame.type [
    | write_req ↦ read_write_req frame.payload >>= λ (key, value, remote_ts).
        advance (m.self.port % 2 ^ 32) (some remote_ts) m.hlc rounds >>= λ (merged, state). some (
          answer id (record { type = write_resp; payload = 0 ∷ [] })
              (record m { hlc = state; db = db_insert m.db key value merged }),
          none,
        )
    | read_req ↦ read_read_req frame.payload >>= λ key.
        some (answer id (read_response (kv_get m key)) m, none)
    | identify ↦ read_address frame.payload >>= λ addr.
        some (record m { sessions = on_identify id addr m.sessions }, none)
    | peer ↦ read_address frame.payload >>= λ addr.
        some (m, if connects_to m.self m.sessions addr then some addr else none)
    | _ ↦ some (m, none)
  ]
