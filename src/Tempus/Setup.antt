-- ===== src/Tempus/Setup.antt =====
-- The set-up of a machine in tempus/src/main.cpp: it listens, accepts the machines of lower rank and
-- connects to those of higher rank, until each has a channel.
-- What the system calls answer is an argument; `none` is an answer below 0, a read of no bytes or a send
-- of 0 stands for an answer that is not above 0, and a call without an answer waits. `buf` is an array
-- of four bytes, of which `&buf + size` is `4 * size` bytes on.
pub mod Sets
pub mod Channels
mod Runs
use cs.Prelude.{
  ℕ, zero, suc, ◌+◌, ◌-◌, ◌==◌, ltb, if◌then◌else◌, not, Bool, Option, none, some, List, [], ◌∷◌,
  ◌++◌, length, set, replicate, take, drop,
}
use cs.Prelude.Bytes.{of_le_bytes}

-- The process goes on to `runNode`, closes these descriptors and returns 1, waits for good, or
-- leaves an array.
pub data Outcome : Type 0 where
  ready exits : List ℕ → Outcome
  waits outside : Outcome

pub data Stage : Type 0 where
  goes : List ℕ → Stage
  ends : Outcome → Stage

unfoldable pub then_do : Stage → (List ℕ → Stage) → Stage
then_do (goes channels) f = f channels
then_do (ends outcome) f = ends outcome

pub record Listening : Type 0 where
  pub sock : Option ℕ
  pub bound : Bool
  pub listens : Bool

pub record Accept : Type 0 where
  pub other_sock : Option ℕ
  pub reads : List (List ℕ)

pub data Try : Type 0 where
  connects : Try
  refuses : Option ℕ → Try

pub record Connect : Type 0 where
  pub channel : Option ℕ
  pub tries : List Try
  pub sends : List ℕ

pub data Read : Type 0 where
  got : ℕ → Read
  broken beyond pending : Read

-- The rounds of the loop around `recv`: after a part of the rank, the next part is stored behind `buf`.
unfoldable pub read_more : List (List ℕ) → Read
read_more [] = pending
read_more (bytes ∷ reads) = if length bytes == 0 then broken else beyond

unfoldable pub read_rank : List (List ℕ) → Read
read_rank [] = pending
read_rank (bytes ∷ reads) =
    if length bytes == 0
    then broken
    else if length bytes == 4
    then got (of_le_bytes bytes)
    else read_more reads

-- `channels[other_rank] = other_sock`
unfoldable pub put_channel : ℕ → ℕ → List ℕ → Stage
put_channel i channel channels =
    if ltb i (length channels) then goes (set channels i channel) else ends outside

unfoldable pub accept_ranked : ℕ → ℕ → List ℕ → Read → Stage
accept_ranked sock other_sock channels (got other_rank) = put_channel other_rank other_sock channels
accept_ranked sock other_sock channels broken = ends (exits (channels ++ (other_sock ∷ sock ∷ [])))
accept_ranked sock other_sock channels beyond = ends outside
accept_ranked sock other_sock channels pending = ends waits

unfoldable pub accept_one : ℕ → Option ℕ → List (List ℕ) → List ℕ → Stage
accept_one sock none reads channels = ends (exits (channels ++ (sock ∷ [])))
accept_one sock (some other_sock) reads channels =
    accept_ranked sock other_sock channels (read_rank reads)

unfoldable pub accept_all : ℕ → ℕ → List Accept → List ℕ → Stage
accept_all zero sock accepts channels = goes channels
accept_all (suc left) sock [] channels = ends waits
accept_all (suc left) sock (a ∷ accepts) channels =
    then_do (accept_one sock a.other_sock a.reads channels) (λ cs. accept_all left sock accepts cs)

-- Closing the descriptor -1, which stands where no socket was made, does nothing.
unfoldable pub close_without : ℕ → ℕ → List ℕ → Stage
close_without sock i channels =
    ends (exits (take i channels ++ drop (i + 1) channels ++ (sock ∷ [])))

-- The loop around `connect`, with a new socket after each failure.
unfoldable pub try_connect : ℕ → ℕ → List Try → List ℕ → Stage
try_connect sock i [] channels = ends waits
try_connect sock i (connects ∷ tries) channels = goes channels
try_connect sock i (refuses none ∷ tries) channels = close_without sock i channels
try_connect sock i (refuses (some channel) ∷ tries) channels =
    try_connect sock i tries (set channels i channel)

-- After a part of the rank, the next call reads behind `buf`.
unfoldable pub send_rank : ℕ → List ℕ → List ℕ → Stage
send_rank sock [] channels = ends waits
send_rank sock (bytes_sent ∷ sends) channels =
    if bytes_sent == 0
    then ends (exits (channels ++ (sock ∷ [])))
    else if bytes_sent == 4
    then goes channels
    else ends outside

unfoldable pub connect_from : ℕ → ℕ → Option ℕ → List Try → List ℕ → List ℕ → Stage
connect_from sock i none tries sends channels = close_without sock i channels
connect_from sock i (some channel) tries sends channels =
    then_do (then_do (put_channel i channel channels) (λ cs. try_connect sock i tries cs))
      (λ cs. send_rank sock sends cs)

unfoldable pub connect_all : ℕ → ℕ → ℕ → List Connect → List ℕ → Stage
connect_all zero other_rank sock connections channels = goes channels
connect_all (suc left) other_rank sock [] channels = ends waits
connect_all (suc left) other_rank sock (c ∷ connections) channels =
    then_do (connect_from sock (other_rank - 1) c.channel c.tries c.sends channels)
      (λ cs. connect_all left (other_rank + 1) sock connections cs)

unfoldable pub finish : Stage → Outcome
finish (goes channels) = ready channels
finish (ends outcome) = outcome

unfoldable pub set_up_with : ℕ → ℕ → ℕ → List Accept → List Connect → Outcome
set_up_with rank num_vms sock accepts connections = finish (
    then_do (accept_all rank sock accepts (replicate (num_vms - 1) 0))
      (λ cs. connect_all (num_vms - (rank + 1)) (rank + 1) sock connections cs))

unfoldable pub listen_on : ℕ → ℕ → Option ℕ → Bool → Bool → List Accept → List Connect → Outcome
listen_on rank num_vms none bound listens accepts connections = exits []
listen_on rank num_vms (some sock) bound listens accepts connections =
    if not bound
    then exits (sock ∷ [])
    else if not listens
    then exits (sock ∷ [])
    else set_up_with rank num_vms sock accepts connections

unfoldable pub set_up : ℕ → ℕ → Listening → List Accept → List Connect → Outcome
set_up rank num_vms l accepts connections =
    listen_on rank num_vms l.sock l.bound l.listens accepts connections
