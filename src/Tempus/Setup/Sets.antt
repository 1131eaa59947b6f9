-- ===== src/Tempus/Setup/Sets.antt =====
-- What accepting or connecting to one machine does to the channels.
use cs.Prelude.{
  ℕ, zero, suc, ◌+◌, ◌^◌, ◌<◌, ◌≡◌, ◌≢◌, refl, sym, ap, ◌∙◌, ◌==◌, ltb, true, false, Option, none,
  some, List, [], ◌∷◌, length, set, length-set, get_elem?, get_elem?-set_self, get_elem?-set_ne,
  arith,
}
use cs.Prelude.Bytes.{le_bytes, length-le_bytes, of_le_bytes-le_bytes}
use mathlib.Core.Path.{subst}
use cs.Tempus.Setup.{
  Stage, goes, then_do, Accept, Try, connects, refuses, Connect, read_rank, put_channel,
  accept_ranked, accept_one, try_connect, send_rank, connect_from,
}

-- A machine of lower rank that connects and sends its rank whole.
abbrev pub arrives : (ℕ → ℕ) → ℕ → Accept
arrives socket_to r = record { other_sock = some (socket_to r); reads = le_bytes 4 r ∷ [] }

-- After some refusals, with a new socket each, the last socket is connected.
abbrev pub Reached : ℕ → ℕ → List Try → Type 0
Reached s t [] = ⊥
Reached s t (connects ∷ tries) = t ≡ s
Reached s t (refuses none ∷ tries) = ⊥
Reached s t (refuses (some u) ∷ tries) = Reached s u tries

pub record Reaches (s : ℕ) (c : Connect) : Type 0 where
  pub first : ℕ
  pub made : c.channel ≡ some first
  pub reached : Reached s first c.tries
  pub whole : c.sends ≡ 4 ∷ []

-- The machines from a rank on are reached, in order.
abbrev pub AllReached : (ℕ → ℕ) → ℕ → ℕ → List Connect → Type 0
AllReached socket_to zero other_rank connections = Unit {0}
AllReached socket_to (suc left) other_rank [] = ⊥
AllReached socket_to (suc left) other_rank (c ∷ connections) =
    Reaches (socket_to other_rank) c × AllReached socket_to left (other_rank + 1) connections

-- One channel is set, and the others stay.
pub record Sets (i s : ℕ) (channels : List ℕ) (stage : Stage) : Type 0 where
  pub after : List ℕ
  pub went : stage ≡ goes after
  pub same_length : length after ≡ length channels
  pub here : get_elem? after i ≡ some s
  pub others : (j : ℕ) → i ≢ j → get_elem? after j ≡ get_elem? channels j

put_channel-Sets :
    (i s : ℕ) (channels : List ℕ)
    → i < length channels
    → Sets i s channels (put_channel i s channels)
unfolding put_channel
put_channel-Sets i s channels h =
    let inside : ltb i (length channels) ≡ true = ground (arith, h) in
    rw inside (record {
      after = set channels i s;
      went = refl;
      same_length = length-set channels i s;
      here = get_elem?-set_self channels i s h;
      others = λ j n. get_elem?-set_ne channels s n;
    })

pub arrives-Sets :
    (socket_to : ℕ → ℕ) (r sock : ℕ) (channels : List ℕ)
    → r < length channels
    → r < 2 ^ 31
    → Sets r
        (socket_to r)
        channels
        (accept_one sock (arrives socket_to r).other_sock (arrives socket_to r).reads channels)
unfolding accept_one accept_ranked read_rank
arrives-Sets socket_to r sock channels h w =
    let whole : (length (le_bytes 4 r) == 4) ≡ true = ground (arith, length-le_bytes 4 r) in
    let one_at_least : (length (le_bytes 4 r) == 0) ≡ false = ground (arith, length-le_bytes 4 r) in
    rw (one_at_least, whole, of_le_bytes-le_bytes 4 r (omega (arith, w)))
      (put_channel-Sets r (socket_to r) channels h)

-- A stage that sets the channel, after one that did.
Sets-then :
    (i s u : ℕ) (channels : List ℕ) (stage : Stage) (f : List ℕ → Stage)
    → Sets i u channels stage
    → ((cs : List ℕ) → length cs ≡ length channels → get_elem? cs i ≡ some u → Sets i s cs (f cs))
    → Sets i s channels (then_do stage f)
unfolding then_do
Sets-then i s u channels stage f a next =
    let b = next a.after a.same_length a.here in
    subst (λ (st : Stage). Sets i s channels (then_do st f)) (sym a.went)
      (unfold then_do in
        record {
          after = b.after;
          went = b.went;
          same_length = b.same_length ∙ a.same_length;
          here = b.here;
          others = λ j n. b.others j n ∙ a.others j n;
        })

try_connect-Sets :
    (i s t sock : ℕ) (tries : List Try) (channels : List ℕ)
    → Reached s t tries
    → i < length channels
    → get_elem? channels i ≡ some t
    → Sets i s channels (try_connect sock i tries channels)
unfolding try_connect
try_connect-Sets i s t sock [] channels r h e = absurd r
try_connect-Sets i s t sock (connects ∷ tries) channels r h e = record {
  after = channels;
  went = refl;
  same_length = refl;
  here = e ∙ ap some r;
  others = λ j n. refl;
}
try_connect-Sets i s t sock (refuses none ∷ tries) channels r h e = absurd r
try_connect-Sets i s t sock (refuses (some u) ∷ tries) channels r h e =
    let later =
      try_connect-Sets i s u sock tries (set channels i u) r
        (omega (arith, h, length-set channels i u)) (get_elem?-set_self channels i u h) in
    record {
      after = later.after;
      went = later.went;
      same_length = later.same_length ∙ length-set channels i u;
      here = later.here;
      others = λ j n. later.others j n ∙ get_elem?-set_ne channels u n;
    }

send_rank-Sets :
    (i s sock : ℕ) (sends channels : List ℕ)
    → sends ≡ 4 ∷ []
    → get_elem? channels i ≡ some s
    → Sets i s channels (send_rank sock sends channels)
unfolding send_rank
send_rank-Sets i s sock sends channels whole e =
    subst (λ (l : List ℕ). Sets i s channels (send_rank sock l channels)) (sym whole)
      (unfold send_rank in
        record {
          after = channels;
          went = refl;
          same_length = refl;
          here = e;
          others = λ j n. refl;
        })

pub connect_from-Sets :
    (i s sock : ℕ) (c : Connect) (channels : List ℕ)
    → Reaches s c
    → i < length channels
    → Sets i s channels (connect_from sock i c.channel c.tries c.sends channels)
unfolding connect_from
connect_from-Sets i s sock c channels r h =
    subst (λ (o : Option ℕ). Sets i s channels (connect_from sock i o c.tries c.sends channels))
      (sym r.made)
      (unfold connect_from in
        Sets-then i s s channels _ _
          (Sets-then i s r.first channels _ _ (put_channel-Sets i r.first channels h) (λ cs l e.
            try_connect-Sets i s r.first sock c.tries cs r.reached (omega (arith, h, l)) e))
          (λ cs l e. send_rank-Sets i s sock c.sends cs r.whole e))
