-- ===== src/Converse/Client/Kept.antt =====
-- What the backend's code keeps: the readers are those of the user and of the server.
use cs.Prelude.{
  ℕ, ◌+◌, ◌≡◌, ◌≢◌, refl, sym, ap, ◌==◌, Bool, true, false, Bool-cases, inl, inr, Option, none,
  some, List, [], ◌∷◌, arith,
}
use cs.Converse.Link.{Address}
use cs.Converse.Models.{User, Conversation}
use cs.Converse.Service.Requests.{Request}
use cs.Converse.Client.{
  Code, unavailable, other_error, Rpc, answered, failed, Signal, Backend, Ended, returned, blocked,
  relocked, null_access, Action, return, go_on, and_then, emit, lock_shared, unlock_shared,
  lock_unique, locked, send,
}
use mathlib.Core.Path.{subst}
use cs.Converse.Client.Session.{
  put_addresses, servers_told, connect_first, connected_to, read_again, resume, reconnect,
  reconnect_from, handle_reconnect, respond,
}

abbrev pub Reader : Type 0
Reader = Option (Address × ℕ)

abbrev pub Watching : Option User → Option Conversation → Address → Reader → Reader → Type 0
Watching none conversation server messages reads =
    (conversation ≡ none) × (messages ≡ none) × (reads ≡ none)
Watching (some u) conversation server messages reads =
    (messages ≡ some (server, u.id)) × (reads ≡ some (server, u.id))

-- Without a user there is no reader and no conversation; a user's readers read for that user, and all
-- readers from the server that requests go to.
abbrev pub Consistent : Backend → Type 0
Consistent b =
    Watching b.user b.conversation b.server b.message_reader b.read_messages_reader
    × (b.servers_reader ≡ b.server)

-- What a piece of code may count on besides, and the locks that it holds.
abbrev pub Present : {A : Type 0} → Bool → Option A → Type 0
Present {A} true o = (a : A) × (o ≡ some a)
Present false o = Unit {0}

pub record Good (signed open_one : Bool) (n : ℕ) (b : Backend) : Type 0 where
  pub user_signed : Present signed b.user
  pub one_open : Present open_one b.conversation
  pub consistent : Consistent b
  pub held : b.shared ≡ n

-- Code that returns a state with this, blocks where `B true`, or locks the mutex again where `B false`;
-- it follows no null pointer.
abbrev pub Ensures : {A : Type 0} → (Bool → Type 0) → (Backend → Type 0) → Ended A → Type 0
Ensures B P (returned a b) = P b
Ensures B P blocked = B true
Ensures B P relocked = B false
Ensures B P null_access = ⊥

abbrev pub Keeps : {A : Type 0} → (Bool → Type 0) → ℕ → Bool → Bool → Action A → Type 0
Keeps B n s o m = (b : Backend) → Good s o n b → Ensures B (Good s o n) (m b)

module _ (B : Bool → Type 0) (n : ℕ) (s o : Bool) where
  pub Keeps-and_then :
      {A C : Type 0} (m : Action A) (f : A → Action C)
      → Keeps B n s o m
      → ((a : A) → Keeps B n s o (f a))
      → Keeps B n s o (and_then m f)
  unfolding and_then go_on
  Keeps-and_then {A} {C} m f k ks b g = from (m b) (k b g)
    where
      from : (r : Ended A) → Ensures B (Good s o n) r → Ensures B (Good s o n) (go_on f r)
      from (returned a b') g' = ks a b' g'
      from blocked g' = g'
      from relocked g' = g'
      from null_access g' = absurd g'

  pub Keeps-return : {A : Type 0} (a : A) → Keeps B n s o (return a)
  unfolding return
  Keeps-return a b g = g

  pub Keeps-emit : (signal : Signal) → Keeps B n s o (emit signal)
  unfolding emit
  Keeps-emit signal b g = record {
    user_signed = g.user_signed;
    one_open = g.one_open;
    consistent = g.consistent;
    held = g.held;
  }

  pub Keeps-send : (request : Request) → Keeps B n s o (send request)
  unfolding send
  Keeps-send request b g = record {
    user_signed = g.user_signed;
    one_open = g.one_open;
    consistent = g.consistent;
    held = g.held;
  }

  -- The server changes, and the readers with it.
  Keeps-resume :
      (healthy : Address → Bool) (found : Option Address) → Keeps B n s o (resume healthy found)
  unfolding resume connected_to read_again and_then go_on
  Keeps-resume healthy none b g = record {
    user_signed = g.user_signed;
    one_open = g.one_open;
    consistent = g.consistent;
    held = g.held;
  }
  Keeps-resume healthy (some address) b g = by_user b.user refl g.consistent.0
    where
      by_user :
          (user : Option User)
          → b.user ≡ user
          → Watching user b.conversation b.server b.message_reader b.read_messages_reader
          → Ensures B (Good s o n) (
              read_again healthy user
                (record b { server = address; cluster_addresses = []; servers_reader = address }))
      by_user none e w = record {
        user_signed = g.user_signed;
        one_open = g.one_open;
        consistent = (
          subst
              (λ (v : Option User).
                Watching v b.conversation address b.message_reader b.read_messages_reader)
              (sym e) w,
          refl,
        );
        held = g.held;
      }
      by_user (some u) e w = record {
        user_signed = g.user_signed;
        one_open = g.one_open;
        consistent = (
          subst
              (λ (v : Option User).
                Watching v b.conversation address (some (address, u.id)) (some (address, u.id)))
              (sym e) (refl, refl),
          refl,
        );
        held = g.held;
      }

  pub Keeps-lock_unique : (n ≢ 0 → B true) → Keeps B n s o lock_unique
  unfolding lock_unique
  Keeps-lock_unique may b g = elim (Bool-cases (b.shared == 0)) [
    | inl fine ↦ rw fine g
    | inr held ↦ rw held (may (λ zero. ground (arith, held, g.held, zero)))
  ]

  pub Keeps-put_addresses : (addresses : List Address) → Keeps B n s o (put_addresses addresses)
  unfolding put_addresses
  Keeps-put_addresses addresses b g = record {
    user_signed = g.user_signed;
    one_open = g.one_open;
    consistent = g.consistent;
    held = g.held;
  }

  -- The mutex that is held is locked again.
  pub Keeps-relocking : {A : Type 0} (m : Action A) → n ≢ 0 → B false → Keeps B n s o (locked m)
  unfolding locked and_then go_on lock_shared
  Keeps-relocking m held again b g =
      let taken : (b.shared == 0) ≡ false = ground (arith, g.held, held) in rw taken again

  pub Keeps-handle_reconnect :
      (healthy : Address → Bool) (code : Code)
      → (code ≡ unavailable → B true)
      → Keeps B n s o (handle_reconnect healthy code)
  unfolding handle_reconnect
  Keeps-handle_reconnect healthy other_error may b g = g
  Keeps-handle_reconnect healthy unavailable may b g = by_addresses b.cluster_addresses
    where
      reconnects : Keeps B n s o (reconnect healthy)
      reconnects =
          unfold reconnect in
          Keeps-and_then lock_unique _ (Keeps-lock_unique (λ h. may refl))
            (λ l d. Keeps-resume healthy (connect_first healthy d.cluster_addresses) d)

      by_addresses :
          (addresses : List Address) → Ensures B (Good s o n) (reconnect_from healthy addresses b)
      by_addresses [] = unfold reconnect_from return in g
      by_addresses (address ∷ addresses) = unfold reconnect_from in reconnects b g

  pub Keeps-respond :
      {A : Type 0} (healthy : Address → Bool) (rpc : Rpc A) (f : A → Action (Unit {0}))
      → (rpc ≡ failed unavailable → B true)
      → ((a : A) → Keeps B n s o (f a))
      → Keeps B n s o (respond healthy rpc f)
  unfolding respond
  Keeps-respond healthy (answered a) f may k = k a
  Keeps-respond healthy (failed code) f may k =
      Keeps-handle_reconnect healthy code (λ e. may (ap failed e))

module _ (B : Bool → Type 0) (s o : Bool) where
  -- The lock is released as often as it is taken.
  pub Keeps-locked : {A : Type 0} (m : Action A) → Keeps B 1 s o m → Keeps B 0 s o (locked m)
  unfolding locked and_then go_on lock_shared unlock_shared return
  Keeps-locked {A} m k b g =
      let free : (b.shared == 0) ≡ true = ground (arith, g.held) in
      rw free (from (m held_once) (k held_once once))
    where
      held_once : Backend
      held_once = record b { shared = b.shared + 1 }

      once : Good s o 1 held_once
      once = record {
        user_signed = g.user_signed;
        one_open = g.one_open;
        consistent = g.consistent;
        held = omega (arith, g.held);
      }

      from :
          (r : Ended A)
          → Ensures B (Good s o 1) r
          → Ensures B (Good s o 0) (go_on (λ a. and_then unlock_shared (λ u. return a)) r)
      from (returned a b') g' = record {
        user_signed = g'.user_signed;
        one_open = g'.one_open;
        consistent = g'.consistent;
        held = omega (arith, g'.held);
      }
      from blocked g' = g'
      from relocked g' = g'
      from null_access g' = absurd g'

  pub Keeps-servers_told : (addresses : List Address) → Keeps B 0 s o (servers_told addresses)
  unfolding servers_told
  Keeps-servers_told addresses =
      Keeps-and_then B 0 s o lock_unique _ (Keeps-lock_unique B 0 s o (λ h. absurd (h refl)))
        (λ l. Keeps-put_addresses B 0 s o addresses)
