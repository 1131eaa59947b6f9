-- ===== src/Converse/Client/Asking.antt =====
-- What the requests share keeps the backend consistent.
use cs.Prelude.{
  ℕ, ◌≡◌, ◌≢◌, arith, refl, ap, ◌==◌, Bool, true, false, Bool-cases, inl, inr, Option, none, some,
  List, [], ◌∷◌,
}
use cs.Converse.Link.{Address}
use cs.Converse.Models.{User, Conversation}
use cs.Converse.Service as Service
use cs.Converse.Service.Requests.{create_conversation_request}
use mathlib.Core.Path.{subst}
use cs.Converse.Client.{
  unavailable, Rpc, answered, failed, is_ok, Signal, create_conversation_response, add_conversation,
  Backend, Ended, returned, blocked, relocked, null_access, Action, return, go_on, and_then, emit,
  locked, follow, send,
}
use cs.Converse.Client.Session.{set_conversation, respond}
use cs.Converse.Client.Requests.{
  for_user, if_user, with_conversation, created, nothing_more, request_create_conversation,
  request_read_messages, read_unread, read_or_tell, from_another, message_received,
}
use cs.Converse.Client.Changes.{Keeps-set_conversation}
use cs.Converse.Client.Kept.{
  Good, Ensures, Keeps, Keeps-and_then, Keeps-return, Keeps-emit, Keeps-send, Keeps-locked,
  Keeps-handle_reconnect, Keeps-respond, Keeps-relocking,
}

-- What code can count on is forgotten at its end.
pub weaken :
    {A : Type 0} (B : Bool → Type 0) (s o : Bool) (n : ℕ) (r : Ended A)
    → Ensures B (Good s o n) r
    → Ensures B (Good false false n) r
weaken B s o n (returned a b) g = record {
  user_signed = tt;
  one_open = tt;
  consistent = g.consistent;
  held = g.held;
}
weaken B s o n blocked g = g
weaken B s o n relocked g = g
weaken B s o n null_access g = absurd g

weaken_open :
    {A : Type 0} (B : Bool → Type 0) (s : Bool) (n : ℕ) (r : Ended A)
    → Ensures B (Good s true n) r
    → Ensures B (Good s false n) r
weaken_open B s n (returned a b) g = record {
  user_signed = g.user_signed;
  one_open = tt;
  consistent = g.consistent;
  held = g.held;
}
weaken_open B s n blocked g = g
weaken_open B s n relocked g = g
weaken_open B s n null_access g = absurd g

module _ (B : Bool → Type 0) (n : ℕ) (s o : Bool) (healthy : Address → Bool) where
  pub Keeps-if_user :
      (m : User → Action (Unit {0}))
      → ((u : User) → Keeps B n s o (m u))
      → Keeps B n s o (if_user m)
  unfolding if_user
  Keeps-if_user m k b g = by_user b.user
    where
      by_user : (user : Option User) → Ensures B (Good s o n) (for_user user m b)
      by_user none = unfold for_user return in g
      by_user (some u) = unfold for_user in k u b g

  pub Keeps-nothing_more : {A : Type 0} (a : A) → Keeps B n s o (nothing_more a)
  unfolding nothing_more
  Keeps-nothing_more a = Keeps-return B n s o tt

  pub Keeps-announcing :
      {A : Type 0} (m : Action A) (signal : Signal)
      → Keeps B n s o m
      → Keeps B n s o (and_then m (λ l. emit signal))
  Keeps-announcing m signal k = Keeps-and_then B n s o m _ k (λ l. Keeps-emit B n s o signal)

module _ (B : Bool → Type 0) (s o : Bool) (healthy : Address → Bool) where
  -- A request that does nothing with the answer but emit signals.
  pub Keeps-asking :
      {A : Type 0} (request : Service.Requests.Request) (rpc : Rpc A) (f : A → Action (Unit {0}))
      → (rpc ≡ failed unavailable → B true)
      → ((a : A) → Keeps B 1 s o (f a))
      → Keeps B 0 s o (locked (and_then (send request) (λ t. respond healthy rpc f)))
  Keeps-asking request rpc f may k = Keeps-locked B s o _ (
      Keeps-and_then B 1 s o (send request) _ (Keeps-send B 1 s o request)
        (λ t. Keeps-respond B 1 s o healthy rpc f may k))

-- A pointer that is not null is followed.
pub follow-Ensures :
    {A : Type 0} (B : Bool → Type 0) (P : Backend → Type 0) (o : Option A) (a : A)
    (f : A → Action (Unit {0})) (b : Backend)
    → o ≡ some a
    → Ensures B P (f a b)
    → Ensures B P (go_on f (follow o b))
unfolding go_on follow
follow-Ensures B P none a f b e k = absurd (cc)
follow-Ensures {A} B P (some x) a f b e k =
    let same : a ≡ x = cc in subst (λ (y : A). Ensures B P (f y b)) same k

module _ (B : Bool → Type 0) (n : ℕ) (s : Bool) (healthy : Address → Bool) where
  pub Keeps-with_conversation :
      (m : Conversation → Action (Unit {0}))
      → ((c : Conversation) → Keeps B n s true (m c))
      → Keeps B n s true (with_conversation m)
  unfolding with_conversation and_then
  Keeps-with_conversation m k b g =
      let (c, e) = g.one_open in follow-Ensures B (Good s true n) b.conversation c m b e (k c b g)

module _ (B : Bool → Type 0) (s : Bool) (healthy : Address → Bool) where
  pub Keeps-read_messages :
      (id : ℕ) (ids : List ℕ) (rpc : Rpc (Unit {0}))
      → (rpc ≡ failed unavailable → B true)
      → Keeps B 0 s true (request_read_messages healthy id ids rpc)
  unfolding request_read_messages
  Keeps-read_messages id ids rpc may = Keeps-if_user B 0 s true healthy _ (λ u.
      Keeps-locked B s true _ (
        Keeps-and_then B 1 s true (send _) _ (Keeps-send B 1 s true _) (λ t.
          Keeps-with_conversation B 1 s healthy _ (λ c.
            Keeps-respond B 1 s true healthy rpc _ may (Keeps-nothing_more B 1 s true healthy)))))

  -- Under the lock of another request, the mutex is locked again where there is something to read.
  pub Keeps-read_unread :
      (c : Conversation) (ids : List ℕ) (rpc : Rpc (Unit {0}))
      → (ids ≢ [] → B false)
      → Keeps B 1 s true (read_unread healthy c ids rpc)
  unfolding read_unread request_read_messages
  Keeps-read_unread c [] rpc again = Keeps-return B 1 s true tt
  Keeps-read_unread c (id ∷ ids) rpc again = Keeps-if_user B 1 s true healthy _ (λ u.
      Keeps-relocking B 1 s true _ (λ e. absurd (omega (arith, e))) (again (λ e. absurd (cc))))

  -- Where a conversation is open, the message is read in it.
  Keeps-from_another :
      (u : User) (id : ℕ) (m : Service.Message) (rpc : Rpc (Unit {0}))
      → (rpc ≡ failed unavailable → B true)
      → Keeps B 0 s false (from_another healthy u id m rpc)
  unfolding from_another
  Keeps-from_another u id m rpc may b g = elim (Bool-cases (m.send_user_id == u.id)) [
    | inl own ↦ rw own (Keeps-return B 0 s false tt b g)
    | inr other ↦ rw other (by_open b.conversation refl)
  ]
    where
      by_open :
          (o : Option Conversation)
          → b.conversation ≡ o
          → Ensures B (Good s false 0) (read_or_tell healthy o id m.id rpc b)
      by_open none e = unfold read_or_tell in Keeps-emit B 0 s false _ b g
      by_open (some c) e =
          unfold read_or_tell in
          elim (Bool-cases (c.id == id)) [
            | inl here ↦ rw here (
                weaken_open B s 0 _ (
                  Keeps-read_messages c.id (m.id ∷ []) rpc may b (record {
                    user_signed = g.user_signed;
                    one_open = (c, e);
                    consistent = g.consistent;
                    held = g.held;
                  })))
            | inr elsewhere ↦ rw elsewhere (Keeps-emit B 0 s false _ b g)
          ]

pub Keeps-message_received :
    (B : Bool → Type 0) (healthy : Address → Bool) (id : ℕ) (m : Service.Message)
    (rpc : Rpc (Unit {0}))
    → (rpc ≡ failed unavailable → B true)
    → Keeps B 0 true false (message_received healthy id m rpc)
unfolding message_received and_then
Keeps-message_received B healthy id m rpc may b g =
    let (u, e) = g.user_signed in
    follow-Ensures B (Good true false 0) b.user u _ b e (
      Keeps-announcing B 0 true false healthy (from_another healthy u id m rpc) _
        (Keeps-from_another B true healthy u id m rpc may) b g)

-- A conversation is created for the user that is signed in.
Keeps-opening :
    (B : Bool → Type 0) (healthy : Address → Bool) (recv_user : ℕ) (rpc : Rpc Conversation)
    → (rpc ≡ failed unavailable → B true)
    → Keeps B 1 true false (respond healthy rpc (λ c. set_conversation (created recv_user rpc)))
unfolding respond created
Keeps-opening B healthy recv_user (answered c) may = Keeps-set_conversation B 1 _
Keeps-opening B healthy recv_user (failed code) may =
    Keeps-handle_reconnect B 1 true false healthy code (λ e. may (ap failed e))

pub Keeps-create_conversation :
    (B : Bool → Type 0) (healthy : Address → Bool) (recv_user : ℕ) (rpc : Rpc Conversation)
    (b : Backend)
    → (rpc ≡ failed unavailable → B true)
    → Good false false 0 b
    → Ensures B (Good false false 0) (request_create_conversation healthy recv_user rpc b)
unfolding request_create_conversation if_user
Keeps-create_conversation B healthy recv_user rpc b may g = by_user b.user refl
  where
    creates : User → Action (Unit {0})
    creates u =
        and_then
          (locked (
            and_then (send (create_conversation_request u.id recv_user))
              (λ t. respond healthy rpc (λ c. set_conversation (created recv_user rpc)))))
          (λ l.
            and_then (emit (create_conversation_response (is_ok rpc)))
              (λ e. emit (add_conversation (is_ok rpc) (created recv_user rpc))))

    by_user :
        (user : Option User)
        → b.user ≡ user
        → Ensures B (Good false false 0) (for_user user creates b)
    by_user none e = unfold for_user return in g
    by_user (some u) e =
        unfold for_user in
        weaken B true false 0 (creates u b) (
          Keeps-and_then B 0 true false _ _
            (Keeps-locked B true false _ (
              Keeps-and_then B 1 true false (send _) _ (Keeps-send B 1 true false _)
                (λ t. Keeps-opening B healthy recv_user rpc may)))
            (λ l. Keeps-announcing B 0 true false healthy (emit _) _ (Keeps-emit B 0 true false _))
            b
            (record {
              user_signed = (u, e);
              one_open = tt;
              consistent = g.consistent;
              held = g.held;
            }))
