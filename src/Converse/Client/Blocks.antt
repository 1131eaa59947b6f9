-- ===== src/Converse/Client/Blocks.antt =====
-- A request that finds its server gone asks for the lock that it holds.
use cs.Prelude.{
  ℕ, ◌+◌, ◌≡◌, refl, ap, ◌∙◌, ◌==◌, Bool, true, false, Option, none, some, List, [], ◌∷◌, ◌++◌,
  arith,
}
use cs.Converse.Link.{Address}
use cs.Converse.Models.{User, Conversation}
use cs.Converse.Service.Requests.{Request, delete_user_request, read_messages_request}
use cs.Converse.Client.{
  returned, unavailable, Rpc, failed, Backend, blocked, Action, go_on, and_then, lock_shared,
  lock_unique, locked, follow, send,
}
use cs.Converse.Client.Session.{reconnect, reconnect_from, handle_reconnect, respond, set_user}
use cs.Converse.Client.Requests.{
  for_user, if_user, with_conversation, nothing_more, request_signin_user, request_signup_user,
  request_signout_user, request_delete_user, request_get_other_users, request_create_conversation,
  request_get_conversation, request_get_conversations, request_delete_conversation,
  request_send_message, request_read_messages, request_get_messages, request_delete_message,
}
use cs.Converse.Client.Events.{
  Event, signs_in, signs_up, signs_out, deletes_user, gets_other_users, creates_conversation,
  gets_conversation, gets_conversations, deletes_conversation, deletes_message, sends_message,
  reads_messages, gets_messages, sets_user, sets_conversation, stream_ends, told, receives,
  receives_read, perform,
}

-- The requests, when the server that they are sent to is unavailable.
abbrev pub Unavailable : Event → Type 0
Unavailable (signs_in username password rpc) = rpc ≡ failed unavailable
Unavailable (signs_up username password rpc) = rpc ≡ failed unavailable
Unavailable (signs_out rpc) = rpc ≡ failed unavailable
Unavailable (deletes_user password rpc) = rpc ≡ failed unavailable
Unavailable (gets_other_users query rpc) = rpc ≡ failed unavailable
Unavailable (creates_conversation recv_user rpc) = rpc ≡ failed unavailable
Unavailable (gets_conversation id rpc) = rpc ≡ failed unavailable
Unavailable (gets_conversations rpc) = rpc ≡ failed unavailable
Unavailable (deletes_conversation id index rpc) = rpc ≡ failed unavailable
Unavailable (deletes_message id index rpc) = rpc ≡ failed unavailable
Unavailable (sends_message content rpc) = rpc ≡ failed unavailable
Unavailable (reads_messages id ids rpc) = rpc ≡ failed unavailable
Unavailable (gets_messages rpc read_rpc) = rpc ≡ failed unavailable
Unavailable (sets_user u) = ⊥
Unavailable (sets_conversation c) = ⊥
Unavailable (stream_ends code) = ⊥
Unavailable (told addresses) = ⊥
Unavailable (receives id m rpc) = ⊥
Unavailable (receives_read id ids) = ⊥

if_user_lem :
    (user : Option User) (u : User) (m : User → Action (Unit {0})) (b : Backend)
    → user ≡ some u
    → m u b ≡ blocked
    → for_user user m b ≡ blocked
unfolding for_user
if_user_lem none u m b e k = absurd (cc)
if_user_lem (some v) u m b e k = let same : v ≡ u = cc in ap (λ (w : User). m w b) same ∙ k

follow_lem :
    (o : Option Conversation) (c : Conversation) (m : Conversation → Action (Unit {0}))
    (b : Backend)
    → o ≡ some c
    → m c b ≡ blocked
    → and_then (follow o) m b ≡ blocked
unfolding follow go_on and_then
follow_lem none c m b e k = absurd (cc)
follow_lem (some d) c m b e k = let same : d ≡ c = cc in ap (λ (w : Conversation). m w b) same ∙ k

module _ (healthy : Address → Bool) (b : Backend) (free : b.shared ≡ 0) (address : Address)
    (addresses : List Address) (known : b.cluster_addresses ≡ address ∷ addresses) where
  -- The exclusive lock is asked for while it is held shared.
  reconnect_blocks :
      (known_now : List Address) (d : Backend)
      → known_now ≡ address ∷ addresses
      → d.shared ≡ 1
      → reconnect_from healthy known_now d ≡ blocked
  unfolding reconnect_from reconnect and_then go_on lock_unique
  reconnect_blocks [] d e h = absurd (cc)
  reconnect_blocks (x ∷ xs) d e h =
      let held : (d.shared == 0) ≡ false = ground (arith, h) in rw held refl

  responding_blocks :
      {A : Type 0} (rpc : Rpc A) (f : A → Action (Unit {0})) (d : Backend)
      → rpc ≡ failed unavailable
      → d.cluster_addresses ≡ address ∷ addresses
      → d.shared ≡ 1
      → respond healthy rpc f d ≡ blocked
  unfolding respond handle_reconnect
  responding_blocks rpc f d e k h = rw e (reconnect_blocks d.cluster_addresses d k h)

  going_blocks :
      {A B : Type 0} (m : Action A) (f : A → Action B) (d : Backend)
      → m d ≡ blocked
      → and_then m f d ≡ blocked
  unfolding and_then
  going_blocks m f d e = ap (go_on f) e ∙ unfold go_on in refl

  abbrev with_lock : Backend
  with_lock = record b { shared = b.shared + 1 }

  -- Behind the lock and the request.
  abbrev with_request : Request → Backend
  with_request request = record with_lock { sent = b.sent ++ ((b.server, request) ∷ []) }

  taken : lock_shared b ≡ returned tt with_lock
  unfolding lock_shared
  taken = let test : (b.shared == 0) ≡ true = ground (arith, free) in rw test refl

  locked_blocks : {A : Type 0} (m : Action A) → m with_lock ≡ blocked → locked m b ≡ blocked
  unfolding locked and_then go_on
  locked_blocks m e = ap (go_on _) taken ∙ going_blocks m _ with_lock e

  sending_blocks :
      {A : Type 0} (request : Request) (rpc : Rpc A) (f : A → Action (Unit {0}))
      → rpc ≡ failed unavailable
      → and_then (send request) (λ t. respond healthy rpc f) with_lock ≡ blocked
  unfolding and_then go_on send
  sending_blocks request rpc f e = responding_blocks rpc f _ e known (omega (arith, free))

  asking_blocks :
      {A : Type 0} (request : Request) (rpc : Rpc A) (f : A → Action (Unit {0}))
      → rpc ≡ failed unavailable
      → locked (and_then (send request) (λ t. respond healthy rpc f)) b ≡ blocked
  asking_blocks request rpc f e = locked_blocks _ (sending_blocks request rpc f e)

  module _ (u : User) (eu : b.user ≡ some u) (c : Conversation) (ec : b.conversation ≡ some c) where
    delete_blocks :
        (password : List ℕ) (rpc : Rpc (Unit {0}))
        → rpc ≡ failed unavailable
        → request_delete_user healthy password rpc b ≡ blocked
    unfolding request_delete_user if_user and_then send go_on
    delete_blocks password rpc h = locked_blocks _ (
        if_user_lem b.user u _ with_lock eu (
          going_blocks (respond healthy rpc (λ a. set_user none)) _
            (with_request (delete_user_request u.id password))
            (responding_blocks rpc (λ a. set_user none)
              (with_request (delete_user_request u.id password)) h known (omega (arith, free)))))

    read_blocks :
        (id : ℕ) (ids : List ℕ) (rpc : Rpc (Unit {0}))
        → rpc ≡ failed unavailable
        → request_read_messages healthy id ids rpc b ≡ blocked
    unfolding request_read_messages if_user with_conversation and_then send go_on
    read_blocks id ids rpc h = if_user_lem b.user u _ b eu (
        locked_blocks _ (
          follow_lem b.conversation c _ (with_request (read_messages_request u.id id ids)) ec (
            responding_blocks rpc nothing_more (with_request (read_messages_request u.id id ids)) h
              known (omega (arith, free)))))

    -- A signed-in client with a conversation open, which knows another server and holds no lock: a
    -- request of any kind whose server is unavailable never returns, as the change of the server waits
    -- for the lock that the request itself holds.
    pub perform-blocked : (e : Event) → Unavailable e → perform healthy e b ≡ blocked
    unfolding perform request_signin_user request_signup_user request_signout_user
        request_delete_user request_get_other_users request_create_conversation
        request_get_conversation request_get_conversations request_delete_conversation
        request_send_message request_read_messages request_get_messages request_delete_message
        if_user with_conversation
    perform-blocked (signs_in username password rpc) h =
        going_blocks _ _ b (asking_blocks _ rpc _ h)
    perform-blocked (signs_up username password rpc) h =
        going_blocks _ _ b (asking_blocks _ rpc _ h)
    perform-blocked (signs_out rpc) h =
        if_user_lem b.user u _ b eu (going_blocks _ _ b (asking_blocks _ rpc _ h))
    perform-blocked (deletes_user password rpc) h = delete_blocks password rpc h
    perform-blocked (gets_other_users query rpc) h =
        if_user_lem b.user u _ b eu (going_blocks _ _ b (asking_blocks _ rpc _ h))
    perform-blocked (gets_conversations rpc) h =
        if_user_lem b.user u _ b eu (going_blocks _ _ b (asking_blocks _ rpc _ h))
    perform-blocked (deletes_conversation id index rpc) h =
        if_user_lem b.user u _ b eu (going_blocks _ _ b (asking_blocks _ rpc _ h))
    perform-blocked (creates_conversation recv_user rpc) h =
        if_user_lem b.user u _ b eu (going_blocks _ _ b (asking_blocks _ rpc _ h))
    perform-blocked (gets_conversation id rpc) h =
        if_user_lem b.user u _ b eu (asking_blocks _ rpc _ h)
    perform-blocked (deletes_message id index rpc) h =
        if_user_lem b.user u _ b eu
          (follow_lem b.conversation c _ b ec (going_blocks _ _ b (asking_blocks _ rpc _ h)))
    perform-blocked (sends_message content rpc) h =
        if_user_lem b.user u _ b eu (follow_lem b.conversation c _ b ec (asking_blocks _ rpc _ h))
    perform-blocked (reads_messages id ids rpc) h = read_blocks id ids rpc h
    perform-blocked (gets_messages rpc read_rpc) h =
        if_user_lem b.user u _ b eu
          (follow_lem b.conversation c _ b ec (going_blocks _ _ b (asking_blocks _ rpc _ h)))
    perform-blocked (sets_user u₁) h = absurd h
    perform-blocked (sets_conversation d) h = absurd h
    perform-blocked (stream_ends code) h = absurd h
    perform-blocked (told more) h = absurd h
    perform-blocked (receives id m rpc) h = absurd h
    perform-blocked (receives_read id ids) h = absurd h
