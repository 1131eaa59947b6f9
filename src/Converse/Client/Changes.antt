-- ===== src/Converse/Client/Changes.antt =====
-- The change of the user and of the conversation keep the backend consistent.
use cs.Prelude.{ℕ, ◌≡◌, refl, Bool, true, false, Option, none, some}
use cs.Converse.Link.{Address}
use cs.Converse.Models.{User, Conversation}
use cs.Converse.Client.{
  Backend, Ended, returned, blocked, relocked, null_access, return, go_on, and_then, emit, follow,
}
use cs.Converse.Client.Session.{
  put_conversation, change_conversation, set_conversation_from, set_conversation, put_readers,
  cancel_readers, change_user, leave_user, set_user_from, set_user,
}
use cs.Converse.Client.Kept.{Reader, Watching, Present, Good, Ensures, Keeps}

Keeps-change :
    (B : Bool → Type 0) (value : Option Conversation) (signed : Bool) (n : ℕ) (b : Backend)
    → Good signed false n b
    → Watching b.user value b.server b.message_reader b.read_messages_reader
    → Ensures B (Good signed false n) (change_conversation value b)
unfolding change_conversation put_conversation and_then go_on emit
Keeps-change B value signed n b g w = record {
  user_signed = g.user_signed;
  one_open = tt;
  consistent = (w, g.consistent.1);
  held = g.held;
}

module _ (server : Address) (messages reads : Reader) where
  Watching-some :
      (user : Option User) (old : Option Conversation) (c : Conversation)
      → Present true user
      → Watching user old server messages reads
      → Watching user (some c) server messages reads
  Watching-some none old c (u, e) w = absurd (cc)
  Watching-some (some u) old c p w = w

  Watching-none :
      (user : Option User) (old : Option Conversation)
      → Watching user old server messages reads
      → Watching user none server messages reads
  Watching-none none old (c, m, r) = (refl, m, r)
  Watching-none (some u) old w = w

-- A conversation is opened while a user is signed in, and closed at any time.
pub Keeps-set_conversation :
    (B : Bool → Type 0) (n : ℕ) (c : Conversation)
    → Keeps B n true false (set_conversation (some c))
unfolding set_conversation set_conversation_from
Keeps-set_conversation B n c b g = by_old b.conversation (
    Keeps-change B (some c) true n b g (
      Watching-some b.server b.message_reader b.read_messages_reader b.user b.conversation c
        g.user_signed g.consistent.0))
  where
    by_old :
        (old : Option Conversation)
        → Ensures B (Good true false n) (change_conversation (some c) b)
        → Ensures B (Good true false n) (set_conversation_from old (some c) b)
    by_old none k = k
    by_old (some d) k = k

-- The conversation is closed, and stays so until the readers are replaced.
abbrev Closed : ℕ → Backend → Type 0
Closed n b = Good false false n b × (b.conversation ≡ none)

close-Closed :
    (B : Bool → Type 0) (n : ℕ) (b : Backend)
    → Good false false n b
    → Ensures B (Closed n) (set_conversation none b)
unfolding set_conversation set_conversation_from return change_conversation put_conversation
    and_then go_on emit
close-Closed B n b g = by_old b.conversation refl (
    Keeps-change B none false n b g (
      Watching-none b.server b.message_reader b.read_messages_reader b.user b.conversation
        g.consistent.0))
  where
    by_old :
        (old : Option Conversation)
        → b.conversation ≡ old
        → Ensures B (Good false false n) (change_conversation none b)
        → Ensures B (Closed n) (set_conversation_from old none b)
    by_old none e k = (g, e)
    by_old (some d) e k = (k, refl)

-- No reader is missing when a user leaves.
cancel_readers_returns :
    (b : Backend) (p q : Address × ℕ)
    → b.message_reader ≡ some p
    → b.read_messages_reader ≡ some q
    → cancel_readers b ≡ returned tt b
unfolding cancel_readers and_then go_on follow return
cancel_readers_returns b p q e f = rw (e, f) refl

change_user-Good :
    (B : Bool → Type 0) (value : Option User) (n : ℕ) (b : Backend)
    → Closed n b
    → Ensures B (Good false false n) (change_user value b)
unfolding change_user put_readers and_then go_on emit
change_user-Good B none n b (g, e) = record {
  user_signed = tt;
  one_open = tt;
  consistent = ((e, refl, refl), g.consistent.1);
  held = g.held;
}
change_user-Good B (some u) n b (g, e) = record {
  user_signed = tt;
  one_open = tt;
  consistent = ((refl, refl), g.consistent.1);
  held = g.held;
}

pub Keeps-set_user :
    (B : Bool → Type 0) (n : ℕ) (value : Option User) → Keeps B n false false (set_user value)
unfolding set_user set_user_from return leave_user and_then go_on
Keeps-set_user B n value b g = by_user b.user value refl g.consistent.0
  where
    changed :
        (v : Option User) (r : Ended (Unit {0}))
        → Ensures B (Closed n) r
        → Ensures B (Good false false n) (go_on (λ l. change_user v) r)
    changed v (returned a d) c = change_user-Good B v n d c
    changed v blocked c = c
    changed v relocked c = c
    changed v null_access c = absurd c

    by_user :
        (user new : Option User)
        → b.user ≡ user
        → Watching user b.conversation b.server b.message_reader b.read_messages_reader
        → Ensures B (Good false false n) (set_user_from user new b)
    by_user none none e w = g
    by_user none (some u) e (c, m, r) = change_user-Good B (some u) n b (g, c)
    by_user (some old) new e (m, r) =
        changed new (leave_user b) (rw (cancel_readers_returns b _ _ m r) (close-Closed B n b g))
