-- ===== src/Converse/Writers/Registry.antt =====
-- The registry as two maps, one for each kind of stream.
use cs.Prelude.{
  ℕ, Bool, ◌≡◌, refl, sym, ap, ◌∙◌, ◌==◌, if◌then◌else◌, Bool-cases, Option-cases, inl, inr, Option,
  none, some, [], ◌∷◌, true, false, arith,
}
use cs.Converse.Writers.{
  Writers, UserWriters, find_writers, put_writers, erase_writers, with_message, with_read,
  without_message, without_read, open_message, open_read, close_message, close_read,
}

-- A user's streams, as what the registry answers.
abbrev pub streams_of : Option Writers → Option ℕ × Option ℕ
streams_of none = (none, none)
streams_of (some w) = (w.receive_message_writer, w.receive_read_messages_writer)

abbrev pub streams : ℕ → UserWriters → Option ℕ × Option ℕ
streams user es = streams_of (find_writers user es)

pub data Call : Type 0 where
  opens_message opens_read : ℕ → ℕ → Call
  closes_message closes_read : ℕ → Call

unfoldable pub call : Call → UserWriters → UserWriters
call (opens_message user writer) es = open_message user writer es
call (opens_read user writer) es = open_read user writer es
call (closes_message user) es = close_message user es
call (closes_read user) es = close_read user es

-- The same calls on a user's pair of streams.
abbrev pub on_streams : Call → ℕ → Option ℕ × Option ℕ → Option ℕ × Option ℕ
on_streams (opens_message user writer) u s = if u == user then (some writer, s.1) else s
on_streams (opens_read user writer) u s = if u == user then (s.0, some writer) else s
on_streams (closes_message user) u s = if u == user then (none, s.1) else s
on_streams (closes_read user) u s = if u == user then (s.0, none) else s

find-put :
    (u user : ℕ) (w : Writers) (es : UserWriters)
    → find_writers u (put_writers user w es) ≡ (if u == user then some w else find_writers u es)
unfolding find_writers put_writers
find-put u user w [] = ground arith
find-put u user w (e ∷ es) = ground (arith, find-put u user w es)

find-erase :
    (u user : ℕ) (es : UserWriters)
    → find_writers u (erase_writers user es) ≡ (if u == user then none else find_writers u es)
unfolding find_writers erase_writers
find-erase u user [] = ground arith
find-erase u user (e ∷ es) = ground (arith, find-erase u user es)

spread :
    (t : Bool) (o p : Option Writers)
    → streams_of (if t then o else p) ≡ (if t then streams_of o else streams_of p)
spread true o p = refl
spread false o p = refl

put-streams :
    (u user : ℕ) (w : Writers) (es : UserWriters)
    → streams u (put_writers user w es) ≡ (if u == user then streams_of (some w) else streams u es)
put-streams u user w es =
    ap streams_of (find-put u user w es) ∙ spread (u == user) (some w) (find_writers u es)

erase-streams :
    (u user : ℕ) (es : UserWriters)
    → streams u (erase_writers user es) ≡ (if u == user then streams_of none else streams u es)
erase-streams u user es =
    ap streams_of (find-erase u user es) ∙ spread (u == user) none (find_writers u es)

-- What the registry has for a user, changed by `f`.
agree :
    (u user : ℕ) (f : Option ℕ × Option ℕ → Option ℕ × Option ℕ) (es : UserWriters)
    (o : Option Writers)
    → find_writers user es ≡ o
    → (new : Option ℕ × Option ℕ) → new ≡ f (streams_of o)
    → (if u == user then new else streams u es)
      ≡ (if u == user then f (streams u es) else streams u es)
agree u user f es o e new h = elim (Bool-cases (u == user)) [
  | inl same ↦ rw same (h ∙ ap f (sym (own same)))
  | inr other ↦ rw other refl
]
  where
    own : (u == user) ≡ true → streams u es ≡ streams_of o
    own same = ap streams_of (ap (λ (k : ℕ). find_writers k es) (ground arith) ∙ e)

abbrev set_message : Option ℕ → Option ℕ × Option ℕ → Option ℕ × Option ℕ
set_message writer s = (writer, s.1)

abbrev set_read : Option ℕ → Option ℕ × Option ℕ → Option ℕ × Option ℕ
set_read writer s = (s.0, writer)

with_message-streams :
    (writer : ℕ) (o : Option Writers)
    → streams_of (some (with_message writer o)) ≡ set_message (some writer) (streams_of o)
unfolding with_message
with_message-streams writer none = refl
with_message-streams writer (some w) = refl

with_read-streams :
    (writer : ℕ) (o : Option Writers)
    → streams_of (some (with_read writer o)) ≡ set_read (some writer) (streams_of o)
unfolding with_read
with_read-streams writer none = refl
with_read-streams writer (some w) = refl

unchanged :
    (u user : ℕ) (f : Option ℕ × Option ℕ → Option ℕ × Option ℕ) (es : UserWriters)
    → find_writers user es ≡ none
    → (none, none) ≡ f (none, none)
    → streams u es ≡ (if u == user then f (streams u es) else streams u es)
unchanged u user f es e h = elim (Bool-cases (u == user)) [
  | inl same ↦
      let own : streams u es ≡ (none, none) =
        ap streams_of (ap (λ (k : ℕ). find_writers k es) (ground arith) ∙ e) in
      rw same (own ∙ h ∙ ap f (sym own))
  | inr other ↦ rw other refl
]

without_message-streams :
    (u user : ℕ) (es : UserWriters) (o : Option Writers)
    → find_writers user es ≡ o
    → streams u (without_message user es o)
      ≡ (if u == user then set_message none (streams u es) else streams u es)
unfolding without_message
without_message-streams u user es none e = unchanged u user (set_message none) es e refl
without_message-streams u user es (some w) e = elim (Option-cases w.receive_read_messages_writer) [
  | inl gone ↦ rw gone (
      erase-streams u user es
      ∙ agree u user (set_message none) es (some w) e (none, none) (rw gone refl))
  | inr (other, there) ↦ rw there (
      put-streams u user (record w { receive_message_writer = none }) es
      ∙ agree u user (set_message none) es (some w) e (none, w.receive_read_messages_writer) refl)
]

without_read-streams :
    (u user : ℕ) (es : UserWriters) (o : Option Writers)
    → find_writers user es ≡ o
    → streams u (without_read user es o)
      ≡ (if u == user then set_read none (streams u es) else streams u es)
unfolding without_read
without_read-streams u user es none e = unchanged u user (set_read none) es e refl
without_read-streams u user es (some w) e = elim (Option-cases w.receive_message_writer) [
  | inl gone ↦ rw gone (
      erase-streams u user es
      ∙ agree u user (set_read none) es (some w) e (none, none) (rw gone refl))
  | inr (other, there) ↦ rw there (
      put-streams u user (record w { receive_read_messages_writer = none }) es
      ∙ agree u user (set_read none) es (some w) e (w.receive_message_writer, none) refl)
]

-- For every user the registry holds two independent streams: opening one of a kind makes it the
-- user's stream of that kind, closing leaves none of that kind, and neither changes the other kind
-- or another user's streams, whether entries are made, changed or erased.
pub call-streams :
    (c : Call) (u : ℕ) (es : UserWriters) → streams u (call c es) ≡ on_streams c u (streams u es)
unfolding call open_message open_read close_message close_read
call-streams (opens_message user writer) u es =
    let o = find_writers user es in
    put-streams u user (with_message writer o) es
    ∙ agree u user (set_message (some writer)) es o refl (streams_of (some (with_message writer o)))
        (with_message-streams writer o)
call-streams (opens_read user writer) u es =
    let o = find_writers user es in
    put-streams u user (with_read writer o) es
    ∙ agree u user (set_read (some writer)) es o refl (streams_of (some (with_read writer o)))
        (with_read-streams writer o)
call-streams (closes_message user) u es =
    without_message-streams u user es (find_writers user es) refl
call-streams (closes_read user) u es = without_read-streams u user es (find_writers user es) refl
