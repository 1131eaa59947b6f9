-- ===== src/Converse/Writers.antt =====
-- The streams of `ReceiveMessage` and `ReceiveReadMessages` in
-- converse/exe_server/src/service/main/impl.cpp.
-- `user_id_to_writers_` is an association list, a writer a number and `nullptr` is `none`. What
-- a handler does before its wait and behind it are two steps.
pub mod Registry
mod Runs
use cs.Prelude.{ℕ, ◌==◌, if◌then◌else◌, Option, none, some, List, [], ◌∷◌}

pub record Writers : Type 0 where
  pub receive_message_writer : Option ℕ
  pub receive_read_messages_writer : Option ℕ

abbrev pub UserWriters : Type 0
UserWriters = List (ℕ × Writers)

pub find_writers : ℕ → UserWriters → Option Writers
find_writers user [] = none
find_writers user (e ∷ es) =
    let rest = find_writers user es in if e.0 == user then some e.1 else rest

-- A new entry, or a change of the one that is there.
pub put_writers : ℕ → Writers → UserWriters → UserWriters
put_writers user w [] = (user, w) ∷ []
put_writers user w (e ∷ es) =
    let rest = put_writers user w es in if e.0 == user then (user, w) ∷ es else e ∷ rest

pub erase_writers : ℕ → UserWriters → UserWriters
erase_writers user [] = []
erase_writers user (e ∷ es) =
    let rest = erase_writers user es in if e.0 == user then rest else e ∷ rest

-- The entry that `try_emplace` finds or makes, with the new writer.
pub with_message : ℕ → Option Writers → Writers
with_message writer none = record {
  receive_message_writer = some writer;
  receive_read_messages_writer = none;
}
with_message writer (some w) = record w { receive_message_writer = some writer }

pub with_read : ℕ → Option Writers → Writers
with_read writer none = record {
  receive_message_writer = none;
  receive_read_messages_writer = some writer;
}
with_read writer (some w) = record w { receive_read_messages_writer = some writer }

pub open_message : ℕ → ℕ → UserWriters → UserWriters
open_message user writer es = put_writers user (with_message writer (find_writers user es)) es

pub open_read : ℕ → ℕ → UserWriters → UserWriters
open_read user writer es = put_writers user (with_read writer (find_writers user es)) es

-- After the wait, from what `find` returns.
pub without_message : ℕ → UserWriters → Option Writers → UserWriters
without_message user es none = es
without_message user es (some w) = elim w.receive_read_messages_writer [
  | none ↦ erase_writers user es
  | some other ↦ put_writers user (record w { receive_message_writer = none }) es
]

pub without_read : ℕ → UserWriters → Option Writers → UserWriters
without_read user es none = es
without_read user es (some w) = elim w.receive_message_writer [
  | none ↦ erase_writers user es
  | some other ↦ put_writers user (record w { receive_read_messages_writer = none }) es
]

pub close_message : ℕ → UserWriters → UserWriters
close_message user es = without_message user es (find_writers user es)

pub close_read : ℕ → UserWriters → UserWriters
close_read user es = without_read user es (find_writers user es)
