-- ===== src/Converse/Writers/Runs.antt =====
-- Runs of the registry of streams.
use cs.Prelude.{◌≡◌, some, [], ◌∷◌}
use cs.Converse.Writers.{UserWriters}
use cs.Converse.Writers.Registry.{streams, closes_message, call, on_streams, call-streams}

abbrev one_user : UserWriters
one_user =
    (8, record { receive_message_writer = some 1; receive_read_messages_writer = some 2 }) ∷ []

call-streams_example :
    streams 8 (call (closes_message 8) one_user)
    ≡ on_streams (closes_message 8) 8 (streams 8 one_user)
call-streams_example = call-streams (closes_message 8) 8 one_user
