-- ===== src/Converse/Replay/Runs.antt =====
-- Runs of the replay.
use cs.Prelude.{ℕ, ◌≡◌, refl, some, List, [], ◌∷◌, ◌++◌}
use cs.Converse.Replay.{Operation, updates, update_statement, statement_of, values_of, replay}

abbrev read_message : Operation
read_message = record {
  type = updates;
  table_name = b'm' ∷ [];
  new_values = (b'r' ∷ [], b'1' ∷ []) ∷ [];
  old_key_values = (b'i' ∷ [], b'7' ∷ []) ∷ (b'c' ∷ [], b'2' ∷ []) ∷ [];
}

abbrev bound_values : List (List ℕ)
bound_values = values_of read_message.new_values ++ values_of read_message.old_key_values

is_update : replay read_message ≡ some (update_statement read_message, bound_values)
unfolding replay statement_of
is_update = refl
