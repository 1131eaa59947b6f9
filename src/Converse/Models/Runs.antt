-- ===== src/Converse/Models/Runs.antt =====
-- Runs of the list models.
use cs.Prelude.{ℕ, ◌≡◌, refl, List, [], ◌∷◌}
use cs.Converse.Models.{
  pos, Conversation, id_of_conversation, move, move_row, put_back, insert_at, take_at,
}
use cs.Converse.Models.Views.{moves, follow, call, shown, call-Followed}

abbrev chat : ℕ → Conversation
chat n = record { id = n; recv_user_id = 1; recv_user_username = []; unread_message_ids = [] }

abbrev rows : List Conversation
rows = chat 3 ∷ chat 7 ∷ chat 9 ∷ []

call-Followed_example :
    follow
      (call id_of_conversation (moves (pos 0) (pos 2)) rows).0
      rows
      (call id_of_conversation (moves (pos 0) (pos 2)) rows).1
    ≡ shown id_of_conversation (moves (pos 0) (pos 2)) rows
call-Followed_example = call-Followed id_of_conversation (moves (pos 0) (pos 2)) rows

-- A move to a later row is announced one row short of what the model does.
moved_down :
    (follow
        (call id_of_conversation (moves (pos 0) (pos 2)) rows).0
        rows
        (call id_of_conversation (moves (pos 0) (pos 2)) rows).1
      ≡ chat 7 ∷ chat 3 ∷ chat 9 ∷ [])
    × ((call id_of_conversation (moves (pos 0) (pos 2)) rows).0 ≡ chat 7 ∷ chat 9 ∷ chat 3 ∷ [])
unfolding call move move_row put_back insert_at take_at
moved_down = (refl, refl)
