-- ===== src/Converse/Client/Unread.antt =====
-- The unread messages of a conversation, a `QSet<int>`: the list of its elements. The signal that
-- tells the window of a change is left out.
use cs.Prelude.{ℕ, ◌==◌, if◌then◌else◌, Bool, true, false, List, [], ◌∷◌, length}
use cs.Converse.Models.{Conversation}

pub contains : ℕ → List ℕ → Bool
contains id [] = false
contains id (x ∷ ids) = let rest = contains id ids in if x == id then true else rest

pub insert_id : ℕ → List ℕ → List ℕ
insert_id id ids = if contains id ids then ids else id ∷ ids

pub remove_id : ℕ → List ℕ → List ℕ
remove_id id [] = []
remove_id id (x ∷ ids) = let rest = remove_id id ids in if x == id then rest else x ∷ rest

-- The loops that insert the ids of a list, and that remove them.
pub set_of : List ℕ → List ℕ → List ℕ
set_of set [] = set
set_of set (id ∷ ids) = set_of (insert_id id set) ids

pub remove_ids : List ℕ → List ℕ → List ℕ
remove_ids set [] = set
remove_ids set (id ∷ ids) = remove_ids (remove_id id set) ids

pub add_unread_message_id : ℕ → Conversation → Conversation
add_unread_message_id id c = record c { unread_message_ids = insert_id id c.unread_message_ids }

pub remove_unread_message_ids : List ℕ → Conversation → Conversation
remove_unread_message_ids ids c = record c {
  unread_message_ids = remove_ids c.unread_message_ids ids;
}

pub reset_unread_message_ids : Conversation → Conversation
reset_unread_message_ids c = record c { unread_message_ids = [] }

pub unread_count : Conversation → ℕ
unread_count c = length c.unread_message_ids
