-- ===== src/Converse/Models.antt =====
-- The list models of converse/exe_client/src/backend.cpp.
-- A model is the list of its rows; each operation also returns the changes that it announces to
-- the views. An `int` index is an integer. The objects in the rows are values: what `delete` and the
-- connections of signals do is left out.
pub mod Views
pub mod Rows
mod Runs
use cs.Prelude.{
  ℕ, zero, suc, ◌+◌, ◌-◌, ◌==◌, ltb, leb, ◌||◌, if◌then◌else◌, Bool, Option, none, some, List, [],
  ◌∷◌, ◌++◌, length, get_elem?, take, drop,
}

pub data ℤ : Type 0 where
  pos negsuc : ℕ → ℤ

-- Rows `first` to `last`, with the row that they are moved before.
pub data Change : Type 0 where
  rows_inserted rows_removed : ℕ → ℕ → Change
  rows_moved : ℕ → ℕ → ℕ → Change
  model_reset : Change

pub record Conversation : Type 0 where
  pub id : ℕ
  pub recv_user_id : ℕ
  pub recv_user_username : List ℕ
  pub unread_message_ids : List ℕ

pub record Message : Type 0 where
  pub id : ℕ
  pub send_user_id : ℕ
  pub is_read : Bool
  pub content : List ℕ

pub record User : Type 0 where
  pub id : ℕ
  pub username : List ℕ

-- What all models do to their rows. `index` counts from 0.
module _ {A : Type 0} (id_of : A → ℕ) where
  pub find_from : ℕ → ℕ → List A → Option (A × ℕ)
  find_from id index [] = none
  find_from id index (a ∷ more) =
      let rest = find_from id (index + 1) more in if id_of a == id then some (a, index) else rest

  pub take_at : ℕ → List A → List A
  take_at index [] = []
  take_at zero (a ∷ rest) = rest
  take_at (suc index) (a ∷ rest) = a ∷ take_at index rest

  pub remove : ℤ → List A → List A × List Change
  remove (negsuc n) rows = (rows, [])
  remove (pos index) rows =
      if leb (length rows) index
      then (rows, [])
      else (take_at index rows, rows_removed index index ∷ [])

  -- From what `std::find_if` returns.
  pub remove_found : Option (A × ℕ) → List A → List A × List Change
  remove_found none rows = (rows, [])
  remove_found (some a) rows = remove (pos a.1) rows

  pub remove_by_id : ℕ → List A → List A × List Change
  remove_by_id id rows = remove_found (find_from id 0 rows) rows

  pub append : A → List A → List A × List Change
  append a rows = (rows ++ a ∷ [], rows_inserted (length rows) (length rows) ∷ [])

  pub prepend : A → List A → List A × List Change
  prepend a rows = (a ∷ rows, rows_inserted 0 0 ∷ [])

  pub set_rows : List A → List A × List Change
  set_rows rows = (rows, model_reset ∷ [])

  -- `QList::move`
  pub insert_at : ℕ → A → List A → List A
  insert_at index a rows = take index rows ++ a ∷ drop index rows

  pub put_back : ℕ → ℕ → List A → Option A → List A
  put_back from to rows none = rows
  put_back from to rows (some a) = insert_at to a (take_at from rows)

  pub move_row : ℕ → ℕ → List A → List A
  move_row from to rows = put_back from to rows (get_elem? rows from)

  pub move : ℤ → ℤ → List A → List A × List Change
  move (negsuc n) to rows = (rows, [])
  move (pos from) (negsuc n) rows = (rows, [])
  move (pos from) (pos to) rows =
      if leb (length rows) from || leb (length rows) to
      then (rows, [])
      else if from == to
      then (rows, [])
      else (move_row from to rows, rows_moved from from to ∷ [])

  pub at_row : ℤ → List A → Option A
  at_row (negsuc n) rows = none
  at_row (pos index) rows = get_elem? rows index

abbrev id_of_conversation : Conversation → ℕ
id_of_conversation c = c.id

-- `{nullptr, -1}` where there is none.
pub get_instance_by_id : ℕ → List Conversation → Option Conversation × ℤ
get_instance_by_id id rows = elim (find_from id_of_conversation id 0 rows) [
  | none ↦ (none, negsuc 0)
  | some (c, index) ↦ (some c, pos index)
]

pub data Role : Type 0 where
  id_role recv_user_id_role recv_user_username_role unread_count_role unread_message_ids_role : Role
  send_user_id_role is_read_role content_role username_role other_role : Role

pub data Variant : Type 0 where
  invalid : Variant
  number : ℕ → Variant
  text numbers : List ℕ → Variant
  flag : Bool → Variant

pub conversation_data : List Conversation → ℤ → Role → Variant
conversation_data rows index role = elim (at_row id_of_conversation index rows) [
  | none ↦ invalid
  | some c ↦ elim role [
    | id_role ↦ number c.id
    | recv_user_id_role ↦ number c.recv_user_id
    | recv_user_username_role ↦ text c.recv_user_username
    | unread_count_role ↦ number (length c.unread_message_ids)
    | unread_message_ids_role ↦ numbers c.unread_message_ids
    | _ ↦ invalid
  ]
]

pub message_data : List Message → ℤ → Role → Variant
message_data rows index role = elim (at_row (λ (m : Message). m.id) index rows) [
  | none ↦ invalid
  | some m ↦ elim role [
    | id_role ↦ number m.id
    | send_user_id_role ↦ number m.send_user_id
    | is_read_role ↦ flag m.is_read
    | content_role ↦ text m.content
    | _ ↦ invalid
  ]
]

pub user_data : List User → ℤ → Role → Variant
user_data rows index role = elim (at_row (λ (u : User). u.id) index rows) [
  | none ↦ invalid
  | some u ↦ elim role [ id_role ↦ number u.id | username_role ↦ text u.username | _ ↦ invalid ]
]
