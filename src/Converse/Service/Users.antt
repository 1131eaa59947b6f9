-- ===== src/Converse/Service/Users.antt =====
-- `SignupUser`, `SigninUser`, `SignoutUser`, `DeleteUser` and `GetOtherUsers`.
use cs.Prelude.{
  ℕ, ltb, if◌then◌else◌, not, true, false, Bool, Option, none, some, List, [], ◌∷◌, ◌++◌, length,
}
use cs.Converse.Models.{User}
use cs.Converse.Replay.{Operation, inserts}
use cs.Converse.Text.{trimmed, to_string}
use cs.Converse.Sqlite.{
  Sqlite, Run, return, throw, and_then, execute, first_row, transaction, insert_user, find_user,
  find_password, mark_user, find_others,
}
use cs.Converse.Service.{
  Argon2, verify_password, generate_password_encoded, user_id, nothing, users, Status, ok,
  to_cluster, update_by_id, attempt, attempt_rollback,
}

abbrev pub users_table : List ℕ
users_table = b'u' ∷ b's' ∷ b'e' ∷ b'r' ∷ b's' ∷ []

abbrev pub id_column : List ℕ
id_column = b'i' ∷ b'd' ∷ []

abbrev pub username_column : List ℕ
username_column = b'u' ∷ b's' ∷ b'e' ∷ b'r' ∷ b'n' ∷ b'a' ∷ b'm' ∷ b'e' ∷ []

abbrev pub password_column : List ℕ
password_column =
    b'p' ∷ b'a' ∷ b's' ∷ b's' ∷ b'w' ∷ b'o' ∷ b'r' ∷ b'd' ∷ b'_' ∷ b'e' ∷ b'n' ∷ b'c' ∷ b'o' ∷ b'd'
    ∷ b'e' ∷ b'd' ∷ []

abbrev pub is_deleted_column : List ℕ
is_deleted_column = b'i' ∷ b's' ∷ b'_' ∷ b'd' ∷ b'e' ∷ b'l' ∷ b'e' ∷ b't' ∷ b'e' ∷ b'd' ∷ []

unfoldable pub user_operation : ℕ → List ℕ → List ℕ → Operation
user_operation id username password_encoded = record {
  type = inserts;
  table_name = users_table;
  new_values =
      (id_column, to_string id)
      ∷ (username_column, username)
      ∷ (password_column, password_encoded)
      ∷ [];
  old_key_values = [];
}

-- The checks of a name, which is the request's without spaces; it throws where it is `none`.
pub signup_name : List ℕ → List ℕ → Option (List ℕ)
signup_name username [] = none
signup_name [] password = none
signup_name username password = if ltb 255 (length username) then none else some username

pub users_of : List (ℕ × List ℕ) → List User
users_of [] = []
users_of (row ∷ rows) = record { id = row.0; username = row.1 } ∷ users_of rows

module _ (db : Sqlite) where
  unfoldable pub or_throw : {A : Type 0} → Option A → Run db A
  or_throw none = throw db
  or_throw (some a) = return db a

  unfoldable pub unless : Bool → Run db (Unit {0})
  unless true = throw db
  unless false = return db tt

  module _ (argon2 : Argon2) (cluster : List ℕ) where
    unfoldable pub signup_user : List ℕ → List ℕ → db.Connection → db.Connection × Status
    signup_user user_username user_password = attempt db (
        and_then db (or_throw (trimmed user_username)) (λ name.
          and_then db (or_throw (signup_name name user_password)) (λ username.
            and_then db (or_throw (generate_password_encoded argon2 user_password))
              (λ password_encoded.
                and_then db (execute db (insert_user user_username password_encoded)) (λ rows.
                  and_then db (first_row db rows) (λ id. return db (
                    user_id id,
                    to_cluster cluster (user_operation id username password_encoded ∷ []),
                  )))))))

    unfoldable pub signin_user : List ℕ → List ℕ → db.Connection → db.Connection × Status
    signin_user user_username user_password = attempt db (
        and_then db (execute db (find_user user_username)) (λ rows.
          and_then db (first_row db rows) (λ row.
            and_then db (unless (not (verify_password argon2 user_password row.1)))
              (λ fine. return db (user_id row.0, [])))))

    unfoldable pub signout_user : ℕ → db.Connection → db.Connection × Status
    signout_user user c = (c, ok nothing [])

    unfoldable pub delete_user : ℕ → List ℕ → db.Connection → db.Connection × Status
    delete_user user user_password = attempt_rollback db (
        and_then db
          (transaction db (
            and_then db (execute db (find_password user)) (λ rows.
              and_then db (first_row db rows) (λ password_encoded.
                and_then db (unless (not (verify_password argon2 user_password password_encoded)))
                  (λ fine. execute db (mark_user user))))))
          (λ marked.
            return db
              (nothing, to_cluster cluster (update_by_id users_table is_deleted_column user ∷ []))))

  unfoldable pub get_other_users : ℕ → List ℕ → ℕ → ℕ → db.Connection → db.Connection × Status
  get_other_users user query limit offset =
      let like_pattern = b'%' ∷ (query ++ (b'%' ∷ [])) in
      attempt db (
        and_then db (execute db (find_others user like_pattern limit offset))
          (λ rows. return db (users (users_of rows), [])))
