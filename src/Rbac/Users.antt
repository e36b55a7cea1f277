-- ===== src/Rbac/Users.antt =====
-- src/db/users.rs: the operations that change users, with their guards against a lock-out.
use quma_custom.Prelude.{
  ℕ, ◌+◌, String, Bool, true, false, not, ◌&&◌, Option, none, some, [], ◌∷◌, ◌++◌, ◌==◌, nat_eq,
  string_eq, if◌then◌else◌, any,
}
use quma_custom.Sql.{Result, ok, err, constraint_violation, count_where, update_where, delete_where}
use quma_custom.Rbac.Tables.{
  Db, User, RoleRecord, count_users_with_permission, current_has_manage, role_has_manage,
  get_user_by_id,
}

pub data DeleteUserResult : Type 0 where
  deleted not_found last_admin : DeleteUserResult

-- The triggers of migrations/006_constraints.sql ask for this before a role is written.
unfoldable pub role_exists : String → Db → Bool
role_exists role db = any (λ (r : RoleRecord). r.name == role) db.roles

-- The columns that the statement does not name take the defaults of the schema; `now` is
-- `datetime('now')`.
unfoldable pub insert_user :
    String → Option String → Option String → String → Bool → String → Db → Result (ℕ × Db)
insert_user username spt_profile_id password_hash role is_headless now db =
    if any (λ (u : User). u.username == username) db.users
    then err constraint_violation
    else if role_exists role db
    then ok (
      db.next_user_id,
      record db {
        users =
            db.users
            ++ (record {
              id = db.next_user_id;
              username = username;
              spt_profile_id = spt_profile_id;
              password_hash = password_hash;
              role = role;
              disabled = false;
              created_at = now;
              password_changed_at = none;
              is_headless = is_headless;
            })
              ∷ [];
        next_user_id = db.next_user_id + 1;
      },
    )
    else err constraint_violation

-- UPDATE users SET role = new_role WHERE id = user_id, under the trigger
unfoldable pub write_user_role : ℕ → String → Db → Result (ℕ × Db)
write_user_role user_id new_role db =
    let rows = count_where (λ (u : User). u.id == user_id) db.users in
    if any (λ (u : User). u.id == user_id) db.users && not (role_exists new_role db)
    then err constraint_violation
    else ok (
      rows,
      record db {
        users = update_where (λ u. u.id == user_id) (λ u. record u { role = new_role }) db.users;
      },
    )

-- The number of rows is 0 where the guard refuses.
unfoldable pub update_user_role : ℕ → String → Db → Result (ℕ × Db)
update_user_role user_id new_role db =
    if current_has_manage user_id db
    then if role_has_manage new_role db
      then write_user_role user_id new_role db
      else if count_users_with_permission "users.manage" (some user_id) db == 0
      then ok (0, db)
      else write_user_role user_id new_role db
    else write_user_role user_id new_role db

-- UPDATE users SET disabled = d WHERE id = user_id
unfoldable pub write_user_disabled : ℕ → Bool → Db → Result (ℕ × Db)
write_user_disabled user_id d db = ok (
  count_where (λ (u : User). u.id == user_id) db.users,
  record db {
    users = update_where (λ u. u.id == user_id) (λ u. record u { disabled = d }) db.users;
  },
)

unfoldable pub set_user_disabled : ℕ → Bool → Db → Result (ℕ × Db)
set_user_disabled user_id disabled db =
    if disabled
    then if count_users_with_permission "users.manage" (some user_id) db == 0
      then if current_has_manage user_id db then ok (0, db) else write_user_disabled user_id true db
      else write_user_disabled user_id true db
    else write_user_disabled user_id false db

-- DELETE FROM users WHERE id = user_id
abbrev pub remove_user : ℕ → Db → Db
remove_user user_id db = record db { users = delete_where (λ u. u.id == user_id) db.users }

-- The foreign keys of `notes` have no ON DELETE, so the DELETE of a user that a note refers to fails.
abbrev pub drop_user : ℕ → Db → Result (DeleteUserResult × Db)
drop_user user_id db =
    if any (λ n. n == user_id) db.note_users
    then err constraint_violation
    else ok (deleted, remove_user user_id db)

-- What `delete_user` does with the row that it found.
unfoldable pub delete_found_user : User → ℕ → Db → Result (DeleteUserResult × Db)
delete_found_user user user_id db =
    if not user.disabled
    then if current_has_manage user_id db
        && (count_users_with_permission "users.manage" (some user_id) db == 0)
      then ok (last_admin, db)
      else drop_user user_id db
    else drop_user user_id db

unfoldable pub delete_user : ℕ → Db → Result (DeleteUserResult × Db)
delete_user user_id db = elim (get_user_by_id user_id db) [
  | none ↦ ok (not_found, db)
  | some user ↦ delete_found_user user user_id db
]

-- `now` is `chrono::Utc::now().to_rfc3339()`.
unfoldable pub update_user_password : ℕ → String → String → Db → Result (ℕ × Db)
update_user_password user_id password_hash now db = ok (
  count_where (λ (u : User). u.id == user_id) db.users,
  record db {
    users =
        update_where (λ u. u.id == user_id)
          (λ u. record u { password_hash = some password_hash; password_changed_at = some now })
          db.users;
  },
)

unfoldable pub update_user_spt_profile_id : ℕ → Option String → Db → Result (ℕ × Db)
update_user_spt_profile_id user_id spt_profile_id db = ok (
  count_where (λ (u : User). u.id == user_id) db.users,
  record db {
    users =
        update_where (λ u. u.id == user_id) (λ u. record u { spt_profile_id = spt_profile_id })
          db.users;
  },
)
