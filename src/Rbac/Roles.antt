-- ===== src/Rbac/Roles.antt =====
-- src/db/rbac.rs: the operations that change roles and what they grant.
use quma_custom.Prelude.{
  ℕ, ◌+◌, String, Bool, false, not, ◌&&◌, none, some, List, [], ◌∷◌, ◌++◌, ltb, ◌==◌, nat_eq,
  string_eq, if◌then◌else◌, any, foldl,
}
use quma_custom.Sql.{
  Result, ok, err, ◌>>=◌, query_returned_no_rows, constraint_violation, count_where, update_where,
  delete_where,
}
use quma_custom.Rbac.Permission.{Permission, permission_eq, users_manage, all_permissions, as_str}
use quma_custom.Rbac.Tables.{
  Db, User, RoleRecord, Grant, get_role_by_name, get_permissions_for_role, count_joined,
}

pub data UpdatePermissionsResult : Type 0 where
  updated admin_immutable would_remove_last_admin : UpdatePermissionsResult

pub data DeleteRoleResult : Type 0 where
  deleted not_found built_in : DeleteRoleResult
  has_users : ℕ → DeleteRoleResult

abbrev pub contains : List Permission → Permission → Bool
contains permissions p = any (λ q. q == p) permissions

-- The key of `role_permissions` is the pair. The trigger of migrations/014 lets every slug pass.
abbrev pub has_grant : ℕ → String → List Grant → Bool
has_grant role_id slug = any (λ (g : Grant). g.0 == role_id && g.1 == slug)

-- The loop of INSERT statements in a transaction: the first violation undoes all.
unfoldable pub insert_grants : ℕ → List Permission → List Grant → Result (List Grant)
insert_grants role_id [] grants = ok grants
insert_grants role_id (p ∷ ps) grants =
    let rest = insert_grants role_id ps (grants ++ (role_id, as_str p) ∷ []) in
    if has_grant role_id (as_str p) grants then err constraint_violation else rest

unfoldable pub create_role : String → String → List Permission → String → Db → Result (ℕ × Db)
create_role name display_name permissions now db =
    if any (λ (r : RoleRecord). r.name == name) db.roles
    then err constraint_violation
    else insert_grants db.next_role_id permissions db.role_permissions >>= λ grants. ok (
      db.next_role_id,
      record db {
        roles =
            db.roles
            ++ (record {
              id = db.next_role_id;
              name = name;
              display_name = display_name;
              built_in = false;
              created_at = now;
            })
              ∷ [];
        role_permissions = grants;
        next_role_id = db.next_role_id + 1;
      },
    )

-- SELECT COUNT(*) FROM users WHERE role = role_name AND disabled = 0
unfoldable pub users_on_role : String → Db → ℕ
users_on_role role_name db =
    count_where (λ (u : User). u.role == role_name && not u.disabled) db.users

-- The users of other roles who manage users.
unfoldable pub others_with_manage : String → Db → ℕ
others_with_manage role_name db =
    count_joined (λ u. not u.disabled && not (u.role == role_name)) "users.manage" db

-- The guard: the permission would be taken from the last who have it.
unfoldable pub would_lock_out : String → List Permission → Db → Bool
would_lock_out role_name permissions db =
    contains (get_permissions_for_role role_name db) users_manage
    && not (contains permissions users_manage)
    && ltb 0 (users_on_role role_name db)
    && (others_with_manage role_name db == 0)

-- The DELETE and the INSERTs of the transaction.
unfoldable pub replace_grants : RoleRecord → List Permission → Db → Result Db
replace_grants role permissions db =
    insert_grants role.id permissions
      (delete_where (λ (g : Grant). g.0 == role.id) db.role_permissions)
    >>= λ grants. ok (record db { role_permissions = grants })

unfoldable pub update_found_role :
    RoleRecord → String → List Permission → Db → Result (UpdatePermissionsResult × Db)
update_found_role role role_name permissions db =
    if role.name == "admin"
    then ok (admin_immutable, db)
    else if would_lock_out role_name permissions db
    then ok (would_remove_last_admin, db)
    else (replace_grants role permissions db >>= λ db'. ok (updated, db'))

unfoldable pub update_role_permissions :
    String → List Permission → Db → Result (UpdatePermissionsResult × Db)
update_role_permissions role_name permissions db = elim (get_role_by_name role_name db) [
  | none ↦ err query_returned_no_rows
  | some role ↦ update_found_role role role_name permissions db
]

unfoldable pub update_role_display_name : String → String → Db → Result (ℕ × Db)
update_role_display_name role_name display_name db = ok (
  count_where (λ (r : RoleRecord). r.name == role_name && not r.built_in) db.roles,
  record db {
    roles =
        update_where (λ r. r.name == role_name && not r.built_in)
          (λ r. record r { display_name = display_name }) db.roles;
  },
)

-- DELETE FROM roles WHERE name = role_name AND built_in = 0, and the cascade to `role_permissions`
unfoldable pub remove_role : String → Db → Db
remove_role role_name db = record db {
  roles = delete_where (λ r. r.name == role_name && not r.built_in) db.roles;
  role_permissions =
      delete_where
        (λ (g : Grant).
          any (λ (r : RoleRecord). r.name == role_name && not r.built_in && r.id == g.0) db.roles)
        db.role_permissions;
}

unfoldable pub delete_found_role : RoleRecord → String → Db → Result (DeleteRoleResult × Db)
delete_found_role role role_name db =
    if role.built_in
    then ok (built_in, db)
    else let user_count = count_where (λ (u : User). u.role == role_name) db.users in
      if ltb 0 user_count
      then ok (has_users user_count, db)
      else ok (deleted, remove_role role_name db)

unfoldable pub delete_role : String → Db → Result (DeleteRoleResult × Db)
delete_role role_name db = elim (get_role_by_name role_name db) [
  | none ↦ ok (not_found, db)
  | some role ↦ delete_found_role role role_name db
]

-- INSERT OR IGNORE
unfoldable pub grant_if_missing : ℕ → List Grant → Permission → List Grant
grant_if_missing role_id grants p =
    if has_grant role_id (as_str p) grants then grants else grants ++ (role_id, as_str p) ∷ []

unfoldable pub sync_builtin_role_permissions : Db → Db
sync_builtin_role_permissions db = elim (get_role_by_name "admin" db) [
  | none ↦ db
  | some admin ↦ record db {
    role_permissions = foldl (grant_if_missing admin.id) db.role_permissions all_permissions;
  }
]
