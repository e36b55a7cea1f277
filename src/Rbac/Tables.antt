-- ===== src/Rbac/Tables.antt =====
-- src/db/rbac.rs and src/db/users.rs: the tables `roles`, `role_permissions` and `users`, with the
-- queries that read them.
use quma_custom.Prelude.{
  ℕ, String, Bool, not, ◌&&◌, Option, none, some, List, [], ◌∷◌, map, ltb, ◌==◌, nat_eq, string_eq,
  filter,
}
use quma_custom.Sql.{count_where, find_where, flat_map}
use quma_custom.Rbac.Permission.{Permission, from_slug}

pub record RoleRecord : Type 0 where
  pub id : ℕ
  pub name : String
  pub display_name : String
  pub built_in : Bool
  pub created_at : String

pub record User : Type 0 where
  pub id : ℕ
  pub username : String
  pub spt_profile_id : Option String
  pub password_hash : Option String
  pub role : String
  pub disabled : Bool
  pub created_at : String
  pub password_changed_at : Option String
  pub is_headless : Bool

-- A row of `role_permissions`: `role_id` and `permission`.
abbrev pub Grant : Type 0
Grant = ℕ × String

-- The database, as far as roles and users are concerned. `next_role_id` and `next_user_id` are the
-- counters of the two AUTOINCREMENT keys; `note_users` are the users that a row of `notes` refers to, as
-- its author or by its last update.
pub record Db : Type 0 where
  pub roles : List RoleRecord
  pub role_permissions : List Grant
  pub users : List User
  pub next_role_id : ℕ
  pub next_user_id : ℕ
  pub note_users : List ℕ

-- FROM users u JOIN roles r ON u.role = r.name JOIN role_permissions rp ON r.id = rp.role_id
unfoldable pub joined : Db → List (User × RoleRecord × Grant)
joined db =
    flat_map
      (λ u.
        flat_map
          (λ r. map (λ rp. (u, r, rp)) (filter (λ (rp : Grant). r.id == rp.0) db.role_permissions))
          (filter (λ (r : RoleRecord). u.role == r.name) db.roles))
      db.users

-- SELECT COUNT(*) over that join, WHERE rp.permission = permission AND p u
unfoldable pub count_joined : (User → Bool) → String → Db → ℕ
count_joined p permission db =
    count_where (λ (row : User × RoleRecord × Grant). row.2.1 == permission && p row.0) (joined db)

unfoldable pub count_users_with_permission : String → Option ℕ → Db → ℕ
count_users_with_permission permission (some exclude_id) db =
    count_joined (λ u. not u.disabled && not (u.id == exclude_id)) permission db
count_users_with_permission permission none db = count_joined (λ u. not u.disabled) permission db

unfoldable pub has_user_manager : Db → Bool
has_user_manager db = ltb 0 (count_users_with_permission "users.manage" none db)

-- The query by which the guards of src/db/users.rs ask whether one user manages users.
unfoldable pub current_has_manage : ℕ → Db → Bool
current_has_manage user_id db =
    ltb 0 (count_joined (λ u. u.id == user_id && not u.disabled) "users.manage" db)

-- FROM roles r JOIN role_permissions rp ON r.id = rp.role_id
unfoldable pub granted : Db → List (RoleRecord × Grant)
granted db =
    flat_map
      (λ (r : RoleRecord).
        map (λ rp. (r, rp)) (filter (λ (rp : Grant). r.id == rp.0) db.role_permissions))
      db.roles

-- `new_role_has_manage` of `update_user_role`
unfoldable pub role_has_manage : String → Db → Bool
role_has_manage role db = ltb 0 (
    count_where (λ (row : RoleRecord × Grant). row.0.name == role && row.1.1 == "users.manage")
      (granted db))

unfoldable pub get_user_by_id : ℕ → Db → Option User
get_user_by_id id db = find_where (λ u. u.id == id) db.users

unfoldable pub get_user_by_username : String → Db → Option User
get_user_by_username username db = find_where (λ u. u.username == username) db.users

unfoldable pub get_role_by_name : String → Db → Option RoleRecord
get_role_by_name name db = find_where (λ r. r.name == name) db.roles

-- Slugs that `from_slug` does not know are skipped.
unfoldable pub known_permissions : List String → List Permission
known_permissions [] = []
known_permissions (slug ∷ slugs) =
    let rest = known_permissions slugs in elim (from_slug slug) [ none ↦ rest | some p ↦ p ∷ rest ]

-- The `HashSet` is only asked for membership, so a list stands for it.
unfoldable pub get_permissions_for_role : String → Db → List Permission
get_permissions_for_role role_name db = known_permissions (
    map (λ (row : RoleRecord × Grant). row.1.1)
      (filter (λ (row : RoleRecord × Grant). row.0.name == role_name) (granted db)))

unfoldable pub get_user_with_permissions : ℕ → Db → Option (User × String × List Permission)
get_user_with_permissions user_id db = elim (get_user_by_id user_id db) [
  | none ↦ none
  | some u ↦
      let shown : String = elim (get_role_by_name u.role db) [
        | none ↦ u.role
        | some r ↦ r.display_name
      ] in
      some (u, shown, get_permissions_for_role u.role db)
]
