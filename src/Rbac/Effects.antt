-- ===== src/Rbac/Effects.antt =====
-- What each operation of src/db/rbac.rs and src/db/users.rs leaves of the tables.
use mathlib.Core.List.Memᴰ as M
use quma_custom.Prelude.{
  ℕ, ◌+◌, String, ◌≡◌, refl, Bool, false, Option, none, Memᴰ, List, [], ◌∷◌, ◌++◌, arith, ◌==◌,
  nat_eq, string_eq, Bool-cases, Option-cases, inl, inr, any, foldl, ◌⊎◌,
}
use quma_custom.Sql.{ok, delete_where}
use quma_custom.Rbac.Permission.{Permission, all_permissions, as_str}
use quma_custom.Rbac.Tables.{Db, User, RoleRecord, Grant, get_role_by_name}
use quma_custom.Rbac.Users
use quma_custom.Rbac.Roles
use quma_custom.Rbac.Grants.{insert_cases}

-- A guarded operation refuses and changes nothing, or writes.
pub update_user_role-cases :
    (i : ℕ) (role : String) (db : Db) {n : ℕ} {db' : Db}
    → Users.update_user_role i role db ≡ ok (n, db')
    → (db ≡ db') ⊎ (Users.write_user_role i role db ≡ ok (n, db'))
unfolding Users.update_user_role
update_user_role-cases i role db e = ground arith

pub set_user_disabled-cases :
    (i : ℕ) (d : Bool) (db : Db) {n : ℕ} {db' : Db}
    → Users.set_user_disabled i d db ≡ ok (n, db')
    → (db ≡ db') ⊎ (Users.write_user_disabled i d db ≡ ok (n, db'))
unfolding Users.set_user_disabled
set_user_disabled-cases i d db e = ground arith

pub delete_user-cases :
    (i : ℕ) (db : Db) {res : Users.DeleteUserResult} {db' : Db}
    → Users.delete_user i db ≡ ok (res, db')
    → (db ≡ db') ⊎ (Users.remove_user i db ≡ db')
unfolding Users.delete_user Users.delete_found_user
delete_user-cases i db e = ground arith

pub delete_role-cases :
    (role : String) (db : Db) {res : Roles.DeleteRoleResult} {db' : Db}
    → Roles.delete_role role db ≡ ok (res, db')
    → (db ≡ db') ⊎ (Roles.remove_role role db ≡ db')
unfolding Roles.delete_role Roles.delete_found_role
delete_role-cases role db e = ground arith

pub replace_grants-tables :
    (role : RoleRecord) (ps : List Permission) (db : Db) {db' : Db}
    → Roles.replace_grants role ps db ≡ ok db'
    → (grants : List Grant) × (record db { role_permissions = grants } ≡ db')
unfolding Roles.replace_grants
replace_grants-tables role ps db {db'} e =
    let left = delete_where (λ (g : Grant). g.0 == role.id) db.role_permissions in
    elim (insert_cases role.id ps left) [
      | inl failed ↦ absurd (let e' = (rw failed at e) in cc)
      | inr (grants, done) ↦ (grants, let e' = (rw done at e) in ground arith)
    ]

-- A change of permissions leaves the other tables alone.
pub update_role_permissions-tables :
    (role : String) (ps : List Permission) (db : Db) {res : Roles.UpdatePermissionsResult}
    {db' : Db}
    → Roles.update_role_permissions role ps db ≡ ok (res, db')
    → (grants : List Grant) × (record db { role_permissions = grants } ≡ db')
unfolding Roles.update_role_permissions Roles.update_found_role
update_role_permissions-tables role ps db {db' = db'} e =
    elim (Option-cases (get_role_by_name role db)) [
      | inl missing ↦ absurd (ground arith)
      | inr (r, found) ↦ elim (Bool-cases (r.name == "admin")) [
        | inl admin ↦ (db.role_permissions, ground arith)
        | inr custom ↦ elim (Bool-cases (Roles.would_lock_out role ps db)) [
          | inl refused ↦ (db.role_permissions, ground arith)
          | inr passed ↦ replace_grants-tables r ps db (ground arith)
        ]
      ]
    ]

pub create_role-tables :
    (name display_name : String) (ps : List Permission) (now : String) (db : Db) {id : ℕ} {db' : Db}
    → Roles.create_role name display_name ps now db ≡ ok (id, db')
    → (grants : List Grant) × (Roles.insert_grants db.next_role_id ps db.role_permissions
        ≡ ok grants)
      × (record db {
        roles =
            db.roles
            ++ (record {
              id = db.next_role_id;
              name = name;
              display_name = display_name;
              built_in = false;
              created_at = now;
            })
              ∷ [];
        role_permissions = grants;
        next_role_id = db.next_role_id + 1;
      }
          ≡ db')
unfolding Roles.create_role
create_role-tables name display_name ps now db e =
    elim (Bool-cases (any (λ (r : RoleRecord). r.name == name) db.roles)) [
      | inl taken ↦ absurd (ground arith)
      | inr free ↦ elim (insert_cases db.next_role_id ps db.role_permissions) [
        | inl failed ↦ absurd (let e' = (rw (free, failed) at e) in cc)
        | inr (grants, done) ↦ (grants, done, let e' = (rw (free, done) at e) in ground arith)
      ]
    ]

pub insert_user-tables :
    (username : String) (profile hash : Option String) (role : String) (headless : Bool)
    (now : String) (db : Db) {id : ℕ} {db' : Db}
    → Users.insert_user username profile hash role headless now db ≡ ok (id, db')
    → (u : User) × (u.id ≡ db.next_user_id)
      × (record db { users = db.users ++ u ∷ []; next_user_id = db.next_user_id + 1 } ≡ db')
unfolding Users.insert_user
insert_user-tables username profile hash role headless now db e = (
  record {
    id = db.next_user_id;
    username = username;
    spt_profile_id = profile;
    password_hash = hash;
    role = role;
    disabled = false;
    created_at = now;
    password_changed_at = none;
    is_headless = headless;
  },
  refl,
  ground arith,
)

foldl-grows :
    (i : ℕ) (ps : List Permission) (grants : List Grant) {g : Grant}
    → Memᴰ g grants
    → Memᴰ g (foldl (Roles.grant_if_missing i) grants ps)
unfolding Roles.grant_if_missing
foldl-grows i [] grants m = m
foldl-grows i (p ∷ ps) grants m = elim (Bool-cases (Roles.has_grant i (as_str p) grants)) [
  | inl held ↦ rw held (foldl-grows i ps grants m)
  | inr new ↦ rw new (foldl-grows i ps (grants ++ (i, as_str p) ∷ []) (M.append_left _ m))
]

-- Syncing the built-in role only adds grants.
pub sync-tables :
    (db : Db)
    → (grants : List Grant) × (record db { role_permissions = grants }
        ≡ Roles.sync_builtin_role_permissions db)
      × ((g : Grant) → Memᴰ g db.role_permissions → Memᴰ g grants)
unfolding Roles.sync_builtin_role_permissions
sync-tables db = elim (Option-cases (get_role_by_name "admin" db)) [
  | inl missing ↦ (db.role_permissions, rw (missing, Roles.sync_builtin_role_permissions), λ g m. m)
  | inr (r, found) ↦ (
    foldl (Roles.grant_if_missing r.id) db.role_permissions all_permissions,
    rw (found, Roles.sync_builtin_role_permissions),
    λ g m. foldl-grows r.id all_permissions db.role_permissions m,
  )
]
