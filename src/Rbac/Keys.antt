-- ===== src/Rbac/Keys.antt =====
-- Every operation keeps the ids of users and roles distinct.
use quma_custom.Prelude.{
  ℕ, String, ◌≡◌, refl, ◌∙◌, subst, not, ◌&&◌, some, arith, ◌==◌, nat_eq, string_eq, inl, inr,
}
use quma_custom.Sql.{ok, update_where}
use quma_custom.Sql.Keys.{IsKeyed, update_where-IsKeyed, delete_where-IsKeyed, insert-IsKeyed}
use quma_custom.Rbac.Tables.{Db, User, RoleRecord}
use quma_custom.Rbac.Users
use quma_custom.Rbac.Roles
use quma_custom.Rbac.Steps.{Step}
use quma_custom.Rbac.Effects.{
  update_user_role-cases, set_user_disabled-cases, delete_user-cases, delete_role-cases,
  update_role_permissions-tables, create_role-tables, insert_user-tables, sync-tables,
}

-- The ids of the two tables are keys.
pub record HasKeys (db : Db) : Type 0 where
  pub users : IsKeyed User.id db.next_user_id db.users
  pub roles : IsKeyed RoleRecord.id db.next_role_id db.roles

write_user_role-HasKeys :
    (i : ℕ) (role : String) (db : Db) {n : ℕ} {db' : Db}
    → HasKeys db
    → Users.write_user_role i role db ≡ ok (n, db')
    → HasKeys db'
unfolding Users.write_user_role
write_user_role-HasKeys i role db {db' = db'} k e =
    let users = update_where (λ (u : User). u.id == i) (λ u. record u { role = role }) db.users in
    let same : record db { users = users } ≡ db' = ground arith in
    subst HasKeys same
      (record { users = update_where-IsKeyed User.id _ _ (λ u. refl) k.users; roles = k.roles })

-- Every operation keeps the keys.
pub Step-HasKeys : {db db' : Db} → Step db db' → HasKeys db → HasKeys db'
unfolding Users.write_user_disabled Users.update_user_password Users.update_user_spt_profile_id
    Roles.update_role_display_name Roles.remove_role
Step-HasKeys {db} {db'} (Step.insert_user a b c d f g i e) k =
    let (u, fresh, same) = insert_user-tables a b c d f g db e in
    subst HasKeys same (record { users = insert-IsKeyed User.id u fresh k.users; roles = k.roles })
Step-HasKeys {db} (Step.update_user_role i r n e) k = elim (update_user_role-cases i r db e) [
  | inl same ↦ subst HasKeys same k
  | inr wrote ↦ write_user_role-HasKeys i r db k wrote
]
Step-HasKeys {db} {db'} (Step.set_user_disabled i d n e) k =
    elim (set_user_disabled-cases i d db e) [
      | inl same ↦ subst HasKeys same k
      | inr wrote ↦
          let users =
            update_where (λ (u : User). u.id == i) (λ u. record u { disabled = d }) db.users in
          let same : record db { users = users } ≡ db' = ground arith in
          subst HasKeys same (record {
            users = update_where-IsKeyed User.id _ _ (λ u. refl) k.users;
            roles = k.roles;
          })
    ]
Step-HasKeys {db} (Step.write_notes ns e) k =
    subst HasKeys e (record { users = k.users; roles = k.roles })
Step-HasKeys {db} (Step.delete_user i r e) k = elim (delete_user-cases i db e) [
  | inl same ↦ subst HasKeys same k
  | inr same ↦
      subst HasKeys same
        (record { users = delete_where-IsKeyed User.id _ k.users; roles = k.roles })
]
Step-HasKeys {db} {db'} (Step.update_user_password i hash now n e) k =
    let users =
      update_where (λ (u : User). u.id == i)
        (λ u. record u { password_hash = some hash; password_changed_at = some now }) db.users in
    let same : record db { users = users } ≡ db' = ground arith in
    subst HasKeys same
      (record { users = update_where-IsKeyed User.id _ _ (λ u. refl) k.users; roles = k.roles })
Step-HasKeys {db} {db'} (Step.update_user_spt_profile_id i profile n e) k =
    let users =
      update_where (λ (u : User). u.id == i) (λ u. record u { spt_profile_id = profile })
        db.users in
    let same : record db { users = users } ≡ db' = ground arith in
    subst HasKeys same
      (record { users = update_where-IsKeyed User.id _ _ (λ u. refl) k.users; roles = k.roles })
Step-HasKeys {db} (Step.create_role a b ps now i e) k =
    let (grants, done, same) = create_role-tables a b ps now db e in
    subst HasKeys same
      (record { users = k.users; roles = insert-IsKeyed RoleRecord.id _ refl k.roles })
Step-HasKeys {db} (Step.update_role_permissions r ps res e) k =
    let (grants, same) = update_role_permissions-tables r ps db e in
    subst HasKeys same (record { users = k.users; roles = k.roles })
Step-HasKeys {db} {db'} (Step.update_role_display_name r d n e) k =
    let roles =
      update_where (λ (x : RoleRecord). x.name == r && not x.built_in)
        (λ x. record x { display_name = d }) db.roles in
    let same : record db { roles = roles } ≡ db' = ground arith in
    subst HasKeys same (record {
      users = k.users;
      roles = update_where-IsKeyed RoleRecord.id _ _ (λ x. refl) k.roles;
    })
Step-HasKeys {db} (Step.delete_role r res e) k = elim (delete_role-cases r db e) [
  | inl same ↦ subst HasKeys same k
  | inr same ↦
      subst HasKeys same
        (record { users = k.users; roles = delete_where-IsKeyed RoleRecord.id _ k.roles })
]
Step-HasKeys {db} (Step.sync_builtin_role_permissions e) k =
    let (grants, same, grown) = sync-tables db in
    subst HasKeys (same ∙ e) (record { users = k.users; roles = k.roles })
