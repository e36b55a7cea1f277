-- ===== src/Rbac/RoleGuards.antt =====
-- The guards of src/db/rbac.rs: no operation on roles takes `users.manage` from the last who has it.
use quma_custom.Prelude.{
  ℕ, String, ◌≡◌, ◌≢◌, refl, sym, ap, ◌∙◌, subst, Bool, true, false, not, ◌&&◌, Memᴰ, List, arith,
  ltb, lt→ltb, ◌==◌, nat_eq, string_eq, eq_iff, beq_ne, nat_beq_iff, Bool-cases, Option-cases, inl,
  inr, any, any-mem,
}
use quma_custom.Sql.{
  ok, count_where, count_where_pos, mem-delete_where, find_where-some, find_where,
}
use quma_custom.Sql.Keys.{IsKeyed}
use quma_custom.Rbac.Permission.{Permission, users_manage, as_str}
use quma_custom.Rbac.Permission.Slug.{from_slug_iff}
use quma_custom.Rbac.Tables.{Db, User, RoleRecord, get_permissions_for_role, get_role_by_name}
use quma_custom.Rbac.Roles.{
  contains, users_on_role, others_with_manage, would_lock_out, replace_grants, update_found_role,
  UpdatePermissionsResult, update_role_permissions, remove_role, delete_found_role, delete_role,
  DeleteRoleResult,
}
use quma_custom.Rbac.Managers.{HasManager, holder_of_count_joined}
use quma_custom.Rbac.Grants.{Holds-loaded, contains_of_mem, kept_grant, new_grant}

-- A manager on the role is seen by the guard's first test and by its count of users.
seen_on_role :
    (role_name : String) (db : Db) (h : HasManager db)
    → h.user.role ≡ role_name
    → (contains (get_permissions_for_role role_name db) users_manage ≡ true)
      × (ltb 0 (users_on_role role_name db) ≡ true)
unfolding users_on_role
seen_on_role role_name db h own = (
  contains_of_mem (
      Holds-loaded role_name h.holds own
        ((from_slug_iff _ users_manage).1 (unfold as_str in refl))),
  lt→ltb _ _ (
      count_where_pos (λ (u : User). u.role == role_name && not u.disabled) h.user_mem
        (rw ((eq_iff _ _).1 own, h.enabled))),
)

manager_elsewhere :
    (role_name : String) (db : Db)
    → (others_with_manage role_name db == 0) ≡ false
    → (h : HasManager db) × (h.user.role ≢ role_name)
unfolding others_with_manage
manager_elsewhere role_name db e =
    let (u, m, holds, found) =
      holder_of_count_joined (λ (u : User). not u.disabled && not (u.role == role_name))
        "users.manage" db (ground arith) in
    (
      record { user = u; user_mem = m; holds = holds; enabled = ground arith },
      λ same. let hit = (eq_iff u.role role_name).1 same in ground arith,
    )

-- Where the guard lets the change pass, a manager is left.
guard_passed :
    (role : RoleRecord) (role_name : String) (permissions : List Permission) (db : Db) {db' : Db}
    {next : ℕ}
    → IsKeyed RoleRecord.id next db.roles
    → Memᴰ role db.roles
    → role.name ≡ role_name
    → HasManager db
    → would_lock_out role_name permissions db ≡ false
    → replace_grants role permissions db ≡ ok db'
    → HasManager db'
unfolding would_lock_out
guard_passed role role_name permissions db {db'} keyed m named h pass e =
    elim (Bool-cases (h.user.role == role_name)) [
      | inr other ↦
          kept_grant role permissions db h keyed m
            (elsewhere h (λ k. let hit = (eq_iff _ _).1 k in cc)) e
      | inl own ↦
          let on_role = (eq_iff h.user.role role_name).0 own in
          let seen = seen_on_role role_name db h on_role in
          elim (Bool-cases (contains permissions users_manage)) [
            | inl again ↦ new_grant role permissions db h m (on_role ∙ sym named) again e
            | inr taken ↦
                let (h', other) = manager_elsewhere role_name db (ground (arith, seen)) in
                kept_grant role permissions db h' keyed m (elsewhere h' other) e
          ]
    ]
  where
    elsewhere : (h : HasManager db) → h.user.role ≢ role_name → h.user.role ≢ role.name
    elsewhere h other k = other (k ∙ named)

-- If some enabled user manages users and role ids are distinct, then after a change of a role's
-- permissions some enabled user still manages users.
pub update_role_permissions-HasManager :
    (role_name : String) (permissions : List Permission) (db : Db) {res : UpdatePermissionsResult}
    {db' : Db} {next : ℕ}
    → IsKeyed RoleRecord.id next db.roles
    → HasManager db
    → update_role_permissions role_name permissions db ≡ ok (res, db')
    → HasManager db'
unfolding update_role_permissions update_found_role get_role_by_name
update_role_permissions-HasManager role_name permissions db {db' = db'} keyed h e =
    elim (Option-cases (find_where (λ (r : RoleRecord). r.name == role_name) db.roles)) [
      | inl missing ↦ absurd (ground arith)
      | inr (role, found) ↦
          let (m, hit) = find_where-some _ db.roles role found in
          elim (Bool-cases (role.name == "admin")) [
            | inl admin ↦ let same : db ≡ db' = ground arith in subst HasManager same h
            | inr custom ↦ elim (Bool-cases (would_lock_out role_name permissions db)) [
              | inl refused ↦ let same : db ≡ db' = ground arith in subst HasManager same h
              | inr passed ↦
                  guard_passed role role_name permissions db keyed m ((eq_iff _ _).0 hit) h passed
                    (ground arith)
            ]
          ]
    ]

-- A manager of another role survives the deletion of a role and its grants.
kept_role_and_grant :
    (role_name : String) (db : Db) {next : ℕ} (h : HasManager db)
    → IsKeyed RoleRecord.id next db.roles
    → h.user.role ≢ role_name
    → HasManager (remove_role role_name db)
unfolding remove_role
kept_role_and_grant role_name db h keyed other = record {
  user = h.user;
  user_mem = h.user_mem;
  holds = record {
    role = h.holds.role;
    grant = h.holds.grant;
    role_mem = mem-delete_where _ h.holds.role_mem (let k = not_named in ground arith);
    grant_mem = mem-delete_where _ h.holds.grant_mem grant_left;
    role_name = h.holds.role_name;
    role_id = h.holds.role_id;
    slug = h.holds.slug;
  };
  enabled = h.enabled;
}
  where
    not_named : (h.holds.role.name == role_name) ≡ false
    not_named = beq_ne _ _ (λ k. other (h.holds.role_name ∙ k))

    doomed : RoleRecord → Bool
    doomed r = r.name == role_name && not r.built_in && r.id == h.holds.grant.0

    grant_left : any doomed db.roles ≡ false
    grant_left = elim (Bool-cases (any doomed db.roles)) [
      | inr left ↦ left
      | inl hit ↦
          let (r, m, k) = any-mem doomed db.roles hit in
          let linked : r.id ≡ h.holds.grant.0 = (nat_beq_iff _ _).0 (ground arith) in
          let same =
            keyed.unique r h.holds.role m h.holds.role_mem (linked ∙ sym h.holds.role_id) in
          let named : r.name ≡ role_name = (eq_iff _ _).0 (ground arith) in
          absurd (other (h.holds.role_name ∙ sym (ap RoleRecord.name same) ∙ named))
    ]

-- If some enabled user manages users and role ids are distinct, then after the deletion of a role
-- some enabled user still manages users.
pub delete_role-HasManager :
    (role_name : String) (db : Db) {res : DeleteRoleResult} {db' : Db} {next : ℕ}
    → IsKeyed RoleRecord.id next db.roles
    → HasManager db
    → delete_role role_name db ≡ ok (res, db')
    → HasManager db'
unfolding delete_role delete_found_role
delete_role-HasManager role_name db {db' = db'} keyed h e =
    elim (Option-cases (get_role_by_name role_name db)) [
      | inl missing ↦ let same : db ≡ db' = ground arith in subst HasManager same h
      | inr (role, found) ↦ elim (Bool-cases role.built_in) [
        | inl fixed ↦ let same : db ≡ db' = ground arith in subst HasManager same h
        | inr custom ↦
            elim (Bool-cases (ltb 0 (count_where (λ (u : User). u.role == role_name) db.users))) [
              | inl used ↦ let same : db ≡ db' = ground arith in subst HasManager same h
              | inr unused ↦
                  let same : remove_role role_name db ≡ db' = ground arith in
                  subst HasManager same (
                    kept_role_and_grant role_name db h keyed (λ own.
                      let used = lt→ltb _ _ (
                        count_where_pos (λ (u : User). u.role == role_name) h.user_mem
                          ((eq_iff _ _).1 own)) in
                      cc))
            ]
      ]
    ]
