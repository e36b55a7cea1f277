-- ===== src/Rbac/Managers.antt =====
-- What the counting queries of src/db/rbac.rs and src/db/users.rs say of the rows.
use mathlib.Core.List.Memᴰ as M
use quma_custom.Prelude.{
  ℕ, ◌<◌, String, ◌≡◌, sym, ap, ◌∙◌, subst, Bool, true, false, not, ◌&&◌, some, none, Memᴰ, arith,
  ltb→lt, lt→ltb, ◌==◌, nat_eq, string_eq, eq_iff, beq_self, mem-filter, mem_of_mem-filter,
  nat_beq_iff, List,
}
use quma_custom.Sql.{mem-flat_map, mem_of_mem-flat_map, count_where_pos, row_of_count_where}
use quma_custom.Rbac.Tables.{
  Db, User, RoleRecord, Grant, joined, granted, count_joined, count_users_with_permission,
  current_has_manage, role_has_manage,
}

-- The user's role is granted the permission.
pub record Holds (permission : String) (u : User) (db : Db) : Type 0 where
  pub role : RoleRecord
  pub grant : Grant
  pub role_mem : Memᴰ role db.roles
  pub grant_mem : Memᴰ grant db.role_permissions
  pub role_name : u.role ≡ role.name
  pub role_id : role.id ≡ grant.0
  pub slug : grant.1 ≡ permission

pub mem-joined :
    {permission : String} (u : User) (db : Db) (h : Holds permission u db)
    → Memᴰ u db.users
    → Memᴰ (u, h.role, h.grant) (joined db)
unfolding joined
mem-joined u db h m = mem-flat_map _ m (
    mem-flat_map _
      (mem-filter (λ (r : RoleRecord). u.role == r.name) h.role_mem ((eq_iff _ _).1 h.role_name))
      (M.map (λ rp. (u, h.role, rp))
        (mem-filter (λ (rp : Grant). h.role.id == rp.0) h.grant_mem
          ((nat_beq_iff _ _).1 h.role_id))))

pub count_joined_pos :
    (p : User → Bool) (permission : String) (u : User) (db : Db)
    → Holds permission u db
    → Memᴰ u db.users
    → p u ≡ true
    → 0 < count_joined p permission db
unfolding count_joined
count_joined_pos p permission u db h m pu =
    count_where_pos _ (mem-joined u db h m) (rw (pu, (eq_iff h.grant.1 permission).1 h.slug))

-- The user that a row of the join stands for.
holder_of_row :
    (permission : String) (db : Db) (row : User × RoleRecord × Grant)
    → Memᴰ row (joined db)
    → row.2.1 ≡ permission
    → Memᴰ row.0 db.users × Holds permission row.0 db
unfolding joined
holder_of_row permission db row m e =
    let (u, mu, m1) = mem_of_mem-flat_map _ db.users m in
    let (r, mr, m2) = mem_of_mem-flat_map _ _ m1 in
    let (rp, mrp, same) = M.of_map (λ rp. (u, r, rp)) _ m2 in
    let (in_roles, named) = mem_of_mem-filter _ db.roles mr in
    let (in_grants, linked) = mem_of_mem-filter _ db.role_permissions mrp in
    subst (λ (w : User × RoleRecord × Grant). Memᴰ w.0 db.users × Holds permission w.0 db) same
      (
        mu,
        record {
          role = r;
          grant = rp;
          role_mem = in_roles;
          grant_mem = in_grants;
          role_name = (eq_iff _ _).0 named;
          role_id = (nat_beq_iff _ _).0 linked;
          slug = ap (λ (w : User × RoleRecord × Grant). w.2.1) same ∙ e;
        },
      )

pub holder_of_count_joined :
    (p : User → Bool) (permission : String) (db : Db)
    → 0 < count_joined p permission db
    → (u : User) × Memᴰ u db.users × Holds permission u db × (p u ≡ true)
unfolding count_joined
holder_of_count_joined p permission db h =
    let (row, m, e) = row_of_count_where _ (joined db) h in
    let slug : row.2.1 ≡ permission = (eq_iff _ _).0 (ground arith) in
    let (mu, holds) = holder_of_row permission db row m slug in (row.0, mu, holds, ground arith)

-- Some enabled user manages users.
pub record HasManager (db : Db) : Type 0 where
  pub user : User
  pub user_mem : Memᴰ user db.users
  pub holds : Holds "users.manage" user db
  pub enabled : user.disabled ≡ false

-- The count that src/db/rbac.rs calls the last-admin guard is positive exactly then.
pub count-HasManager :
    (db : Db) → 0 < count_users_with_permission "users.manage" none db → HasManager db
unfolding count_users_with_permission
count-HasManager db h =
    let (u, m, holds, e) = holder_of_count_joined _ "users.manage" db h in
    record { user = u; user_mem = m; holds = holds; enabled = ground arith }

pub HasManager-count :
    {db : Db} → HasManager db → 0 < count_users_with_permission "users.manage" none db
unfolding count_users_with_permission
HasManager-count {db} h =
    count_joined_pos (λ u. not u.disabled) "users.manage" h.user db h.holds h.user_mem
      (rw h.enabled)

-- Another user than the excluded one manages users.
pub other_manager :
    (user_id : ℕ) (db : Db)
    → (count_users_with_permission "users.manage" (some user_id) db == 0) ≡ false
    → (h : HasManager db) × ((h.user.id == user_id) ≡ false)
unfolding count_users_with_permission
other_manager user_id db h =
    let (u, m, holds, e) =
      holder_of_count_joined (λ (u : User). not u.disabled && not (u.id == user_id)) "users.manage"
        db (ground arith) in
    (record { user = u; user_mem = m; holds = holds; enabled = ground arith }, ground arith)

pub current_has_manage-true : (db : Db) (h : HasManager db) → current_has_manage h.user.id db ≡ true
unfolding current_has_manage
current_has_manage-true db h = lt→ltb _ _ (
    count_joined_pos (λ u. u.id == h.user.id && not u.disabled) "users.manage" h.user db h.holds
      h.user_mem (rw (h.enabled, beq_self h.user.id)))

-- The role of that name is granted `users.manage`, whoever has it.
pub Holds-of_role_has_manage :
    (u : User) (role : String) (db : Db)
    → role_has_manage role db ≡ true
    → u.role ≡ role
    → Holds "users.manage" u db
unfolding role_has_manage granted
Holds-of_role_has_manage u role db h e =
    let (row, m, hit) = row_of_count_where _ _ (ltb→lt _ _ h) in
    let (r, mr, m1) = mem_of_mem-flat_map _ db.roles m in
    let (rp, mrp, same) = M.of_map (λ (g : Grant). (r, g)) _ m1 in
    let (in_grants, linked) = mem_of_mem-filter _ db.role_permissions mrp in
    let row' : RoleRecord × Grant = (r, rp) in
    let hit' : (row'.0.name == role && row'.1.1 == "users.manage") ≡ true =
      subst (λ (w : RoleRecord × Grant). (w.0.name == role && w.1.1 == "users.manage") ≡ true)
        (sym same) hit in
    record {
      role = r;
      grant = rp;
      role_mem = mr;
      grant_mem = in_grants;
      role_name = e ∙ sym ((eq_iff r.name role).0 (ground arith));
      role_id = (nat_beq_iff _ _).0 linked;
      slug = (eq_iff rp.1 "users.manage").0 (ground arith);
    }

-- What a user holds depends on the roles and the grants alone.
pub Holds-with_users :
    {permission : String} {u : User} {db : Db} (users : List User)
    → Holds permission u db
    → Holds permission u (record db { users = users })
Holds-with_users users h = record {
  role = h.role;
  grant = h.grant;
  role_mem = h.role_mem;
  grant_mem = h.grant_mem;
  role_name = h.role_name;
  role_id = h.role_id;
  slug = h.slug;
}

-- Nor does it depend on whether the user is disabled.
pub Holds-as :
    {permission : String} (u : User) (d : Bool) {db : Db} (users : List User)
    → Holds permission u db
    → Holds permission (record u { disabled = d }) (record db { users = users })
Holds-as u d users h = record {
  role = h.role;
  grant = h.grant;
  role_mem = h.role_mem;
  grant_mem = h.grant_mem;
  role_name = h.role_name;
  role_id = h.role_id;
  slug = h.slug;
}
