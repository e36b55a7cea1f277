-- ===== src/Rbac/Steps.antt =====
-- The operations of src/db/rbac.rs and src/db/users.rs that write roles and users, as the steps of
-- one database, and how each keeps the manager and the keys.
use quma_custom.Prelude.{
  ℕ, String, ◌≡◌, sym, ◌∙◌, Bool, Option, Memᴰ, List, nat_eq, string_eq, Bool-cases, inl, inr,
}
use quma_custom.Sql.{ok, update_where, mem-update_where_hit, mem-update_where_miss}
use quma_custom.Rbac.Permission.{Permission}
use quma_custom.Rbac.Tables.{Db, User, RoleRecord, Grant}
use quma_custom.Rbac.Users
use quma_custom.Rbac.Roles
use quma_custom.Rbac.Managers.{HasManager, Holds-with_users}

-- One operation that reports no error. The arguments are whatever the caller chooses.
pub data Step (db db' : Db) : Type 0 where
  insert_user :
      (username : String) (profile hash : Option String) (role : String) (headless : Bool)
      (now : String) (id : ℕ)
      → Users.insert_user username profile hash role headless now db ≡ ok (id, db')
      → Step db db'
  update_user_role :
      (user_id : ℕ) (new_role : String) (n : ℕ)
      → Users.update_user_role user_id new_role db ≡ ok (n, db')
      → Step db db'
  set_user_disabled :
      (user_id : ℕ) (disabled : Bool) (n : ℕ)
      → Users.set_user_disabled user_id disabled db ≡ ok (n, db')
      → Step db db'
  delete_user :
      (user_id : ℕ) (res : Users.DeleteUserResult)
      → Users.delete_user user_id db ≡ ok (res, db')
      → Step db db'
  -- The writes of src/db/notes.rs, as far as users are concerned.
  write_notes : (note_users : List ℕ) → record db { note_users = note_users } ≡ db' → Step db db'
  update_user_password :
      (user_id : ℕ) (hash now : String) (n : ℕ)
      → Users.update_user_password user_id hash now db ≡ ok (n, db')
      → Step db db'
  update_user_spt_profile_id :
      (user_id : ℕ) (profile : Option String) (n : ℕ)
      → Users.update_user_spt_profile_id user_id profile db ≡ ok (n, db')
      → Step db db'
  create_role :
      (name display_name : String) (permissions : List Permission) (now : String) (id : ℕ)
      → Roles.create_role name display_name permissions now db ≡ ok (id, db')
      → Step db db'
  update_role_permissions :
      (role_name : String) (permissions : List Permission) (res : Roles.UpdatePermissionsResult)
      → Roles.update_role_permissions role_name permissions db ≡ ok (res, db')
      → Step db db'
  update_role_display_name :
      (role_name display_name : String) (n : ℕ)
      → Roles.update_role_display_name role_name display_name db ≡ ok (n, db')
      → Step db db'
  delete_role :
      (role_name : String) (res : Roles.DeleteRoleResult)
      → Roles.delete_role role_name db ≡ ok (res, db')
      → Step db db'
  sync_builtin_role_permissions : Roles.sync_builtin_role_permissions db ≡ db' → Step db db'

-- An update of users that leaves their roles and their being enabled alone keeps a manager.
pub HasManager-update_users :
    (p : User → Bool) (f : User → User) (db : Db)
    → ((u : User) → (f u).role ≡ u.role)
    → ((u : User) → (f u).disabled ≡ u.disabled)
    → HasManager db
    → HasManager (record db { users = update_where p f db.users })
HasManager-update_users p f db same_role same_state h = elim (Bool-cases (p h.user)) [
  | inl hit ↦ record {
    user = f h.user;
    user_mem = mem-update_where_hit p f h.user_mem hit;
    holds = record {
      role = h.holds.role;
      grant = h.holds.grant;
      role_mem = h.holds.role_mem;
      grant_mem = h.holds.grant_mem;
      role_name = same_role h.user ∙ h.holds.role_name;
      role_id = h.holds.role_id;
      slug = h.holds.slug;
    };
    enabled = same_state h.user ∙ h.enabled;
  }
  | inr miss ↦ record {
    user = h.user;
    user_mem = mem-update_where_miss p f h.user_mem miss;
    holds = Holds-with_users _ h.holds;
    enabled = h.enabled;
  }
]

-- Likewise an update of roles that leaves their names and ids alone.
pub HasManager-update_roles :
    (p : RoleRecord → Bool) (f : RoleRecord → RoleRecord) (db : Db)
    → ((r : RoleRecord) → (f r).name ≡ r.name)
    → ((r : RoleRecord) → (f r).id ≡ r.id)
    → HasManager db
    → HasManager (record db { roles = update_where p f db.roles })
HasManager-update_roles p f db same_name same_id h = record {
  user = h.user;
  user_mem = h.user_mem;
  holds = elim (Bool-cases (p h.holds.role)) [
    | inl hit ↦ record {
      role = f h.holds.role;
      grant = h.holds.grant;
      role_mem = mem-update_where_hit p f h.holds.role_mem hit;
      grant_mem = h.holds.grant_mem;
      role_name = h.holds.role_name ∙ sym (same_name h.holds.role);
      role_id = same_id h.holds.role ∙ h.holds.role_id;
      slug = h.holds.slug;
    }
    | inr miss ↦ record {
      role = h.holds.role;
      grant = h.holds.grant;
      role_mem = mem-update_where_miss p f h.holds.role_mem miss;
      grant_mem = h.holds.grant_mem;
      role_name = h.holds.role_name;
      role_id = h.holds.role_id;
      slug = h.holds.slug;
    }
  ];
  enabled = h.enabled;
}

-- Rows that are only added take nothing away.
pub HasManager-grow :
    {db db' : Db}
    → ((u : User) → Memᴰ u db.users → Memᴰ u db'.users)
    → ((r : RoleRecord) → Memᴰ r db.roles → Memᴰ r db'.roles)
    → ((g : Grant) → Memᴰ g db.role_permissions → Memᴰ g db'.role_permissions)
    → HasManager db
    → HasManager db'
HasManager-grow users roles grants h = record {
  user = h.user;
  user_mem = users h.user h.user_mem;
  holds = record {
    role = h.holds.role;
    grant = h.holds.grant;
    role_mem = roles h.holds.role h.holds.role_mem;
    grant_mem = grants h.holds.grant h.holds.grant_mem;
    role_name = h.holds.role_name;
    role_id = h.holds.role_id;
    slug = h.holds.slug;
  };
  enabled = h.enabled;
}
