-- ===== src/Rbac/Lockout.antt =====
-- No sequence of operations on users and roles locks every user manager out.
use mathlib.Core.List.Memᴰ as M
use quma_custom.Prelude.{
  ◌≡◌, refl, ◌∙◌, subst, true, not, ◌&&◌, some, arith, ◌==◌, nat_eq, string_eq, ltb→lt, lt→ltb,
}
use quma_custom.Sql.{update_where}
use quma_custom.Rbac.Tables.{Db, User, RoleRecord, has_user_manager}
use quma_custom.Rbac.Users
use quma_custom.Rbac.Roles
use quma_custom.Rbac.Managers.{HasManager, HasManager-count, count-HasManager}
use quma_custom.Rbac.Grants.{insert_grants-keeps}
use quma_custom.Rbac.UserGuards.{
  update_user_role-HasManager, set_user_disabled-HasManager, delete_user-HasManager,
}
use quma_custom.Rbac.RoleGuards.{update_role_permissions-HasManager, delete_role-HasManager}
use quma_custom.Rbac.Steps.{Step, HasManager-update_users, HasManager-update_roles, HasManager-grow}
use quma_custom.Rbac.Effects.{create_role-tables, insert_user-tables, sync-tables}
use quma_custom.Rbac.Keys.{HasKeys, Step-HasKeys}

-- Every operation keeps a manager.
Step-HasManager : {db db' : Db} → Step db db' → HasKeys db → HasManager db → HasManager db'
unfolding Users.update_user_password Users.update_user_spt_profile_id Roles.update_role_display_name
Step-HasManager {db} (Step.insert_user a b c d f g i e) k h =
    let (u, fresh, same) = insert_user-tables a b c d f g db e in
    subst HasManager same (HasManager-grow (λ v m. M.append_left _ m) (λ r m. m) (λ x m. m) h)
Step-HasManager {db} (Step.update_user_role i r n e) k h = update_user_role-HasManager i r db h e
Step-HasManager {db} (Step.set_user_disabled i d n e) k h = set_user_disabled-HasManager i d db h e
Step-HasManager {db} (Step.write_notes ns e) k h =
    subst HasManager e (HasManager-grow (λ v m. m) (λ r m. m) (λ x m. m) h)
Step-HasManager {db} (Step.delete_user i r e) k h = delete_user-HasManager i db k.users h e
Step-HasManager {db} {db'} (Step.update_user_password i hash now n e) k h =
    let f = λ (u : User).
      let v : User = record u { password_hash = some hash; password_changed_at = some now } in v in
    let same : record db { users = update_where (λ (u : User). u.id == i) f db.users } ≡ db' =
      ground arith in
    subst HasManager same (HasManager-update_users _ f db (λ u. refl) (λ u. refl) h)
Step-HasManager {db} {db'} (Step.update_user_spt_profile_id i profile n e) k h =
    let f = λ (u : User). let v : User = record u { spt_profile_id = profile } in v in
    let same : record db { users = update_where (λ (u : User). u.id == i) f db.users } ≡ db' =
      ground arith in
    subst HasManager same (HasManager-update_users _ f db (λ u. refl) (λ u. refl) h)
Step-HasManager {db} (Step.create_role a b ps now i e) k h =
    let (grants, done, same) = create_role-tables a b ps now db e in
    subst HasManager same (
      HasManager-grow (λ u m. m) (λ r m. M.append_left _ m)
        (λ g m. insert_grants-keeps db.next_role_id ps db.role_permissions done m) h)
Step-HasManager {db} (Step.update_role_permissions r ps res e) k h =
    update_role_permissions-HasManager r ps db k.roles h e
Step-HasManager {db} {db'} (Step.update_role_display_name r d n e) k h =
    let f = λ (x : RoleRecord). let y : RoleRecord = record x { display_name = d } in y in
    let same : record db {
      roles = update_where (λ (x : RoleRecord). x.name == r && not x.built_in) f db.roles;
    }
        ≡ db' =
      ground arith in
    subst HasManager same (HasManager-update_roles _ f db (λ x. refl) (λ x. refl) h)
Step-HasManager {db} (Step.delete_role r res e) k h = delete_role-HasManager r db k.roles h e
Step-HasManager {db} (Step.sync_builtin_role_permissions e) k h =
    let (grants, same, grown) = sync-tables db in
    subst HasManager (same ∙ e) (HasManager-grow (λ u m. m) (λ r m. m) grown h)

-- The databases that a sequence of operations can lead to.
pub data Reach (db : Db) : Db → Type 0 where
  here : Reach db db
  next : {mid db' : Db} → Reach db mid → Step mid db' → Reach db db'

Reach-invariant :
    {db db' : Db} → Reach db db' → HasKeys db → HasManager db → HasKeys db' × HasManager db'
Reach-invariant here k h = (k, h)
Reach-invariant (next r s) k h =
    let (k', h') = Reach-invariant r k h in (Step-HasKeys s k', Step-HasManager s k' h')

-- Where the ids are keys and `has_user_manager` answers yes, it answers yes after any sequence of
-- operations on users, roles and permissions that report no error: nobody can be locked out of the
-- user management.
pub has_user_manager-Reach :
    {db db' : Db}
    → Reach db db'
    → HasKeys db
    → has_user_manager db ≡ true
    → has_user_manager db' ≡ true
unfolding has_user_manager
has_user_manager-Reach {db} r k h =
    let (k', h') = Reach-invariant r k (count-HasManager db (ltb→lt _ _ h)) in
    lt→ltb _ _ (HasManager-count h')
