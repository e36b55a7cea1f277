-- ===== src/Tests/RbacTests.antt =====
-- Concrete runs of the role and user operations.
use quma_custom.Prelude.{ℕ, String, ◌≡◌, refl, true, false, some, none, [], ◌∷◌, ◌↔◌}
use quma_custom.Sql.{ok, find_where, update_where, count_where, flat_map}
use quma_custom.Sql.Keys.{IsKeyed, insert-IsKeyed}
use quma_custom.Rbac.Permission.{svm_edit, from_slug, as_str}
use quma_custom.Rbac.Permission.Slug.{from_slug_iff}
use quma_custom.Rbac.Tables.{
  Db, User, RoleRecord, has_user_manager, joined, count_joined, count_users_with_permission,
  current_has_manage, role_has_manage, granted, get_user_by_id,
}
use quma_custom.Rbac.Users.{
  update_user_role, write_user_role, set_user_disabled, delete_user, delete_found_user, role_exists,
  last_admin,
}
use quma_custom.Rbac.Steps.{Step}
use quma_custom.Rbac.Keys.{HasKeys}
use quma_custom.Rbac.Lockout.{here, next, has_user_manager-Reach}

abbrev admin_role : RoleRecord
admin_role = record {
  id = 1;
  name = "admin";
  display_name = "Admin";
  built_in = true;
  created_at = "2026-01-01 00:00:00";
}

abbrev player_role : RoleRecord
player_role = record {
  id = 2;
  name = "player";
  display_name = "Player";
  built_in = true;
  created_at = "2026-01-01 00:00:00";
}

abbrev person : ℕ → String → String → User
person id username role = record {
  id = id;
  username = username;
  spt_profile_id = none;
  password_hash = none;
  role = role;
  disabled = false;
  created_at = "2026-01-01 00:00:00";
  password_changed_at = none;
  is_headless = false;
}

abbrev two_admins : Db
two_admins = record {
  roles = admin_role ∷ player_role ∷ [];
  role_permissions = (1, "users.manage") ∷ (1, "svm.edit") ∷ (2, "svm.edit") ∷ [];
  users = person 1 "ann" "admin" ∷ person 2 "bob" "admin" ∷ [];
  next_role_id = 3;
  next_user_id = 3;
  note_users = [];
}

no_rows {ℓ} : {A : Type ℓ} (key : A → ℕ) → IsKeyed key 1 []
no_rows key = record { unique = λ x y m. elim m [ ]; below = λ x m. elim m [ ] }

two_admins-HasKeys : HasKeys two_admins
two_admins-HasKeys = record {
  users =
      insert-IsKeyed User.id (person 2 "bob" "admin") refl
        (insert-IsKeyed User.id (person 1 "ann" "admin") refl (no_rows User.id));
  roles =
      insert-IsKeyed RoleRecord.id player_role refl
        (insert-IsKeyed RoleRecord.id admin_role refl (no_rows RoleRecord.id));
}

-- Ann's role is changed, and then Bob may not be disabled.
abbrev one_admin : Db
one_admin = record two_admins { users = person 1 "ann" "player" ∷ person 2 "bob" "admin" ∷ [] }

demoted : update_user_role 1 "player" two_admins ≡ ok (1, one_admin)
unfolding update_user_role write_user_role role_exists current_has_manage role_has_manage
    count_joined count_users_with_permission joined granted flat_map count_where update_where
demoted = refl

refused : set_user_disabled 2 true one_admin ≡ ok (0, one_admin)
unfolding set_user_disabled current_has_manage count_joined count_users_with_permission joined
    flat_map count_where
refused = refl

not_deleted : delete_user 2 one_admin ≡ ok (last_admin, one_admin)
unfolding delete_user delete_found_user get_user_by_id find_where current_has_manage count_joined
    count_users_with_permission joined flat_map count_where
not_deleted = refl

managed : has_user_manager two_admins ≡ true
unfolding has_user_manager count_joined count_users_with_permission joined flat_map count_where
managed = refl

has_user_manager-Reach_example : has_user_manager one_admin ≡ true
has_user_manager-Reach_example =
    has_user_manager-Reach
      (next (next here (Step.update_user_role 1 "player" 1 demoted))
        (Step.set_user_disabled 2 true 0 refused))
      two_admins-HasKeys managed

from_slug_iff_example : (from_slug "svm.edit" ≡ some svm_edit) ↔ ("svm.edit" ≡ as_str svm_edit)
from_slug_iff_example = from_slug_iff "svm.edit" svm_edit
