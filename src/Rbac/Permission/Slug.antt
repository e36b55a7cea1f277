-- ===== src/Rbac/Permission/Slug.antt =====
-- The slugs of src/db/rbac.rs name the permissions one to one.
use mathlib.Core.Option.{some-injective}
use quma_custom.Prelude.{
  String, ◌≡◌, refl, ◌↔◌, ap, ◌∙◌, Option, some, Memᴰ, eq_iff, ◌==◌, string_eq, if◌then◌else◌,
  Bool-cases, inl, inr,
}
use quma_custom.Rbac.Permission.{
  Permission, mods_install, mods_update, mods_remove, mods_disable, mods_config_edit,
  modsync_manage, svm_edit, requests_resolve, server_control, server_logs, server_metrics,
  headless_manage, queue_manage, users_manage, settings_manage, items_give, notes_edit,
  notes_manage, all_permissions, as_str, from_slug,
}

from_slug-as_str : (p : Permission) → from_slug (as_str p) ≡ some p
unfolding from_slug as_str
from_slug-as_str mods_install = refl
from_slug-as_str _ = refl

-- One arm of the `match`: it answers for its own text, or the arms below answer.
arm :
    (s : String) (p q : Permission) {t : String} {rest : Option Permission}
    → t ≡ as_str q
    → (rest ≡ some p → s ≡ as_str p)
    → (if s == t then some q else rest) ≡ some p
    → s ≡ as_str p
arm s p q {t} e below h = elim (Bool-cases (s == t)) [
  | inl hit ↦
      let same : q ≡ p = some-injective q p (rw hit at h) in (eq_iff s t).0 hit ∙ e ∙ ap as_str same
  | inr miss ↦ below (rw miss at h)
]

as_str_of_from_slug : (s : String) (p : Permission) → from_slug s ≡ some p → s ≡ as_str p
unfolding from_slug as_str
as_str_of_from_slug s p = arm s p mods_install refl (
    arm s p mods_update refl (
      arm s p mods_remove refl (
        arm s p mods_disable refl (
          arm s p mods_config_edit refl (
            arm s p modsync_manage refl (
              arm s p svm_edit refl (
                arm s p requests_resolve refl (
                  arm s p server_control refl (
                    arm s p server_logs refl (
                      arm s p server_metrics refl (
                        arm s p headless_manage refl (
                          arm s p queue_manage refl (
                            arm s p users_manage refl (
                              arm s p settings_manage refl (
                                arm s p items_give refl (
                                  arm s p notes_edit refl
                                    (arm s p notes_manage refl (λ h. absurd (cc)))))))))))))))))))

-- A slug is parsed as a permission exactly when it is the permission's own text.
pub from_slug_iff : (s : String) (p : Permission) → (from_slug s ≡ some p) ↔ (s ≡ as_str p)
from_slug_iff s p = (as_str_of_from_slug s p, λ e. ap from_slug e ∙ from_slug-as_str p)

-- `Permission::ALL` holds every permission.
pub all_permissions-complete : (p : Permission) → Memᴰ p all_permissions
all_permissions-complete mods_install = Memᴰ.head refl
all_permissions-complete _ = search (Memᴰ.head, Memᴰ.tail) depth 20
