-- ===== src/Rbac/Permission.antt =====
-- src/db/rbac.rs: the permissions, their slugs, their names and their categories.
pub mod Slug
use quma_custom.Prelude.{
  String, Option, none, some, List, [], ◌∷◌, ◌==◌, string_eq, if◌then◌else◌, nat_beq, PartialEq,
  nat_beq_iff, ℕ, ◌≡◌, ◌↔◌, ap, Bool, true, refl, sym, ◌∙◌,
}

pub data Permission : Type 0 where
  mods_install mods_update mods_remove mods_disable mods_config_edit modsync_manage svm_edit
        requests_resolve server_control server_logs server_metrics headless_manage queue_manage
        users_manage settings_manage items_give notes_edit notes_manage :
      Permission

-- `Permission::ALL`
abbrev pub all_permissions : List Permission
all_permissions =
    mods_install ∷ mods_update ∷ mods_remove ∷ mods_disable ∷ mods_config_edit ∷ modsync_manage
    ∷ svm_edit ∷ requests_resolve ∷ server_control ∷ server_logs ∷ server_metrics ∷ headless_manage
    ∷ queue_manage ∷ users_manage ∷ settings_manage ∷ items_give ∷ notes_edit ∷ notes_manage ∷ []

unfoldable pub as_str : Permission → String
as_str mods_install = "mods.install"
as_str mods_update = "mods.update"
as_str mods_remove = "mods.remove"
as_str mods_disable = "mods.disable"
as_str mods_config_edit = "mods.config_edit"
as_str modsync_manage = "modsync.manage"
as_str svm_edit = "svm.edit"
as_str requests_resolve = "requests.resolve"
as_str server_control = "server.control"
as_str server_logs = "server.logs"
as_str server_metrics = "server.metrics"
as_str headless_manage = "headless.manage"
as_str queue_manage = "queue.manage"
as_str users_manage = "users.manage"
as_str settings_manage = "settings.manage"
as_str items_give = "items.give"
as_str notes_edit = "notes.edit"
as_str notes_manage = "notes.manage"

-- The arms of the `match`, tried in order.
unfoldable pub from_slug : String → Option Permission
from_slug s =
    if s == "mods.install"
    then some mods_install
    else if s == "mods.update"
    then some mods_update
    else if s == "mods.remove"
    then some mods_remove
    else if s == "mods.disable"
    then some mods_disable
    else if s == "mods.config_edit"
    then some mods_config_edit
    else if s == "modsync.manage"
    then some modsync_manage
    else if s == "svm.edit"
    then some svm_edit
    else if s == "requests.resolve"
    then some requests_resolve
    else if s == "server.control"
    then some server_control
    else if s == "server.logs"
    then some server_logs
    else if s == "server.metrics"
    then some server_metrics
    else if s == "headless.manage"
    then some headless_manage
    else if s == "queue.manage"
    then some queue_manage
    else if s == "users.manage"
    then some users_manage
    else if s == "settings.manage"
    then some settings_manage
    else if s == "items.give"
    then some items_give
    else if s == "notes.edit"
    then some notes_edit
    else if s == "notes.manage"
    then some notes_manage
    else none

pub display_name : Permission → String
display_name mods_install = "Install Mods"
display_name mods_update = "Update Mods"
display_name mods_remove = "Remove Mods"
display_name mods_disable = "Disable Mods"
display_name mods_config_edit = "Edit Mod Configs"
display_name modsync_manage = "Manage NarcoNet"
display_name svm_edit = "Edit Server Config"
display_name requests_resolve = "Resolve Mod Requests"
display_name server_control = "Control Server"
display_name server_logs = "View Logs"
display_name server_metrics = "View Metrics"
display_name headless_manage = "Manage Headless Clients"
display_name queue_manage = "Manage Queue"
display_name users_manage = "Manage Users"
display_name settings_manage = "Manage Settings"
display_name items_give = "Give Items"
display_name notes_edit = "Edit Shared Notes"
display_name notes_manage = "Manage Notes"

pub category : Permission → String
category mods_install = "Mods"
category mods_update = "Mods"
category mods_remove = "Mods"
category mods_disable = "Mods"
category mods_config_edit = "Mods"
category modsync_manage = "Configuration"
category svm_edit = "Configuration"
category requests_resolve = "Configuration"
category server_control = "Server"
category server_logs = "Server"
category server_metrics = "Server"
category headless_manage = "Server"
category queue_manage = "Operations"
category users_manage = "Administration"
category settings_manage = "Administration"
category items_give = "Administration"
category notes_edit = "Content"
category notes_manage = "Content"

-- The position in the declaration, by which the derived `PartialEq` compares.
abbrev pub index : Permission → ℕ
index mods_install = 0
index mods_update = 1
index mods_remove = 2
index mods_disable = 3
index mods_config_edit = 4
index modsync_manage = 5
index svm_edit = 6
index requests_resolve = 7
index server_control = 8
index server_logs = 9
index server_metrics = 10
index headless_manage = 11
index queue_manage = 12
index users_manage = 13
index settings_manage = 14
index items_give = 15
index notes_edit = 16
index notes_manage = 17

-- The permission at a position, for the proof that `index` is injective.
abbrev at_index : ℕ → Permission
at_index n =
    if nat_beq n 0
    then mods_install
    else if nat_beq n 1
    then mods_update
    else if nat_beq n 2
    then mods_remove
    else if nat_beq n 3
    then mods_disable
    else if nat_beq n 4
    then mods_config_edit
    else if nat_beq n 5
    then modsync_manage
    else if nat_beq n 6
    then svm_edit
    else if nat_beq n 7
    then requests_resolve
    else if nat_beq n 8
    then server_control
    else if nat_beq n 9
    then server_logs
    else if nat_beq n 10
    then server_metrics
    else if nat_beq n 11
    then headless_manage
    else if nat_beq n 12
    then queue_manage
    else if nat_beq n 13
    then users_manage
    else if nat_beq n 14
    then settings_manage
    else if nat_beq n 15
    then items_give
    else if nat_beq n 16
    then notes_edit
    else notes_manage

at_index-index : (p : Permission) → at_index (index p) ≡ p
at_index-index mods_install = refl
at_index-index _ = refl

index_inj : (p q : Permission) → index p ≡ index q → p ≡ q
index_inj p q e = sym (at_index-index p) ∙ ap at_index e ∙ at_index-index q

abbrev pub permission_beq : Permission → Permission → Bool
permission_beq p q = nat_beq (index p) (index q)

pub permission_beq_iff : (p q : Permission) → (permission_beq p q ≡ true) ↔ (p ≡ q)
permission_beq_iff p q =
    (λ h. index_inj p q ((nat_beq_iff _ _).0 h), λ e. (nat_beq_iff _ _).1 (ap index e))

instance abbrev pub permission_eq : PartialEq Permission
permission_eq = record { eq = permission_beq; eq_decides = permission_beq_iff }
