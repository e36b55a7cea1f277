-- ===== src/Toggle/Tables.antt =====
-- src/db/mods.rs and src/db/addons.rs: what disabling and enabling read and write.
use quma_custom.Prelude.{
  [], ℕ, Bool, not, ◌&&◌, Option, List, ◌++◌, ◌==◌, nat_eq, string_eq, any, filter,
}
use quma_custom.Prelude.Texts.{text_le}
use quma_custom.Sql.{find_where, update_where}
use quma_custom.Sql.OrderBy.{order_by}
use quma_custom.Recovery.State.{
  InstalledMod, InstalledAddon, InstalledFile, is_file_of, is_file_of_addon,
}
use quma_custom.Backups.Table.{BackupRecord}

pub record Db : Type 0 where
  pub mods : List InstalledMod
  pub addons : List InstalledAddon
  pub files : List InstalledFile
  pub backups : List BackupRecord

-- The tables but for `backups`, which each operation writes before its transaction.
abbrev pub but_backups : Db → Db
but_backups db = record db { backups = [] }

unfoldable pub get_mod : ℕ → Db → Option InstalledMod
get_mod id db = find_where (λ m. m.id == id) db.mods

unfoldable pub get_addon : ℕ → Db → Option InstalledAddon
get_addon id db = find_where (λ a. a.id == id) db.addons

abbrev pub by_path : InstalledFile → InstalledFile → Bool
by_path f g = text_le f.file_path g.file_path

unfoldable pub get_files_for_mod : ℕ → Db → List InstalledFile
get_files_for_mod mod_id db = order_by by_path (filter (is_file_of mod_id) db.files)

unfoldable pub get_files_for_addon : ℕ → Db → List InstalledFile
get_files_for_addon addon_id db = order_by by_path (filter (is_file_of_addon addon_id) db.files)

unfoldable pub list_addons_for_mod : ℕ → Db → List InstalledAddon
list_addons_for_mod parent_mod_id db =
    order_by (λ a b. text_le a.name b.name)
      (filter (λ a. a.parent_mod_id == parent_mod_id) db.addons)

-- The two joins; a join on a primary key gives a row once.
abbrev pub is_enabled_mod : Db → ℕ → Bool
is_enabled_mod db id = any (λ m. m.id == id && not m.disabled) db.mods

abbrev pub is_in_enabled_mod : Db → InstalledFile → Bool
is_in_enabled_mod db f = any (λ m. is_file_of m.id f && not m.disabled) db.mods

abbrev pub is_in_enabled_addon : Db → InstalledFile → Bool
is_in_enabled_addon db f =
    any (λ a. is_file_of_addon a.id f && not a.disabled && is_enabled_mod db a.parent_mod_id)
      db.addons

unfoldable pub get_all_enabled_mod_files : Db → List InstalledFile
get_all_enabled_mod_files db =
    order_by by_path
      (filter (is_in_enabled_mod db) db.files ++ filter (is_in_enabled_addon db) db.files)

unfoldable pub set_mod_disabled : ℕ → Bool → Db → Db
set_mod_disabled id disabled db = record db {
  mods = update_where (λ m. m.id == id) (λ m. record m { disabled = disabled }) db.mods;
}

unfoldable pub set_addon_disabled : ℕ → Bool → Db → Db
set_addon_disabled id disabled db = record db {
  addons = update_where (λ a. a.id == id) (λ a. record a { disabled = disabled }) db.addons;
}
