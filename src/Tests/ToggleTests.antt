-- ===== src/Tests/ToggleTests.antt =====
-- src/ops.rs: mods that are disabled and enabled on a small disk.
use mathlib.Core.List.Memᴰ as M
use text.Mathlib.Text.{starts_with}
use Prim.Native.String.{◌++◌ as concat}
use quma_custom.Prelude.{
  ◌↔◌, some_injective, ℕ, String, ◌≡◌, refl, subst, Bool, true, false, not, Option, none, some,
  List, [], ◌∷◌, map, Memᴰ, arith, ◌==◌, nat_eq, string_eq, if◌then◌else◌, any, filter,
}
use quma_custom.Sql.Distinct.{Distinct}
use quma_custom.Recovery.State.{InstalledMod, InstalledFile}
use quma_custom.Toggle.Paths.{find_top_level_mod_dirs, find_loose_files}
use quma_custom.Toggle.TopLevel.{find_top_level_mod_dirs_iff}
use quma_custom.Toggle.Classify.{IsDirOf}
use quma_custom.Toggle.Tables.{
  but_backups, Db, get_files_for_mod, set_mod_disabled, set_addon_disabled,
}
use quma_custom.Toggle.Disk.{
  Place, FileSystem, home, stash, rename_batch, IsReversible, rename_batch-undoes,
}
use quma_custom.Toggle.Moves.{
  Env, is_overlapped, to_stash, to_home, disable_renames, enable_renames, disable_mod, enable_mod,
  disable_addon, enable_addon,
}
use quma_custom.Toggle.RoundTrip.{enable_mod-disable_mod}
use quma_custom.Toggle.Plan.{dirs, paths, dirs, paths}

-- The files that are there, and paths of the stash above which the directories were made.
record Disk : Type 0 where
  files : List Place
  made : List String

abbrev same_place : Place → Place → Bool
same_place (home p) (home q) = p == q
same_place (stash p) (stash q) = p == q
same_place _ _ = false

abbrev has : Place → Disk → Bool
has p d = any (λ q. same_place q p) d.files

abbrev below : String → String → Bool
below dir path = starts_with path (concat dir "/")

abbrev has_dir : Place → Disk → Bool
has_dir (home p) d = false
has_dir (stash p) d = any (λ path. below p path) d.made

-- Nothing is moved where something is.
abbrev move : Place → Place → Disk → Option Disk
move p q d =
    if has q d
    then none
    else some (record d { files = map (λ x. if same_place x p then q else x) d.files })

abbrev make_parents : Place → Disk → Disk
make_parents (home p) d = d
make_parents (stash p) d = record d { made = p ∷ d.made }

abbrev remove : Place → Disk → Disk
remove p d = record d { files = filter (λ q. not (same_place q p)) d.files }

abbrev disk : FileSystem Disk
disk = record {
  exists = has;
  is_dir = has_dir;
  rename = move;
  remove_dir_all = λ p d. (remove p d, true);
  remove_file = λ p d. (remove p d, true);
  create_dir_all_of_parent = λ p d. (make_parents p d, true);
  is_empty_dir = λ p d. false;
  remove_dir = λ p d. d;
}

abbrev env : Env Disk
env = record {
  fs = disk;
  auto_backup = true;
  require_backup = false;
  backup_mod = λ id trigger d b. (d, b, false);
  commits = true;
  ensure_mod_layout = none;
}

abbrev a_mod : ℕ → InstalledMod
a_mod id = record {
  id = id;
  forge_mod_id = none;
  forge_version_id = none;
  name = "A";
  slug = none;
  version = "1.0.0";
  installed_at = "2026-01-01";
  updated_at = none;
  disabled = false;
  source = "forge";
  source_url = none;
}

abbrev a_file : ℕ → String → InstalledFile
a_file id path = record {
  mod_id = some id;
  addon_id = none;
  file_path = path;
  file_hash = none;
  file_size = none;
}

-- Two mods with files in one directory.
abbrev tables : Db
tables = record {
  mods = a_mod 1 ∷ a_mod 2 ∷ [];
  addons = [];
  files = a_file 1 "BepInEx/plugins/Shared/a.dll" ∷ a_file 2 "BepInEx/plugins/Shared/b.dll" ∷ [];
  backups = [];
}

abbrev start : Disk
start = record {
  files = home "BepInEx/plugins/Shared/a.dll" ∷ home "BepInEx/plugins/Shared/b.dll" ∷ [];
  made = [];
}

-- The second rename fails, and the first is undone.
abbrev clashing : List (Place × Place)
clashing =
    to_stash "BepInEx/plugins/Shared/a.dll"
    ∷ (home "BepInEx/plugins/Shared/b.dll", stash "BepInEx/plugins/Shared/a.dll")
    ∷ []

abbrev moved : Disk
moved = record {
  files = stash "BepInEx/plugins/Shared/a.dll" ∷ home "BepInEx/plugins/Shared/b.dll" ∷ [];
  made = [];
}

clashing-IsReversible : IsReversible disk clashing start
clashing-IsReversible = (
  λ d' e.
      subst
        (λ z.
          move (stash "BepInEx/plugins/Shared/a.dll") (home "BepInEx/plugins/Shared/a.dll") z
          ≡ some start)
        (some_injective e) refl,
  λ d' e.
      subst
        (IsReversible disk
          ((home "BepInEx/plugins/Shared/b.dll", stash "BepInEx/plugins/Shared/a.dll") ∷ []))
        (some_injective e) (λ d'' f. absurd (cc), λ d'' f. tt, λ f. tt),
  λ e. absurd (cc),
)

rename_batch-undoes_example : start ≡ start
unfolding rename_batch quma_custom.Toggle.Disk.rename_rest quma_custom.Toggle.Disk.undo_renames
rename_batch-undoes_example =
    rename_batch-undoes disk clashing start start clashing-IsReversible refl

-- A mod that shares no directory.
abbrev alone : Db
alone = record tables { files = a_file 1 "SPT/user/mods/A/package.json" ∷ [] }

abbrev alone_disk : Disk
alone_disk = record { files = home "SPT/user/mods/A" ∷ []; made = [] }

mods-Distinct : Distinct InstalledMod.id alone.mods
mods-Distinct = (
  λ y m e.
      let same : 2 ≡ 1 = subst (λ z. InstalledMod.id z ≡ 1) (M.eq_of_singleton m) e in
      absurd (omega arith),
  (λ y m. elim m [ ], tt),
)

alone_disabled : (disable_mod env 1 alone_disk alone).error ≡ none
unfolding disable_mod quma_custom.Toggle.Moves.auto_backup_mod quma_custom.Toggle.Moves.backed_up
    quma_custom.Toggle.Tables.get_mod quma_custom.Sql.find_where quma_custom.Sql.update_where
    set_mod_disabled quma_custom.Toggle.Tables.get_all_enabled_mod_files
    quma_custom.Toggle.Tables.list_addons_for_mod quma_custom.Toggle.Moves.then_or
    quma_custom.Toggle.Moves.move_to_stash quma_custom.Toggle.Moves.move_in_transaction
    quma_custom.Toggle.Moves.commit quma_custom.Toggle.Moves.filter_shared_dirs
    quma_custom.Toggle.Disk.remove_stale quma_custom.Toggle.Disk.create_parents
    quma_custom.Toggle.Disk.rename_rest disable_renames rename_batch
    quma_custom.Toggle.Paths.find_loose_files find_top_level_mod_dirs
    quma_custom.Toggle.Paths.collect_dirs quma_custom.Toggle.Paths.top_level_dir
    quma_custom.Toggle.Paths.split quma_custom.Toggle.Paths.set_insert quma_custom.Toggle.Paths.join
    quma_custom.Toggle.Paths.join_rest get_files_for_mod
alone_disabled = refl

alone_enabled : (enable_mod env 1 alone_disk (disable_mod env 1 alone_disk alone).db).error ≡ none
unfolding disable_mod quma_custom.Toggle.Moves.auto_backup_mod quma_custom.Toggle.Moves.backed_up
    quma_custom.Toggle.Tables.get_mod quma_custom.Sql.find_where quma_custom.Sql.update_where
    set_mod_disabled quma_custom.Toggle.Tables.get_all_enabled_mod_files
    quma_custom.Toggle.Tables.list_addons_for_mod quma_custom.Toggle.Moves.then_or
    quma_custom.Toggle.Moves.move_to_stash quma_custom.Toggle.Moves.move_in_transaction
    quma_custom.Toggle.Moves.commit quma_custom.Toggle.Moves.filter_shared_dirs
    quma_custom.Toggle.Disk.remove_stale quma_custom.Toggle.Disk.create_parents
    quma_custom.Toggle.Disk.rename_rest disable_renames rename_batch
    quma_custom.Toggle.Paths.find_loose_files enable_mod quma_custom.Toggle.Moves.move_home
    quma_custom.Toggle.Moves.tidy quma_custom.Toggle.Moves.enable_files
    quma_custom.Toggle.Moves.lay_out quma_custom.Toggle.Moves.layout
    quma_custom.Toggle.Moves.dir_renames enable_renames find_top_level_mod_dirs
    quma_custom.Toggle.Paths.collect_dirs quma_custom.Toggle.Paths.top_level_dir
    quma_custom.Toggle.Paths.split quma_custom.Toggle.Paths.set_insert quma_custom.Toggle.Paths.join
    quma_custom.Toggle.Paths.join_rest get_files_for_mod
alone_enabled = refl

enable_mod-disable_mod_example :
    but_backups (enable_mod env 1 alone_disk (disable_mod env 1 alone_disk alone).db).db
    ≡ but_backups alone
enable_mod-disable_mod_example =
    enable_mod-disable_mod env 1 alone_disk alone_disk alone mods-Distinct refl alone_disabled
      alone_enabled

abbrev two_files : List String
two_files = "BepInEx/plugins/Shared/a.dll" ∷ "BepInEx/plugins/b.dll" ∷ []

find_top_level_mod_dirs_iff_example :
    (Memᴰ "BepInEx/plugins/Shared" (find_top_level_mod_dirs two_files)
      ↔ ((path : String) × Memᴰ path two_files × IsDirOf path "BepInEx/plugins/Shared"))
    × ((path : String)
        → ¬ (
            Memᴰ path (find_loose_files two_files (find_top_level_mod_dirs two_files))
            × IsDirOf path "BepInEx/plugins/Shared"))
find_top_level_mod_dirs_iff_example = find_top_level_mod_dirs_iff two_files "BepInEx/plugins/Shared"

two_files-dirs : find_top_level_mod_dirs two_files ≡ "BepInEx/plugins/Shared" ∷ []
unfolding find_top_level_mod_dirs quma_custom.Toggle.Paths.collect_dirs
    quma_custom.Toggle.Paths.top_level_dir quma_custom.Toggle.Paths.split
    quma_custom.Toggle.Paths.set_insert quma_custom.Toggle.Paths.join
    quma_custom.Toggle.Paths.join_rest
two_files-dirs = refl
