-- ===== src/Toggle/Moves.antt =====
-- src/ops.rs: what is moved when a mod or an addon is disabled or enabled, and the whole operations.
use text.Mathlib.Text.{starts_with}
use quma_custom.Prelude.{
  ℕ, String, Bool, true, false, not, ◌&&◌, ◌||◌, Option, none, some, List, [], ◌∷◌, ◌++◌, map, ◌==◌,
  nat_eq, string_eq, if◌then◌else◌, is_some, any, filter,
}
use quma_custom.Recovery.State.{InstalledAddon, InstalledFile, is_file_of}
use quma_custom.Backups.Table.{BackupRecord}
use quma_custom.Toggle.Paths.{find_top_level_mod_dirs, find_loose_files}
use quma_custom.Toggle.Tables.{
  Db, get_mod, get_addon, get_files_for_mod, get_files_for_addon, list_addons_for_mod,
  get_all_enabled_mod_files, set_mod_disabled, set_addon_disabled,
}
use quma_custom.Toggle.Disk.{
  Place, FileSystem, home, stash, rename_batch, undo_renames, remove_stale, create_parents,
  cleanup_empty_stash_dirs,
}

-- The files of the mod itself, and of its disabled addons.
abbrev pub is_own : ℕ → List InstalledAddon → InstalledFile → Bool
is_own mod_db_id own_addons f =
    is_file_of mod_db_id f && not (is_some f.addon_id)
    || elim f.addon_id [ none ↦ false | some aid ↦ any (λ a. a.id == aid && a.disabled) own_addons ]

abbrev pub is_overlapped : ℕ → Db → String → Bool
is_overlapped mod_db_id db dir =
    any (λ f. starts_with f.file_path dir)
      (filter (λ f. not (is_own mod_db_id (list_addons_for_mod mod_db_id db) f))
        (get_all_enabled_mod_files db))

unfoldable pub filter_shared_dirs : ℕ → List String → Db → List String × List String
filter_shared_dirs mod_db_id top_dirs db = (
  filter (λ dir. not (is_overlapped mod_db_id db dir)) top_dirs,
  filter (λ dir. is_overlapped mod_db_id db dir) top_dirs,
)

abbrev pub to_stash : String → Place × Place
to_stash path = (home path, stash path)

abbrev pub to_home : String → Place × Place
to_home path = (stash path, home path)

abbrev pub paths_of : List InstalledFile → List String
paths_of files = map InstalledFile.file_path files

-- What `disable_mod` moves.
unfoldable pub disable_renames : ℕ → Db → List (Place × Place)
disable_renames mod_db_id db =
    let file_paths = paths_of (get_files_for_mod mod_db_id db) in
    let top_dirs = find_top_level_mod_dirs file_paths in
    let loose = find_loose_files file_paths top_dirs in
    let (exclusive_dirs, shared_dirs) = filter_shared_dirs mod_db_id top_dirs db in
    let shared_files = filter (λ p. any (λ d. starts_with p d) shared_dirs) file_paths in
    map to_stash exclusive_dirs ++ map to_stash loose ++ map to_stash shared_files

pub data OpsError : Type 0 where
  not_found already_disabled not_disabled backup_failed : OpsError
  stash_not_cleared parent_not_created rename_failed commit_failed : OpsError

pub record Outcome (Fs : Type 0) : Type 0 where
  pub fs : Fs
  pub db : Db
  pub error : Option OpsError

-- The configuration of backups; what `backup_mod` does to the disk and to the table `backups`, where it
-- records and prunes, and whether it succeeds; whether
-- the transaction commits; and, where mod sync is configured, what `ensure_mod_layout` does.
pub record Env (Fs : Type 0) : Type 0 where
  pub fs : FileSystem Fs
  pub auto_backup : Bool
  pub require_backup : Bool
  pub backup_mod : ℕ → String → Fs → List BackupRecord → Fs × List BackupRecord × Bool
  pub commits : Bool
  pub ensure_mod_layout : Option (ℕ → Fs → Db → Fs × Db)

module _ {Fs : Type 0} (env : Env Fs) where
  abbrev pub bail : OpsError → Fs → Db → Outcome Fs
  bail e d db = record { fs = d; db = db; error = some e }

  -- A backup that fails stops the operation only where backups are required.
  unfoldable pub auto_backup_mod :
      ℕ → String → Fs → List BackupRecord → Fs × List BackupRecord × Bool
  auto_backup_mod mod_db_id trigger d backups =
      if not env.auto_backup
      then (d, backups, true)
      else let (d', backups', ok) = env.backup_mod mod_db_id trigger d backups in
        (d', backups', ok || not env.require_backup)

  -- The backup, with `?`; what it writes stays, whatever becomes of the operation.
  unfoldable pub backed_up : ℕ → String → Fs → Db → (Fs → Db → Outcome Fs) → Outcome Fs
  backed_up mod_db_id trigger d db k =
      let (d', backups, ok) = auto_backup_mod mod_db_id trigger d db.backups in
      let db' : Db = record db { backups = backups } in
      if ok then k d' db' else bail backup_failed d' db'

  -- `?` after a step on the disk
  unfoldable pub then_or : Fs × Bool → OpsError → Db → (Fs → Outcome Fs) → Outcome Fs
  then_or (d, false) e db k = bail e d db
  then_or (d, true) e db k = k d

  unfoldable pub commit : List (Place × Place) → Fs → Db → Db → Outcome Fs
  commit completed d db db' =
      if env.commits
      then record { fs = d; db = db'; error = none }
      else bail commit_failed (undo_renames env.fs completed d) db

  -- The transaction: it is dropped, so rolled back, unless it is committed.
  unfoldable pub move_in_transaction : List (Place × Place) → (Db → Db) → Fs → Db → Outcome Fs
  move_in_transaction renames write d db =
      let (d', completed) = rename_batch env.fs renames d in
      elim completed [ none ↦ bail rename_failed d' db | some done ↦ commit done d' db (write db) ]

  -- The same in `disable_mod` and `disable_addon`.
  unfoldable pub move_to_stash : List (Place × Place) → (Db → Db) → Fs → Db → Outcome Fs
  move_to_stash renames write d db =
      then_or (remove_stale env.fs renames d) stash_not_cleared db (λ d.
        then_or (create_parents env.fs renames d) parent_not_created db
          (λ d. move_in_transaction renames write d db))

  -- The same in `enable_mod` and `enable_addon`.
  unfoldable pub move_home : List (Place × Place) → (Db → Db) → Fs → Db → Outcome Fs
  move_home renames write d db =
      then_or (create_parents env.fs renames d) parent_not_created db
        (λ d. move_in_transaction renames write d db)

  unfoldable pub tidy : List String → Outcome Fs → Outcome Fs
  tidy paths o = record o {
    fs = elim o.error [ none ↦ cleanup_empty_stash_dirs env.fs paths o.fs | some e ↦ o.fs ];
  }

  unfoldable pub disable_mod : ℕ → Fs → Db → Outcome Fs
  disable_mod mod_db_id d db = elim (get_mod mod_db_id db) [
    | none ↦ bail not_found d db
    | some mod_info ↦
        if mod_info.disabled
        then bail already_disabled d db
        else backed_up mod_db_id "auto_disable" d db (λ d db.
          move_to_stash (disable_renames mod_db_id db) (set_mod_disabled mod_db_id true) d db)
  ]

  -- The files below `dir` that are in the stash one by one.
  abbrev pub single_renames : List String → String → Fs → List (Place × Place)
  single_renames file_paths dir d =
      map to_home (filter (λ p. starts_with p dir && env.fs.exists (stash p) d) file_paths)

  unfoldable pub dir_renames : List String → List String → Fs → List (Place × Place)
  dir_renames file_paths [] d = []
  dir_renames file_paths (dir ∷ dirs) d =
      (if env.fs.is_dir (stash dir) d then to_home dir ∷ [] else single_renames file_paths dir d)
      ++ dir_renames file_paths dirs d

  -- What `enable_mod` moves.
  unfoldable pub enable_renames : ℕ → Fs → Db → List (Place × Place)
  enable_renames mod_db_id d db =
      let file_paths = paths_of (get_files_for_mod mod_db_id db) in
      let top_dirs = find_top_level_mod_dirs file_paths in
      dir_renames file_paths top_dirs d ++ map to_home (find_loose_files file_paths top_dirs)

  -- `enable_mod` up to the layout of mod sync
  unfoldable pub enable_files : ℕ → Fs → Db → Outcome Fs
  enable_files mod_db_id d db = elim (get_mod mod_db_id db) [
    | none ↦ bail not_found d db
    | some mod_info ↦
        if not mod_info.disabled
        then bail not_disabled d db
        else backed_up mod_db_id "auto_enable" d db (λ d db.
          let file_paths = paths_of (get_files_for_mod mod_db_id db) in
          let top_dirs = find_top_level_mod_dirs file_paths in
          tidy (top_dirs ++ find_loose_files file_paths top_dirs)
            (move_home (enable_renames mod_db_id d db) (set_mod_disabled mod_db_id false) d db))
  ]

  unfoldable pub layout : ℕ → Fs → Db → Fs × Db
  layout mod_db_id d db = elim env.ensure_mod_layout [
    | none ↦ (d, db)
    | some ensure ↦ ensure mod_db_id d db
  ]

  unfoldable pub lay_out : ℕ → Outcome Fs → Outcome Fs
  lay_out mod_db_id o = elim o.error [
    | none ↦ let (d, db) = layout mod_db_id o.fs o.db in record { fs = d; db = db; error = none }
    | some e ↦ o
  ]

  unfoldable pub enable_mod : ℕ → Fs → Db → Outcome Fs
  enable_mod mod_db_id d db = lay_out mod_db_id (enable_files mod_db_id d db)

  unfoldable pub disable_addon : ℕ → Fs → Db → Outcome Fs
  disable_addon addon_db_id d db = elim (get_addon addon_db_id db) [
    | none ↦ bail not_found d db
    | some addon_info ↦
        if addon_info.disabled
        then bail already_disabled d db
        else backed_up addon_info.parent_mod_id "auto_disable_addon" d db (λ d db.
          move_to_stash (map to_stash (paths_of (get_files_for_addon addon_db_id db)))
            (set_addon_disabled addon_db_id true) d db)
  ]

  unfoldable pub enable_addon : ℕ → Fs → Db → Outcome Fs
  enable_addon addon_db_id d db = elim (get_addon addon_db_id db) [
    | none ↦ bail not_found d db
    | some addon_info ↦
        if not addon_info.disabled
        then bail not_disabled d db
        else backed_up addon_info.parent_mod_id "auto_enable_addon" d db (λ d db.
          let file_paths = paths_of (get_files_for_addon addon_db_id db) in
          tidy file_paths
            (move_home (map to_home file_paths) (set_addon_disabled addon_db_id false) d db))
  ]
