-- ===== src/Backups/Retention.antt =====
-- src/backup.rs: pruning old backups beyond the configured number.
use quma_custom.Prelude.{
  ℕ, zero, suc, String, Bool, true, false, Option, none, some, ltb, ◌==◌, nat_eq, string_eq,
  if◌then◌else◌,
}
use mathlib.Core.Option as Option
use quma_custom.Recovery.State.{InstalledMod}
use quma_custom.Sql.{Result, ok, ◌>>=◌}
use quma_custom.Backups.Table.{
  BackupRecord, insert_backup, Db, delete_backup, count_backups_for_mod, count_full_backups,
  oldest_backup_for_mod, oldest_full_backup,
}

-- The directories under the server's own; `remove_dir_all` gives what it leaves, as its failure is
-- ignored.
module _ {Disk : Type 0} (exists : String → Disk → Bool)
    (remove_dir_all : String → Disk → Disk) where
  unfoldable pub remove_backup_dir : Disk → BackupRecord → Disk
  remove_backup_dir disk oldest =
      if exists oldest.backup_path disk then remove_dir_all oldest.backup_path disk else disk

  -- The `while` loop; `none` where the fuel runs out while there are too many.
  unfoldable pub prune :
      (Db → ℕ) → (Db → Option BackupRecord) → ℕ → ℕ → Disk → Db → Option (Disk × Db)
  prune count_fn oldest_fn max_backups zero disk db = elim (ltb max_backups (count_fn db)) [
    | true ↦ none
    | false ↦ some (disk, db)
  ]
  prune count_fn oldest_fn max_backups (suc fuel) disk db = elim (ltb max_backups (count_fn db)) [
    | true ↦ elim (oldest_fn db) [
      | none ↦ some (disk, db)
      | some oldest ↦
          prune count_fn oldest_fn max_backups fuel (remove_backup_dir disk oldest)
            (delete_backup oldest.id db)
    ]
    | false ↦ some (disk, db)
  ]

  -- Each round deletes one of the rows that `count_fn` counts.
  unfoldable pub enforce_retention :
      (Db → ℕ) → (Db → Option BackupRecord) → ℕ → Disk → Db → Option (Disk × Db)
  enforce_retention count_fn oldest_fn max_backups disk db =
      if max_backups == 0
      then some (disk, db)
      else prune count_fn oldest_fn max_backups (count_fn db) disk db

  unfoldable pub enforce_retention_mod : ℕ → ℕ → Disk → Db → Option (Disk × Db)
  enforce_retention_mod max_backups forge_mod_id =
      enforce_retention (count_backups_for_mod forge_mod_id) (oldest_backup_for_mod forge_mod_id)
        max_backups

  unfoldable pub enforce_retention_full : ℕ → Disk → Db → Option (Disk × Db)
  enforce_retention_full max_backups =
      enforce_retention count_full_backups oldest_full_backup max_backups

  unfoldable pub prune_recorded : Option ℕ → ℕ → Disk → Db → ℕ → Option (Disk × Db × ℕ)
  prune_recorded forge_mod_id max_backups disk recorded backup_db_id = elim forge_mod_id [
    | none ↦ some (disk, recorded, backup_db_id)
    | some forge_mod_id ↦
        Option.map (λ r. (r.0, r.1, backup_db_id))
          (enforce_retention_mod max_backups forge_mod_id disk recorded)
  ]

  -- The end of `backup_mod`: the files are copied, and the backup is recorded.
  unfoldable pub record_mod_backup :
      InstalledMod
      → String
      → String
      → String
      → ℕ
      → (now : String) → ℕ
      → Disk
      → Db
      → Result (Option (Disk × Db × ℕ))
  record_mod_backup mod_info trigger bid backup_path total_size now max_backups disk db =
      insert_backup "mod" trigger bid (some mod_info.id) mod_info.forge_mod_id
        mod_info.forge_version_id (some mod_info.name) mod_info.slug (some mod_info.version)
        backup_path (some total_size) now db
      >>= λ (r : Db × ℕ). ok (prune_recorded mod_info.forge_mod_id max_backups disk r.0 r.1)
