-- ===== src/Tests/BackupTests.antt =====
-- src/backup.rs on a table with three backups of one mod.
use quma_custom.Prelude.{
  ℕ, ◌≤◌, ◌<◌, String, ◌≡◌, refl, ◌⊎◌, Bool, true, false, not, none, some, List, [], ◌∷◌, ◌++◌,
  Memᴰ, arith, ◌==◌, nat_eq, string_eq, if◌then◌else◌, any, filter,
}
use quma_custom.Accounts.Tables.{text_lt}
use quma_custom.Recovery.State.{InstalledMod}
use quma_custom.Sql.Keys.{IsKeyed, insert-IsKeyed}
use quma_custom.Sql.Distinct.{Distinct, insert-Distinct}
use quma_custom.Sql.{ok}
use quma_custom.Backups.Table.{
  next_id, is_trigger, BackupRecord, Db, is_mod_backup, is_full_backup, count_backups_for_mod,
}
use quma_custom.Backups.Retention.{
  remove_backup_dir, enforce_retention_mod, enforce_retention_full, record_mod_backup,
}
use quma_custom.Backups.Names.{candidate, unique_backup_id, unique_backup_id-free}
use quma_custom.Backups.Newest.{by_age, enforce_retention_mod_newest, enforce_retention_full_newest}
use quma_custom.Backups.Recorded.{mod_backup_row, record_mod_backup_stays}

-- A backup of the mod that the Forge calls 7.
abbrev of_mod : ℕ → String → BackupRecord
of_mod id now = record {
  id = id;
  backup_type = "mod";
  trigger = "auto_update";
  backup_id = now;
  mod_db_id = some 1;
  forge_mod_id = some 7;
  forge_version_id = none;
  mod_name = none;
  mod_slug = none;
  mod_version = none;
  backup_path = now;
  backup_size = none;
  created_at = now;
  restored_at = none;
}

abbrev full : ℕ → String → BackupRecord
full id now = record (of_mod id now) { backup_type = "full"; forge_mod_id = none }

abbrev rows1 : List BackupRecord
rows1 = of_mod 1 "2026-01-03" ∷ []

abbrev rows2 : List BackupRecord
rows2 = rows1 ++ of_mod 2 "2026-01-01" ∷ []

abbrev rows3 : List BackupRecord
rows3 = rows2 ++ full 3 "2026-01-02" ∷ []

abbrev backups : Db
backups = record { backups = rows3 }

empty-IsKeyed : IsKeyed BackupRecord.id 1 []
empty-IsKeyed = record { unique = λ x y mx my e. elim mx [ ]; below = λ x m. elim m [ ] }

rows1-IsKeyed : IsKeyed BackupRecord.id 2 rows1
rows1-IsKeyed = insert-IsKeyed BackupRecord.id (of_mod 1 "2026-01-03") refl empty-IsKeyed

rows2-IsKeyed : IsKeyed BackupRecord.id 3 rows2
rows2-IsKeyed = insert-IsKeyed BackupRecord.id (of_mod 2 "2026-01-01") refl rows1-IsKeyed

rows3-IsKeyed : IsKeyed BackupRecord.id 4 rows3
rows3-IsKeyed = insert-IsKeyed BackupRecord.id (full 3 "2026-01-02") refl rows2-IsKeyed

rows1-Distinct : Distinct BackupRecord.id rows1
rows1-Distinct = insert-Distinct BackupRecord.id [] (of_mod 1 "2026-01-03") refl empty-IsKeyed tt

rows2-Distinct : Distinct BackupRecord.id rows2
rows2-Distinct =
    insert-Distinct BackupRecord.id rows1 (of_mod 2 "2026-01-01") refl rows1-IsKeyed rows1-Distinct

rows3-Distinct : Distinct BackupRecord.id rows3
rows3-Distinct =
    insert-Distinct BackupRecord.id rows2 (full 3 "2026-01-02") refl rows2-IsKeyed rows2-Distinct

-- The disk is the list of the directories that are there.
abbrev has_dir : String → List String → Bool
has_dir dir dirs = any (λ d. d == dir) dirs

abbrev without_dir : String → List String → List String
without_dir dir dirs = filter (λ d. not (d == dir)) dirs

abbrev dirs : List String
dirs = "2026-01-01" ∷ "2026-01-02" ∷ "2026-01-03" ∷ []

abbrev one : ℕ
one = 1

abbrev seven : ℕ
seven = 7

enforce_retention_mod_newest_example :
    (db' : Db) × (enforce_retention_mod has_dir without_dir 1 7 dirs backups
      ≡ some ("2026-01-02" ∷ "2026-01-03" ∷ [], db'))
    × (by_age (is_mod_backup 7) db' ≡ of_mod 1 "2026-01-03" ∷ [])
    × (filter (λ b. not (is_mod_backup 7 b)) db'.backups ≡ full 3 "2026-01-02" ∷ [])
unfolding quma_custom.Backups.Table.older remove_backup_dir
enforce_retention_mod_newest_example =
    enforce_retention_mod_newest has_dir without_dir 1 7 dirs backups (ground arith) rows3-Distinct

enforce_retention_full_newest_example :
    (db' : Db) × (enforce_retention_full has_dir without_dir 1 dirs backups ≡ some (dirs, db'))
    × (by_age is_full_backup db' ≡ full 3 "2026-01-02" ∷ [])
    × (filter (λ b. not (is_full_backup b)) db'.backups ≡ rows2)
unfolding quma_custom.Backups.Table.older remove_backup_dir
enforce_retention_full_newest_example =
    enforce_retention_full_newest has_dir without_dir 1 dirs backups (ground arith) rows3-Distinct

abbrev updated : InstalledMod
updated = record {
  id = 1;
  forge_mod_id = some 7;
  forge_version_id = none;
  name = "SAIN";
  slug = none;
  version = "1.0.0";
  installed_at = "2026-01-01";
  updated_at = none;
  disabled = false;
  source = "forge";
  source_url = none;
}

not_later : (b : BackupRecord) → Memᴰ b rows3 → text_lt "2026-01-04" b.created_at ≡ false
not_later b (Memᴰ.head e) = rw e
not_later b (Memᴰ.tail (Memᴰ.head e)) = rw e
not_later b (Memᴰ.tail (Memᴰ.tail (Memᴰ.head e))) = rw e
not_later b (Memᴰ.tail (Memᴰ.tail (Memᴰ.tail m))) = elim m [ ]

record_mod_backup_stays_example :
    (r : List String × Db) × (record_mod_backup has_dir without_dir updated "manual" "b4"
        "backups/b4" 10 "2026-01-04" 2 dirs backups
      ≡ ok (some (r.0, r.1, 4)))
    × Memᴰ (mod_backup_row updated "manual" "b4" "backups/b4" 10 "2026-01-04" 4) r.1.backups
    × (count_backups_for_mod 7 r.1 ≤ 2)
unfolding next_id
record_mod_backup_stays_example =
    record_mod_backup_stays has_dir without_dir updated "manual" "b4" "backups/b4" 10 "2026-01-04" 2
      7 dirs backups (unfold is_trigger in refl) refl (ground arith) rows3-IsKeyed rows3-Distinct
      not_later

abbrev show_one : ℕ → String
show_one n = if n == one then "1" else "2"

-- The time's own name is taken, so the first suffix is used.
taken_name : unique_backup_id (λ name. has_dir name dirs) show_one "2026-01-01" 9 ≡ "2026-01-01_1"
unfolding unique_backup_id quma_custom.Backups.Names.free_suffix
taken_name = refl

unique_backup_id-free_example :
    (has_dir (unique_backup_id (λ name. has_dir name dirs) show_one "2026-01-01" 9) dirs ≡ false)
    ⊎ ((has_dir "2026-01-01" dirs ≡ true)
        × ((s : ℕ) → 1 ≤ s → s < 100 → has_dir (candidate show_one "2026-01-01" s) dirs ≡ true))
unique_backup_id-free_example =
    unique_backup_id-free (λ name. has_dir name dirs) show_one "2026-01-01" 9
