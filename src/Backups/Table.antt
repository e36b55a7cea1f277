-- ===== src/Backups/Table.antt =====
-- src/db/backups.rs: the table of backups and its queries.
use quma_custom.Prelude.{
  ltb, if◌then◌else◌, not, ◌||◌, ℕ, ◌+◌, String, Bool, false, ◌&&◌, Option, none, some, List, [],
  ◌∷◌, ◌++◌, ◌==◌, nat_eq, string_eq, filter,
}
use quma_custom.Sql.{
  Result, ok, err, constraint_violation, count_where, delete_where, find_where, update_where,
}
use quma_custom.Sql.OrderBy.{order_by, first, IsOrder}
use quma_custom.Prelude.Texts.{pair_le, pair_le_total, pair_le_trans}

pub record BackupRecord : Type 0 where
  pub id : ℕ
  pub backup_type : String
  pub trigger : String
  pub backup_id : String
  pub mod_db_id : Option ℕ
  pub forge_mod_id : Option ℕ
  pub forge_version_id : Option ℕ
  pub mod_name : Option String
  pub mod_slug : Option String
  pub mod_version : Option String
  pub backup_path : String
  pub backup_size : Option ℕ
  pub created_at : String
  pub restored_at : Option String

pub record Db : Type 0 where
  pub backups : List BackupRecord

-- The key of a new row, `INTEGER PRIMARY KEY`: one more than the greatest that there is.
unfoldable pub next_id : List BackupRecord → ℕ
next_id [] = 1
next_id (b ∷ rows) = let rest = next_id rows in if ltb b.id rest then rest else b.id + 1

-- The two CHECK constraints.
unfoldable pub is_backup_type : String → Bool
is_backup_type backup_type = backup_type == "mod" || backup_type == "full"

unfoldable pub is_trigger : String → Bool
is_trigger trigger =
    trigger == "auto_update"
    || trigger == "auto_remove"
    || trigger == "auto_disable"
    || trigger == "auto_enable"
    || trigger == "manual"

-- ORDER BY created_at ASC, id ASC
unfoldable pub older : BackupRecord → BackupRecord → Bool
older a b = pair_le a.created_at a.id b.created_at b.id

-- ORDER BY created_at DESC, id DESC
abbrev pub newer : BackupRecord → BackupRecord → Bool
newer a b = older b a

abbrev is_for : ℕ → BackupRecord → Bool
is_for forge_mod_id b = elim b.forge_mod_id [ none ↦ false | some id ↦ id == forge_mod_id ]

-- WHERE backup_type = 'mod' AND forge_mod_id = ?1
abbrev pub is_mod_backup : ℕ → BackupRecord → Bool
is_mod_backup forge_mod_id b = b.backup_type == "mod" && is_for forge_mod_id b

-- WHERE backup_type = 'full'
abbrev pub is_full_backup : BackupRecord → Bool
is_full_backup b = b.backup_type == "full"

-- `created_at` defaults to the time of the statement.
unfoldable pub insert_backup :
    (backup_type trigger backup_id : String) (mod_db_id forge_mod_id forge_version_id : Option ℕ)
    (mod_name mod_slug mod_version : Option String)
    → String
    → Option ℕ
    → (now : String) → Db
    → Result (Db × ℕ)
insert_backup backup_type trigger backup_id mod_db_id forge_mod_id forge_version_id mod_name
      mod_slug mod_version backup_path backup_size now db =
    if not (is_backup_type backup_type && is_trigger trigger)
    then err constraint_violation
    else ok (
      record {
        backups =
            db.backups
            ++ record {
              id = next_id db.backups;
              backup_type = backup_type;
              trigger = trigger;
              backup_id = backup_id;
              mod_db_id = mod_db_id;
              forge_mod_id = forge_mod_id;
              forge_version_id = forge_version_id;
              mod_name = mod_name;
              mod_slug = mod_slug;
              mod_version = mod_version;
              backup_path = backup_path;
              backup_size = backup_size;
              created_at = now;
              restored_at = none;
            }
              ∷ [];
      },
      next_id db.backups,
    )

unfoldable pub get_backup : ℕ → Db → Option BackupRecord
get_backup id db = find_where (λ b. b.id == id) db.backups

unfoldable pub list_backups_for_mod : ℕ → Db → List BackupRecord
list_backups_for_mod forge_mod_id db = order_by newer (filter (is_for forge_mod_id) db.backups)

unfoldable pub list_all_backups : Db → List BackupRecord
list_all_backups db = order_by newer db.backups

unfoldable pub get_latest_backup_for_mod : ℕ → Db → Option BackupRecord
get_latest_backup_for_mod forge_mod_id db =
    first (order_by newer (filter (is_for forge_mod_id) db.backups))

unfoldable pub set_backup_restored : ℕ → String → Db → Db
set_backup_restored id now db = record db {
  backups = update_where (λ b. b.id == id) (λ b. record b { restored_at = some now }) db.backups;
}

unfoldable pub delete_backup : ℕ → Db → Db
delete_backup id db = record db { backups = delete_where (λ b. b.id == id) db.backups }

unfoldable pub count_backups_for_mod : ℕ → Db → ℕ
count_backups_for_mod forge_mod_id db = count_where (is_mod_backup forge_mod_id) db.backups

unfoldable pub count_full_backups : Db → ℕ
count_full_backups db = count_where is_full_backup db.backups

unfoldable pub oldest_backup_for_mod : ℕ → Db → Option BackupRecord
oldest_backup_for_mod forge_mod_id db =
    first (order_by older (filter (is_mod_backup forge_mod_id) db.backups))

unfoldable pub oldest_full_backup : Db → Option BackupRecord
oldest_full_backup db = first (order_by older (filter is_full_backup db.backups))

pub older-IsOrder : IsOrder older
unfolding older
older-IsOrder = record {
  total = λ a b h. pair_le_total a.created_at a.id b.created_at b.id h;
  trans = λ a b c h k. pair_le_trans a.created_at a.id b.created_at b.id c.created_at c.id h k;
}
