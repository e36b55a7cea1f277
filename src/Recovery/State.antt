-- ===== src/Recovery/State.antt =====
-- src/db/mods.rs and src/db/addons.rs: the tables that an update changes; and the files on disk.
use quma_custom.Prelude.{
  ℕ, String, Bool, false, Option, none, some, List, [], ◌∷◌, ◌++◌, ◌==◌, nat_eq, string_eq, any,
  if◌then◌else◌,
}
use quma_custom.Sql.{update_where, delete_where, find_where}

pub record InstalledMod : Type 0 where
  pub id : ℕ
  pub forge_mod_id : Option ℕ
  pub forge_version_id : Option ℕ
  pub name : String
  pub slug : Option String
  pub version : String
  pub installed_at : String
  pub updated_at : Option String
  pub disabled : Bool
  pub source : String
  pub source_url : Option String

pub record InstalledAddon : Type 0 where
  pub id : ℕ
  pub forge_addon_id : ℕ
  pub parent_mod_id : ℕ
  pub forge_version_id : ℕ
  pub name : String
  pub slug : Option String
  pub version : String
  pub mod_version_constraint : Option String
  pub disabled : Bool
  pub installed_at : String
  pub updated_at : Option String

pub record InstalledFile : Type 0 where
  pub mod_id : Option ℕ
  pub addon_id : Option ℕ
  pub file_path : String
  pub file_hash : Option String
  pub file_size : Option ℕ

pub record PendingUpdate : Type 0 where
  pub id : ℕ
  pub mod_db_id : ℕ
  pub version_id : ℕ
  pub version_str : String
  pub new_file_paths : String
  pub old_file_paths : String
  pub started_at : String
  pub item_type : String
  pub forge_addon_id : Option ℕ

pub record ExtractedFile : Type 0 where
  pub path : String
  pub hash : String
  pub size : ℕ

-- A file on disk: in the stash or at its place, its path below that root, and its hash, `none` where
-- it cannot be read.
pub record DiskFile : Type 0 where
  pub stash : Bool
  pub path : String
  pub hash : Option String

pub record World : Type 0 where
  pub mods : List InstalledMod
  pub addons : List InstalledAddon
  pub files : List InstalledFile
  pub pending : List PendingUpdate
  pub disk : List DiskFile

unfoldable pub get_mod : ℕ → World → Option InstalledMod
get_mod id w = find_where (λ m. m.id == id) w.mods

unfoldable pub delete_pending_update : ℕ → World → World
delete_pending_update id w = record w { pending = delete_where (λ p. p.id == id) w.pending }

-- `mod_id = ?`, which does not hold of NULL.
abbrev pub is_file_of : ℕ → InstalledFile → Bool
is_file_of mod_id f = elim f.mod_id [ none ↦ false | some m ↦ m == mod_id ]

unfoldable pub delete_files_for_mod : ℕ → World → World
delete_files_for_mod mod_id w = record w { files = delete_where (is_file_of mod_id) w.files }

abbrev pub file_row : ℕ → ExtractedFile → InstalledFile
file_row mod_id file = record {
  mod_id = some mod_id;
  addon_id = none;
  file_path = file.path;
  file_hash = some file.hash;
  file_size = some file.size;
}

-- `file_path TEXT NOT NULL UNIQUE`
abbrev pub is_taken : String → List InstalledFile → Bool
is_taken path rows = any (λ f. f.file_path == path) rows

-- `none` is the error of a path that a row has.
unfoldable pub insert_file : ℕ → ExtractedFile → World → Option World
insert_file mod_id file w =
    if is_taken file.path w.files
    then none
    else some (record w { files = w.files ++ file_row mod_id file ∷ [] })

unfoldable pub record_extracted_files : ℕ → List ExtractedFile → World → Option World
record_extracted_files mod_db_id [] w = some w
record_extracted_files mod_db_id (file ∷ files) w = elim (insert_file mod_db_id file w) [
  | none ↦ none
  | some w' ↦ record_extracted_files mod_db_id files w'
]

unfoldable pub update_mod : ℕ → ℕ → String → String → World → World
update_mod id forge_version_id version now w = record w {
  mods =
      update_where (λ m. m.id == id)
        (λ m. record m {
          forge_version_id = some forge_version_id;
          version = version;
          updated_at = some now;
        })
        w.mods;
}

unfoldable pub get_addon : ℕ → World → Option InstalledAddon
get_addon id w = find_where (λ a. a.id == id) w.addons

abbrev pub is_file_of_addon : ℕ → InstalledFile → Bool
is_file_of_addon addon_id f = elim f.addon_id [ none ↦ false | some a ↦ a == addon_id ]

unfoldable pub delete_files_for_addon : ℕ → World → World
delete_files_for_addon addon_id w = record w {
  files = delete_where (is_file_of_addon addon_id) w.files;
}

abbrev pub addon_file_row : ℕ → ExtractedFile → InstalledFile
addon_file_row addon_id file = record {
  mod_id = none;
  addon_id = some addon_id;
  file_path = file.path;
  file_hash = some file.hash;
  file_size = some file.size;
}

unfoldable pub insert_addon_file : ℕ → ExtractedFile → World → Option World
insert_addon_file addon_id file w =
    if is_taken file.path w.files
    then none
    else some (record w { files = w.files ++ addon_file_row addon_id file ∷ [] })

unfoldable pub record_extracted_addon_files : ℕ → List ExtractedFile → World → Option World
record_extracted_addon_files addon_db_id [] w = some w
record_extracted_addon_files addon_db_id (file ∷ files) w =
    elim (insert_addon_file addon_db_id file w) [
      | none ↦ none
      | some w' ↦ record_extracted_addon_files addon_db_id files w'
    ]

unfoldable pub update_addon : ℕ → ℕ → String → Option String → String → World → World
update_addon id forge_version_id version mod_version_constraint now w = record w {
  addons =
      update_where (λ a. a.id == id)
        (λ a. record a {
          forge_version_id = forge_version_id;
          version = version;
          mod_version_constraint = mod_version_constraint;
          updated_at = some now;
        })
        w.addons;
}
