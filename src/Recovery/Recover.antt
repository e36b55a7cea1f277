-- ===== src/Recovery/Recover.antt =====
-- src/ops.rs: what is done at the start of the server with the markers of updates that were not
-- finished. A failure of SQLite itself is not modelled.
use quma_custom.Prelude.{
  ℕ, String, Bool, true, false, not, ◌&&◌, Option, none, some, List, [], ◌∷◌, ltb, ◌==◌, nat_eq,
  string_eq, if◌then◌else◌, length, any, filter,
}
use quma_custom.Sql.{delete_where, find_where}
use quma_custom.Recovery.State.{
  World, PendingUpdate, ExtractedFile, DiskFile, get_mod, delete_pending_update,
  delete_files_for_mod, record_extracted_files, update_mod,
}

abbrev pub is_at : Bool → String → DiskFile → Bool
is_at false path d = not d.stash && d.path == path
is_at true path d = d.stash && d.path == path

unfoldable pub exists : Bool → String → World → Bool
exists root path w = any (is_at root path) w.disk

abbrev has_hash : String → Option DiskFile → Bool
has_hash hash none = false
has_hash hash (some d) = elim d.hash [ none ↦ false | some h ↦ h == hash ]

-- The file is there and reads with the hash that it should have.
unfoldable pub is_verified : Bool → World → ExtractedFile → Bool
is_verified root w file = has_hash file.hash (find_where (is_at root file.path) w.disk)

unfoldable pub count_verified_files : Bool → List ExtractedFile → World → ℕ
count_verified_files root new_files w = length (filter (is_verified root w) new_files)

-- One turn of the loop. `remove_file` may fail, and that is only logged; `removable` says for which
-- paths it works.
unfoldable pub clean_one : (String → Bool) → Bool → List String → ExtractedFile → World → World
clean_one removable root old_paths file w =
    if any (λ p. p == file.path) old_paths
    then w
    else if exists root file.path w
    then (if removable file.path
        then record w { disk = delete_where (is_at root file.path) w.disk }
        else w)
    else w

unfoldable pub cleanup_partial_copy :
    (String → Bool) → Bool → List ExtractedFile → List String → World → World
cleanup_partial_copy removable root [] old_paths w = w
cleanup_partial_copy removable root (file ∷ files) old_paths w =
    cleanup_partial_copy removable root files old_paths (clean_one removable root old_paths file w)

pub data RecoveryOutcome : Type 0 where
  all_new_present : RecoveryOutcome
  partial_copy : (present total : ℕ) → RecoveryOutcome
  old_files_intact : RecoveryOutcome
  ambiguous : RecoveryOutcome

unfoldable pub assess_recovery_state :
    Bool → List ExtractedFile → List String → World → RecoveryOutcome
assess_recovery_state root new_files old_paths w =
    let new_files_ok = count_verified_files root new_files w in
    let old_files_exist = length (filter (λ p. exists root p w) old_paths) in
    if new_files_ok == length new_files
    then all_new_present
    else if ltb 0 new_files_ok && ltb new_files_ok (length new_files)
    then partial_copy new_files_ok (length new_files)
    else if ltb 0 old_files_exist
    then old_files_intact
    else ambiguous

-- `none` is the error of the transaction that records the new files, which is rolled back.
unfoldable pub apply_outcome :
    (String → Bool)
    → Bool
    → String
    → PendingUpdate
    → List ExtractedFile
    → List String
    → RecoveryOutcome
    → World
    → Option World
apply_outcome removable root now r new_files old_paths all_new_present w =
    elim (record_extracted_files r.mod_db_id new_files (delete_files_for_mod r.mod_db_id w)) [
      | none ↦ none
      | some w' ↦
          some
            (delete_pending_update r.id (update_mod r.mod_db_id r.version_id r.version_str now w'))
    ]
apply_outcome removable root now r new_files old_paths (partial_copy present total) w =
    some (delete_pending_update r.id (cleanup_partial_copy removable root new_files old_paths w))
apply_outcome removable root now r new_files old_paths old_files_intact w =
    some (delete_pending_update r.id w)
apply_outcome removable root now r new_files old_paths ambiguous w =
    some (delete_pending_update r.id w)

-- The branch of mods. `new_of` and `old_of` are serde_json's reading of the two columns; `none` is the
-- error where one of them cannot be read, which leaves everything as it is. The root is the stash
-- where the mod is disabled.
unfoldable pub recover_single_mod_update :
    (String → Option (List ExtractedFile))
    → (String → Option (List String))
    → (String → Bool)
    → String
    → PendingUpdate
    → World
    → Option World
recover_single_mod_update new_of old_of removable now r w = elim (get_mod r.mod_db_id w) [
  | none ↦ some (delete_pending_update r.id w)
  | some m ↦ elim (new_of r.new_file_paths) [
    | none ↦ none
    | some new_files ↦ elim (old_of r.old_file_paths) [
      | none ↦ none
      | some old_paths ↦
          apply_outcome removable m.disabled now r new_files old_paths
            (assess_recovery_state m.disabled new_files old_paths w) w
    ]
  ]
]
