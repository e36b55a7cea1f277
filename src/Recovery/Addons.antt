-- ===== src/Recovery/Addons.antt =====
-- src/ops.rs: the recovery of an addon's update, the choice between the two, and the loop over all
-- markers.
use quma_custom.Prelude.{
  String, Bool, Option, none, some, List, [], ◌∷◌, ◌==◌, nat_eq, string_eq, if◌then◌else◌,
  unwrap_or,
}
use quma_custom.Recovery.State.{
  World, PendingUpdate, ExtractedFile, get_addon, delete_pending_update, delete_files_for_addon,
  record_extracted_addon_files, update_addon,
}
use quma_custom.Recovery.Recover.{
  RecoveryOutcome, all_new_present, partial_copy, old_files_intact, ambiguous,
  assess_recovery_state, cleanup_partial_copy, recover_single_mod_update,
}

-- `none` is the error of the transaction that records the new files, which is rolled back.
unfoldable pub apply_addon_outcome :
    (String → Bool)
    → Bool
    → String
    → PendingUpdate
    → List ExtractedFile
    → List String
    → RecoveryOutcome
    → World
    → Option World
apply_addon_outcome removable root now r new_files old_paths all_new_present w =
    elim (record_extracted_addon_files r.mod_db_id new_files
      (delete_files_for_addon r.mod_db_id w)) [
        | none ↦ none
        | some w' ↦ some (
            delete_pending_update r.id
              (update_addon r.mod_db_id r.version_id r.version_str none now w'))
      ]
apply_addon_outcome removable root now r new_files old_paths (partial_copy present total) w =
    some (delete_pending_update r.id (cleanup_partial_copy removable root new_files old_paths w))
apply_addon_outcome removable root now r new_files old_paths old_files_intact w =
    some (delete_pending_update r.id w)
apply_addon_outcome removable root now r new_files old_paths ambiguous w =
    some (delete_pending_update r.id w)

unfoldable pub recover_single_addon_update :
    (String → Option (List ExtractedFile))
    → (String → Option (List String))
    → (String → Bool)
    → String
    → PendingUpdate
    → World
    → Option World
recover_single_addon_update new_of old_of removable now r w = elim (get_addon r.mod_db_id w) [
  | none ↦ some (delete_pending_update r.id w)
  | some a ↦ elim (new_of r.new_file_paths) [
    | none ↦ none
    | some new_files ↦ elim (old_of r.old_file_paths) [
      | none ↦ none
      | some old_paths ↦
          apply_addon_outcome removable a.disabled now r new_files old_paths
            (assess_recovery_state a.disabled new_files old_paths w) w
    ]
  ]
]

unfoldable pub recover_single_update :
    (String → Option (List ExtractedFile))
    → (String → Option (List String))
    → (String → Bool)
    → String
    → PendingUpdate
    → World
    → Option World
recover_single_update new_of old_of removable now r w =
    if r.item_type == "addon"
    then recover_single_addon_update new_of old_of removable now r w
    else recover_single_mod_update new_of old_of removable now r w

-- The markers were listed before the first of them is handled; an error is logged, and the next one is
-- handled.
unfoldable pub recover_each :
    (String → Option (List ExtractedFile))
    → (String → Option (List String))
    → (String → Bool)
    → String
    → List PendingUpdate
    → World
    → World
recover_each new_of old_of removable now [] w = w
recover_each new_of old_of removable now (r ∷ rs) w =
    recover_each new_of old_of removable now rs
      (unwrap_or (recover_single_update new_of old_of removable now r w) w)

unfoldable pub recover_pending_updates :
    (String → Option (List ExtractedFile))
    → (String → Option (List String))
    → (String → Bool)
    → String
    → World
    → World
recover_pending_updates new_of old_of removable now w =
    recover_each new_of old_of removable now w.pending w
