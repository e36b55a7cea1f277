-- ===== src/Recovery/Kept.antt =====
-- src/ops.rs: what the recovery of an update keeps on disk, and what it records of a finished one.
use quma_custom.Prelude.{
  some_injective, ◌∙◌, ap, sym, ℕ, String, ◌≡◌, subst, inl, inr, Bool, true, false, Option, some,
  List, [], ◌∷◌, Memᴰ, arith, ◌==◌, nat_eq, string_eq, eq_iff, Bool-cases, Option-cases, any,
}
use quma_custom.Sql.{mem-delete_where}
use quma_custom.Recovery.State.{
  World, PendingUpdate, ExtractedFile, DiskFile, is_taken, get_mod, delete_pending_update,
  delete_files_for_mod, insert_file, record_extracted_files, update_mod,
}
use quma_custom.Recovery.Recover.{
  is_at, exists, clean_one, cleanup_partial_copy, RecoveryOutcome, all_new_present, partial_copy,
  old_files_intact, ambiguous, apply_outcome, recover_single_mod_update,
}

path_of_is_at :
    (root : Bool) (path : String) (d : DiskFile) → is_at root path d ≡ true → d.path ≡ path
path_of_is_at true path d h = (eq_iff d.path path).0 (ground arith)
path_of_is_at false path d h = (eq_iff d.path path).0 (ground arith)

abbrev pub is_old : List String → String → Bool
is_old old_paths path = any (λ p. p == path) old_paths

-- A file of the old version is not where a file that only the new version has is.
apart_of_old :
    (root : Bool) (old_paths : List String) (path : String) (d : DiskFile)
    → is_old old_paths path ≡ false
    → is_old old_paths d.path ≡ true
    → is_at root path d ≡ false
apart_of_old root old_paths path d new old = elim (Bool-cases (is_at root path d)) [
  | inr apart ↦ apart
  | inl there ↦
      let same = path_of_is_at root path d there in
      let clash = subst (λ p. is_old old_paths p ≡ true) same old in absurd (cc)
]

clean_one-keeps :
    (removable : String → Bool) (root : Bool) (old_paths : List String) (file : ExtractedFile)
    (d : DiskFile) (w : World)
    → is_old old_paths d.path ≡ true
    → Memᴰ d w.disk
    → Memᴰ d (clean_one removable root old_paths file w).disk
unfolding clean_one
clean_one-keeps removable root old_paths file d w old m =
    elim (Bool-cases (is_old old_paths file.path)) [
      | inl kept ↦ rw kept m
      | inr new ↦ elim (Bool-cases (exists root file.path w)) [
        | inr absent ↦ rw (new, absent) m
        | inl there ↦ elim (Bool-cases (removable file.path)) [
          | inr stuck ↦ rw (new, there, stuck) m
          | inl removed ↦
              rw (new, there, removed)
                (mem-delete_where (is_at root file.path) m
                  (apart_of_old root old_paths file.path d new old))
        ]
      ]
    ]

pub cleanup-keeps :
    (removable : String → Bool) (root : Bool) (new_files : List ExtractedFile)
    (old_paths : List String) (d : DiskFile) (w : World)
    → is_old old_paths d.path ≡ true
    → Memᴰ d w.disk
    → Memᴰ d (cleanup_partial_copy removable root new_files old_paths w).disk
unfolding cleanup_partial_copy
cleanup-keeps removable root [] old_paths d w old m = m
cleanup-keeps removable root (file ∷ files) old_paths d w old m =
    cleanup-keeps removable root files old_paths d (clean_one removable root old_paths file w) old
      (clean_one-keeps removable root old_paths file d w old m)

disk-record_extracted_files :
    (mod_id : ℕ) (files : List ExtractedFile) (w w' : World)
    → record_extracted_files mod_id files w ≡ some w'
    → w'.disk ≡ w.disk
unfolding record_extracted_files insert_file
disk-record_extracted_files mod_id [] w w' e = sym (ap World.disk (some_injective e))
disk-record_extracted_files mod_id (file ∷ files) w w' e =
    elim (Bool-cases (is_taken file.path w.files)) [
      | inl taken ↦ let clash = rw (taken, record_extracted_files) at e in absurd (cc)
      | inr free ↦
          disk-record_extracted_files mod_id files _ w' (rw (free, record_extracted_files) at e)
    ]

pub apply_outcome-keeps :
    (removable : String → Bool) (root : Bool) (now : String) (r : PendingUpdate)
    (new_files : List ExtractedFile) (old_paths : List String) (o : RecoveryOutcome) (d : DiskFile)
    (w w' : World)
    → apply_outcome removable root now r new_files old_paths o w ≡ some w'
    → is_old old_paths d.path ≡ true
    → Memᴰ d w.disk
    → Memᴰ d w'.disk
unfolding apply_outcome delete_pending_update update_mod delete_files_for_mod
apply_outcome-keeps removable root now r new_files old_paths all_new_present d w w' e old m =
    let rows = record_extracted_files r.mod_db_id new_files (delete_files_for_mod r.mod_db_id w) in
    elim (Option-cases rows) [
      | inl failed ↦ let clash = rw (failed, apply_outcome) at e in absurd (cc)
      | inr (w1, recorded) ↦
          let same = ap World.disk (some_injective (rw (recorded, apply_outcome) at e)) in
          subst (λ z. Memᴰ d z)
            (sym (disk-record_extracted_files r.mod_db_id new_files _ w1 recorded) ∙ same) m
    ]
apply_outcome-keeps removable root now r new_files old_paths (partial_copy p t) d w w' e old m =
    subst (λ (z : World). Memᴰ d z.disk) (some_injective e)
      (cleanup-keeps removable root new_files old_paths d w old m)
apply_outcome-keeps removable root now r new_files old_paths old_files_intact d w w' e old m =
    subst (λ (z : World). Memᴰ d z.disk) (some_injective e) m
apply_outcome-keeps removable root now r new_files old_paths ambiguous d w w' e old m =
    subst (λ (z : World). Memᴰ d z.disk) (some_injective e) m

module _ (new_of : String → Option (List ExtractedFile)) (old_of : String → Option (List String))
    (removable : String → Bool) (now : String) (r : PendingUpdate) (w w' : World)
    (old_paths : List String) where
  -- Whatever state the recovery of an interrupted mod update finds the disk in, a file whose path is
  -- one of the old version's is not removed.
  pub recover_single_mod_update-keeps :
      (d : DiskFile)
      → old_of r.old_file_paths ≡ some old_paths
      → recover_single_mod_update new_of old_of removable now r w ≡ some w'
      → is_old old_paths d.path ≡ true
      → Memᴰ d w.disk
      → Memᴰ d w'.disk
  unfolding recover_single_mod_update delete_pending_update
  recover_single_mod_update-keeps d read e old m = elim (Option-cases (get_mod r.mod_db_id w)) [
    | inl gone ↦
        subst (λ (x : World). Memᴰ d x.disk)
          (some_injective (rw (gone, recover_single_mod_update) at e)) m
    | inr (row, found) ↦ elim (Option-cases (new_of r.new_file_paths)) [
      | inl unread ↦ let clash = rw (found, recover_single_mod_update, unread) at e in absurd (cc)
      | inr (new_files, parsed) ↦
          apply_outcome-keeps removable row.disabled now r new_files old_paths _ d w w'
            (rw (found, recover_single_mod_update, parsed, read) at e) old m
    ]
  ]
