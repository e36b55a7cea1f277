-- ===== src/Recovery/Startup.antt =====
-- src/ops.rs: what the recovery of all updates keeps on disk.
use quma_custom.Prelude.{
  some_injective, ◌∙◌, ap, sym, ℕ, String, ◌≡◌, refl, sym, subst, inl, inr, Bool, true, Option,
  some, List, [], ◌∷◌, Memᴰ, ◌==◌, nat_eq, string_eq, Bool-cases, Option-cases, unwrap_or,
}
use quma_custom.Recovery.State.{
  World, PendingUpdate, ExtractedFile, DiskFile, is_taken, get_addon, get_mod,
  delete_pending_update, delete_files_for_addon, record_extracted_addon_files, insert_addon_file,
  update_addon,
}
use quma_custom.Recovery.Recover.{
  RecoveryOutcome, all_new_present, partial_copy, old_files_intact, ambiguous,
  recover_single_mod_update,
}
use quma_custom.Recovery.Kept.{is_old, cleanup-keeps, apply_outcome-keeps}
use quma_custom.Recovery.Addons.{
  apply_addon_outcome, recover_single_addon_update, recover_single_update, recover_each,
  recover_pending_updates,
}

disk-record_extracted_addon_files :
    (addon_id : ℕ) (files : List ExtractedFile) (w w' : World)
    → record_extracted_addon_files addon_id files w ≡ some w'
    → w'.disk ≡ w.disk
unfolding record_extracted_addon_files insert_addon_file
disk-record_extracted_addon_files addon_id [] w w' e = sym (ap World.disk (some_injective e))
disk-record_extracted_addon_files addon_id (file ∷ files) w w' e =
    elim (Bool-cases (is_taken file.path w.files)) [
      | inl taken ↦ let clash = rw (taken, record_extracted_addon_files) at e in absurd (cc)
      | inr free ↦
          disk-record_extracted_addon_files addon_id files _ w'
            (rw (free, record_extracted_addon_files) at e)
    ]

apply_addon_outcome-keeps :
    (removable : String → Bool) (root : Bool) (now : String) (r : PendingUpdate)
    (new_files : List ExtractedFile) (old_paths : List String) (o : RecoveryOutcome) (d : DiskFile)
    (w w' : World)
    → apply_addon_outcome removable root now r new_files old_paths o w ≡ some w'
    → is_old old_paths d.path ≡ true
    → Memᴰ d w.disk
    → Memᴰ d w'.disk
unfolding apply_addon_outcome delete_pending_update update_addon delete_files_for_addon
apply_addon_outcome-keeps removable root now r new_files old_paths all_new_present d w w' e old m =
    let rows =
      record_extracted_addon_files r.mod_db_id new_files (delete_files_for_addon r.mod_db_id w) in
    elim (Option-cases rows) [
      | inl failed ↦ let clash = rw (failed, apply_addon_outcome) at e in absurd (cc)
      | inr (w1, recorded) ↦
          let same = ap World.disk (some_injective (rw (recorded, apply_addon_outcome) at e)) in
          subst (λ z. Memᴰ d z)
            (sym (disk-record_extracted_addon_files r.mod_db_id new_files _ w1 recorded) ∙ same) m
    ]
apply_addon_outcome-keeps removable root now r new_files old_paths (partial_copy p t) d w w' e old
      m =
    subst (λ (z : World). Memᴰ d z.disk) (some_injective e)
      (cleanup-keeps removable root new_files old_paths d w old m)
apply_addon_outcome-keeps removable root now r new_files old_paths old_files_intact d w w' e old m =
    subst (λ (z : World). Memᴰ d z.disk) (some_injective e) m
apply_addon_outcome-keeps removable root now r new_files old_paths ambiguous d w w' e old m =
    subst (λ (z : World). Memᴰ d z.disk) (some_injective e) m

module _ (new_of : String → Option (List ExtractedFile)) (old_of : String → Option (List String))
    (removable : String → Bool) (now : String) (d : DiskFile) where
  -- The paths of the old version, where they can be read, hold that of `d`.
  abbrev pub IsOldFile : PendingUpdate → Type 0
  IsOldFile r = (ps : List String) → old_of r.old_file_paths ≡ some ps → is_old ps d.path ≡ true

  addon-keeps :
      (r : PendingUpdate) (w w' : World)
      → recover_single_addon_update new_of old_of removable now r w ≡ some w'
      → IsOldFile r
      → Memᴰ d w.disk
      → Memᴰ d w'.disk
  unfolding recover_single_addon_update delete_pending_update
  addon-keeps r w w' e old m = elim (Option-cases (get_addon r.mod_db_id w)) [
    | inl gone ↦
        subst (λ (x : World). Memᴰ d x.disk)
          (some_injective (rw (gone, recover_single_addon_update) at e)) m
    | inr (row, found) ↦ elim (Option-cases (new_of r.new_file_paths)) [
      | inl unread ↦ let clash = rw (found, recover_single_addon_update, unread) at e in absurd (cc)
      | inr (new_files, parsed) ↦ elim (Option-cases (old_of r.old_file_paths)) [
        | inl unread ↦
            let clash = rw (found, recover_single_addon_update, parsed, unread) at e in absurd (cc)
        | inr (old_paths, read) ↦
            apply_addon_outcome-keeps removable row.disabled now r new_files old_paths _ d w w'
              (rw (found, recover_single_addon_update, parsed, read) at e) (old old_paths read) m
      ]
    ]
  ]

  mod-keeps :
      (r : PendingUpdate) (w w' : World)
      → recover_single_mod_update new_of old_of removable now r w ≡ some w'
      → IsOldFile r
      → Memᴰ d w.disk
      → Memᴰ d w'.disk
  unfolding recover_single_mod_update delete_pending_update
  mod-keeps r w w' e old m = elim (Option-cases (get_mod r.mod_db_id w)) [
    | inl gone ↦
        subst (λ (x : World). Memᴰ d x.disk)
          (some_injective (rw (gone, recover_single_mod_update) at e)) m
    | inr (row, found) ↦ elim (Option-cases (new_of r.new_file_paths)) [
      | inl unread ↦ let clash = rw (found, recover_single_mod_update, unread) at e in absurd (cc)
      | inr (new_files, parsed) ↦ elim (Option-cases (old_of r.old_file_paths)) [
        | inl unread ↦
            let clash = rw (found, recover_single_mod_update, parsed, unread) at e in absurd (cc)
        | inr (old_paths, read) ↦
            apply_outcome-keeps removable row.disabled now r new_files old_paths _ d w w'
              (rw (found, recover_single_mod_update, parsed, read) at e) (old old_paths read) m
      ]
    ]
  ]

  single-keeps :
      (r : PendingUpdate) (w w' : World)
      → recover_single_update new_of old_of removable now r w ≡ some w'
      → IsOldFile r
      → Memᴰ d w.disk
      → Memᴰ d w'.disk
  unfolding recover_single_update
  single-keeps r w w' e old m = elim (Bool-cases (r.item_type == "addon")) [
    | inl addon ↦ addon-keeps r w w' (rw addon at e) old m
    | inr a_mod ↦ mod-keeps r w w' (rw a_mod at e) old m
  ]

  each-keeps :
      (rs : List PendingUpdate) (w : World)
      → ((r : PendingUpdate) → Memᴰ r rs → IsOldFile r)
      → Memᴰ d w.disk
      → Memᴰ d (recover_each new_of old_of removable now rs w).disk
  unfolding recover_each
  each-keeps [] w old m = m
  each-keeps (r ∷ rs) w old m =
      let rest = λ (x : PendingUpdate) (k : Memᴰ x rs). old x (Memᴰ.tail k) in
      let one : Option World = recover_single_update new_of old_of removable now r w in
      let kept : Memᴰ d (unwrap_or one w).disk = elim (Option-cases one) [
        | inl failed ↦ subst (λ o. Memᴰ d (unwrap_or o w).disk) (sym failed) m
        | inr (w', done) ↦
            subst (λ o. Memᴰ d (unwrap_or o w).disk) (sym done)
              (single-keeps r w w' done (old r (Memᴰ.head refl)) m)
      ] in
      each-keeps rs (unwrap_or one w) rest kept

  -- The recovery at the start of the server, over all markers, of mods and of addons, those that
  -- fail included, removes no file whose path is an old one of each marker whose list can be read.
  pub recover_pending_updates-keeps :
      (w : World)
      → ((r : PendingUpdate) → Memᴰ r w.pending → IsOldFile r)
      → Memᴰ d w.disk
      → Memᴰ d (recover_pending_updates new_of old_of removable now w).disk
  unfolding recover_pending_updates
  recover_pending_updates-keeps w old m = each-keeps w.pending w old m
