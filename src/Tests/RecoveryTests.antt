-- ===== src/Tests/RecoveryTests.antt =====
-- An update that was interrupted, at two points, and the properties at them.
use mathlib.Core.List.Memᴰ as M
use quma_custom.Prelude.{
  ap, sym, ◌∙◌, eq_iff, some_injective, String, ◌≡◌, refl, true, false, Option, none, some, List,
  [], ◌∷◌, map, Memᴰ, ◌==◌, nat_eq, string_eq, any, filter,
}
use quma_custom.Recovery.State.{
  World, InstalledMod, InstalledFile, PendingUpdate, ExtractedFile, DiskFile, is_file_of, file_row,
  get_mod,
}
use quma_custom.Recovery.Recover.{recover_single_mod_update, count_verified_files}
use quma_custom.Recovery.Kept.{recover_single_mod_update-keeps}
use quma_custom.Recovery.Addons.{recover_pending_updates}
use quma_custom.Recovery.Startup.{recover_pending_updates-keeps}
use quma_custom.Recovery.Recorded.{AreApart, recover_single_mod_update-records}

abbrev sain : InstalledMod
sain = record {
  id = 1;
  forge_mod_id = some 791;
  forge_version_id = some 10;
  name = "SAIN";
  slug = none;
  version = "1.0.0";
  installed_at = "2026-01-01";
  updated_at = none;
  disabled = false;
  source = "forge";
  source_url = none;
}

abbrev marker : PendingUpdate
marker = record {
  id = 1;
  mod_db_id = 1;
  version_id = 11;
  version_str = "1.1.0";
  new_file_paths = "new";
  old_file_paths = "old";
  started_at = "2026-01-02";
  item_type = "mod";
  forge_addon_id = none;
}

abbrev new_files : List ExtractedFile
new_files =
    record { path = "a.dll"; hash = "2"; size = 3 }
    ∷ record { path = "b.dll"; hash = "3"; size = 4 }
    ∷ []

abbrev old_paths : List String
old_paths = "a.dll" ∷ []

abbrev new_of : String → Option (List ExtractedFile)
new_of text = some new_files

abbrev old_of : String → Option (List String)
old_of text = some old_paths

abbrev a_new : DiskFile
a_new = record { stash = false; path = "a.dll"; hash = some "2" }

abbrev b_new : DiskFile
b_new = record { stash = false; path = "b.dll"; hash = some "3" }

abbrev b_cut : DiskFile
b_cut = record { stash = false; path = "b.dll"; hash = some "9" }

-- The first file is the new one, the second was cut off.
abbrev half_done : World
half_done = record {
  mods = sain ∷ [];
  addons = [];
  files = [];
  pending = marker ∷ [];
  disk = a_new ∷ b_cut ∷ [];
}

abbrev rolled_back : World
rolled_back = record half_done { pending = []; disk = a_new ∷ [] }

abbrev all_done : World
all_done = record half_done { disk = a_new ∷ b_new ∷ [] }

half_done-recovers :
    recover_single_mod_update new_of old_of (λ p. true) "2026-01-03" marker half_done
    ≡ some rolled_back
unfolding recover_single_mod_update get_mod quma_custom.Recovery.Recover.assess_recovery_state
    quma_custom.Recovery.Recover.apply_outcome quma_custom.Recovery.Recover.cleanup_partial_copy
    quma_custom.Recovery.Recover.clean_one quma_custom.Recovery.Recover.exists
    quma_custom.Recovery.Recover.is_verified count_verified_files
    quma_custom.Recovery.State.delete_pending_update quma_custom.Sql.find_where
    quma_custom.Sql.delete_where
half_done-recovers = refl

recover_single_mod_update-keeps_example : Memᴰ a_new rolled_back.disk
recover_single_mod_update-keeps_example =
    recover_single_mod_update-keeps new_of old_of (λ p. true) "2026-01-03" marker half_done
      rolled_back old_paths a_new refl half_done-recovers refl (Memᴰ.head refl)

new_files-AreApart : AreApart new_files
new_files-AreApart = (
  λ y m e.
      let clash : false ≡ true =
        (eq_iff "b.dll" "a.dll").1 (sym (ap ExtractedFile.path (M.eq_of_singleton m)) ∙ e) in
      absurd (cc),
  (λ y m. elim m [ ], tt),
)

recover_single_mod_update-records_example :
    (w' : World) × (recover_single_mod_update new_of old_of (λ p. true) "2026-01-03" marker all_done
      ≡ some w')
    × (filter (is_file_of 1) w'.files ≡ map (file_row 1) new_files)
    × (any (λ (p : PendingUpdate). p.id == 1) w'.pending ≡ false)
recover_single_mod_update-records_example =
    recover_single_mod_update-records new_of old_of (λ p. true) "2026-01-03" marker all_done sain
      new_files old_paths (unfold get_mod quma_custom.Sql.find_where in refl) refl refl
      (unfold count_verified_files quma_custom.Recovery.Recover.is_verified
          quma_custom.Sql.find_where in
        refl)
      new_files-AreApart (λ x m f k. elim k [ ])

recover_pending_updates-keeps_example :
    Memᴰ a_new (recover_pending_updates new_of old_of (λ p. true) "2026-01-03" half_done).disk
recover_pending_updates-keeps_example =
    recover_pending_updates-keeps new_of old_of (λ p. true) "2026-01-03" a_new half_done
      (λ r k ps read. rw (← some_injective read)) (Memᴰ.head refl)
