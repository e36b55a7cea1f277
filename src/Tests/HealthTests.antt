-- ===== src/Tests/HealthTests.antt =====
-- Runs of the health report, and the property at one of them.
use quma_custom.Prelude.{
  ℕ, String, ◌≡◌, refl, ◌↔◌, true, none, some, List, [], ◌∷◌, Memᴰ, ◌==◌, nat_eq, string_eq,
  if◌then◌else◌,
}
use quma_custom.Recovery.State.{InstalledFile}
use quma_custom.Health.Report.{
  ModsHealth, IntegrityHealth, exit_code, answered, check_server, Disk, group_untracked_by_mod_dir,
  group_untracked, count_dir, untracked_dir, missing, modified, differs, untracked,
  check_integrity_parallel,
}
use quma_custom.Toggle.Paths.{split, join, join_rest}
use quma_custom.Health.Exit.{IsIntact, exit_code-check}

abbrev sain_dll : String
sain_dll = "BepInEx/plugins/SAIN/SAIN.dll"

abbrev tracked : List InstalledFile
tracked =
    record {
      mod_id = some 1;
      addon_id = none;
      file_path = sain_dll;
      file_hash = some "ab12";
      file_size = none;
    }
    ∷ []

abbrev disk : String → Disk
disk hash = record {
  exists = λ path. path == sain_dll;
  compute_file_hash = λ path. if path == sain_dll then some hash else none;
  scan_mod_directories = some (
      sain_dll ∷ "SPT/user/mods/fika-server/package.json" ∷ "SPT/user/mods/fika-server/src/mod.js"
      ∷ "BepInEx/plugins/spt/spt-core.dll" ∷ []);
}

abbrev integrity : List String → IntegrityHealth
integrity changed = record {
  tracked_files = 1;
  missing_files = [];
  modified_files = changed;
  untracked_dirs = record { path = "SPT/user/mods/fika-server"; file_count = 2 } ∷ [];
}

abbrev mods : ModsHealth
mods = record {
  installed_count = 1;
  loaded_count = none;
  load_failures = [];
  untracked_loaded = [];
  updates_available = 0;
  incompatible_mods = [];
}

intact : check_integrity_parallel (disk "ab12") tracked ≡ some (integrity [])
unfolding check_integrity_parallel missing modified differs untracked group_untracked_by_mod_dir
    group_untracked count_dir untracked_dir split join join_rest
intact = refl

changed : check_integrity_parallel (disk "cd34") tracked ≡ some (integrity (sain_dll ∷ []))
unfolding check_integrity_parallel missing modified differs untracked group_untracked_by_mod_dir
    group_untracked count_dir untracked_dir split join join_rest
changed = refl

exit_code-check_example :
    (exit_code (record {
      server = check_server (answered true 12) (some "4.0.1") "4.0.1" "https://127.0.0.1:6969";
      mods = mods;
      integrity = integrity (sain_dll ∷ []);
    })
      ≡ 0)
    ↔ (((latency_ms : ℕ) × (answered true 12 ≡ answered true latency_ms))
        × (mods.incompatible_mods ≡ [])
        × (mods.load_failures ≡ [])
        × ((f : InstalledFile) → Memᴰ f tracked → IsIntact (disk "cd34") f))
exit_code-check_example =
    exit_code-check (disk "cd34") tracked (integrity (sain_dll ∷ [])) (answered true 12)
      (some "4.0.1") "4.0.1" "https://127.0.0.1:6969" mods changed
