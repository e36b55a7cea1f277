-- ===== src/Toggle/Plan.antt =====
-- src/ops.rs: what the renames of `disable_mod` move, and what they do not.
use mathlib.Core.List.Memᴰ as M
use Prim.Native.String.{◌++◌ as concat}
use text.Mathlib.Text.{starts_with}
use quma_custom.Prelude.{
  ℕ, String, ◌≡◌, refl, ◌⊎◌, Bool, true, false, not, List, ◌++◌, map, Memᴰ, nat_eq, string_eq, any,
  filter,
}
use quma_custom.Recovery.State.{InstalledFile}
use quma_custom.Toggle.Paths.{find_top_level_mod_dirs, find_loose_files}
use quma_custom.Toggle.Tables.{
  Db, get_files_for_mod, list_addons_for_mod, get_all_enabled_mod_files,
}
use quma_custom.Toggle.Disk.{Place}
use quma_custom.Toggle.Moves.{
  is_own, is_overlapped, filter_shared_dirs, to_stash, paths_of, disable_renames,
}

-- The path is below the directory.
abbrev pub is_below : String → String → Bool
is_below path dir = starts_with path (concat dir "/")

module _ (mod_db_id : ℕ) (db : Db) where
  abbrev pub paths : List String
  paths = paths_of (get_files_for_mod mod_db_id db)

  abbrev pub dirs : List String
  dirs = find_top_level_mod_dirs paths

  abbrev pub exclusive : List String
  exclusive = filter (λ dir. not (is_overlapped mod_db_id db dir)) dirs

  abbrev pub shared : List String
  shared = filter (λ dir. is_overlapped mod_db_id db dir) dirs

  abbrev pub loose : List String
  loose = find_loose_files paths dirs

  abbrev pub single : List String
  single = filter (λ p. any (λ d. starts_with p d) shared) paths

  pub disable_renames_parts :
      disable_renames mod_db_id db
      ≡ map to_stash exclusive ++ map to_stash loose ++ map to_stash single
  unfolding disable_renames filter_shared_dirs
  disable_renames_parts = refl

  -- No path starts with a directory of the mod without being below it, as `plugins/A.dll` starts with
  -- `plugins/A`.
  abbrev pub IsClear : Type 0
  IsClear =
      (path : String)
      → Memᴰ path paths
      → (dir : String) → Memᴰ dir dirs
      → starts_with path dir ≡ true
      → is_below path dir ≡ true

  -- The path is moved by itself, or with a directory that it is below.
  abbrev pub IsMoved : String → Type 0
  IsMoved path =
      Memᴰ (to_stash path) (disable_renames mod_db_id db)
      ⊎ ((dir : String) × Memᴰ (to_stash dir) (disable_renames mod_db_id db)
          × (is_below path dir ≡ true))

  -- The rename moves a file of the mod by itself, or a directory that no file of others starts with.
  abbrev pub IsSparing : Place × Place → Type 0
  IsSparing r =
      ((path : String) × Memᴰ path paths × (r ≡ to_stash path))
      ⊎ ((dir : String) × (r ≡ to_stash dir)
          × ((f : InstalledFile)
              → Memᴰ f (get_all_enabled_mod_files db)
              → is_own mod_db_id (list_addons_for_mod mod_db_id db) f ≡ false
              → starts_with f.file_path dir ≡ false))
