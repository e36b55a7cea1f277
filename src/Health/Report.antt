-- ===== src/Health/Report.antt =====
-- src/health.rs: the parts of the report and how the server and the files are checked.
use Prim.Native.Nat.{Ordering}
use Prim.Native.String.{compare}
use text.Mathlib.Text.{starts_with}
use quma_custom.Prelude.{
  ℕ, suc, String, Bool, true, false, not, ◌&&◌, ◌||◌, Option, none, some, List, [], ◌∷◌, map, leb,
  ◌==◌, nat_eq, string_eq, if◌then◌else◌, length, take, any, filter, is_empty,
}
use quma_custom.Toggle.Paths.{split, join}
use quma_custom.Recovery.State.{InstalledFile}

pub record ServerHealth : Type 0 where
  pub reachable : Bool
  pub latency_ms : Option ℕ
  pub version : Option String
  pub version_matches : Option Bool
  pub address : String
  pub error : Option String
  pub transition : Option String
  pub started_at : Option String

pub record ModsHealth : Type 0 where
  pub installed_count : ℕ
  pub loaded_count : Option ℕ
  pub load_failures : List String
  pub untracked_loaded : List String
  pub updates_available : ℕ
  pub incompatible_mods : List String

pub record UntrackedDir : Type 0 where
  pub path : String
  pub file_count : ℕ

pub record IntegrityHealth : Type 0 where
  pub tracked_files : ℕ
  pub missing_files : List String
  pub modified_files : List String
  pub untracked_dirs : List UntrackedDir

pub record HealthReport : Type 0 where
  pub server : ServerHealth
  pub mods : ModsHealth
  pub integrity : IntegrityHealth

unfoldable pub exit_code : HealthReport → ℕ
exit_code report =
    if not report.server.reachable
    then 1
    else if not (is_empty report.mods.incompatible_mods)
        || not (is_empty report.mods.load_failures)
        || not (is_empty report.integrity.missing_files)
        || not (is_empty report.integrity.modified_files)
    then 2
    else 0

-- What the client of the server's API gives for a ping: an answer, or the text of an error.
pub data Ping : Type 0 where
  answered : (ok : Bool) (latency_ms : ℕ) → Ping
  unanswered : (error : String) → Ping

abbrev down : String → String → ServerHealth
down error address = record {
  reachable = false;
  latency_ms = none;
  version = none;
  version_matches = none;
  address = address;
  error = some error;
  transition = none;
  started_at = none;
}

-- `server_version` is asked only where the server is reachable.
unfoldable pub check_server : Ping → Option String → String → String → ServerHealth
check_server (answered true latency_ms) server_version expected_version address = record {
  reachable = true;
  latency_ms = some latency_ms;
  version = server_version;
  version_matches = elim server_version [ none ↦ none | some v ↦ some (v == expected_version) ];
  address = address;
  error = none;
  transition = none;
  started_at = none;
}
check_server (answered false latency_ms) server_version expected_version address =
    down "server returned error" address
check_server (unanswered error) server_version expected_version address = down error address

-- `*dirs.entry(dir).or_default() += 1` on the `BTreeMap`, as a list in the order of its keys.
unfoldable pub count_dir : String → List UntrackedDir → List UntrackedDir
count_dir dir [] = record { path = dir; file_count = 1 } ∷ []
count_dir dir (d ∷ ds) =
    let rest = count_dir dir ds in
    elim (compare dir d.path) [
      | Ordering.lt ↦ record { path = dir; file_count = 1 } ∷ d ∷ ds
      | Ordering.eq ↦ record { path = d.path; file_count = suc d.file_count } ∷ ds
      | Ordering.gt ↦ d ∷ rest
    ]

unfoldable pub untracked_dir : String → String
untracked_dir path =
    let parts = split path in
    if starts_with path "SPT/" && leb 4 (length parts)
    then join (take 4 parts)
    else if starts_with path "BepInEx/" && leb 3 (length parts)
    then join (take 3 parts)
    else path

unfoldable pub group_untracked : List String → List UntrackedDir → List UntrackedDir
group_untracked [] dirs = dirs
group_untracked (path ∷ paths) dirs = group_untracked paths (count_dir (untracked_dir path) dirs)

unfoldable pub group_untracked_by_mod_dir : List String → List UntrackedDir
group_untracked_by_mod_dir untracked_paths = group_untracked untracked_paths []

-- What is read of the disk: whether a path is there, the hash of a file where it can be read, and the
-- files in the directories of mods where those can be listed.
pub record Disk : Type 0 where
  pub exists : String → Bool
  pub compute_file_hash : String → Option String
  pub scan_mod_directories : Option (List String)

abbrev pub some_values : List (Option String) → List String
some_values [] = []
some_values (none ∷ os) = some_values os
some_values (some s ∷ os) = s ∷ some_values os

module _ (disk : Disk) where
  unfoldable pub missing : InstalledFile → Option String
  missing file = if not (disk.exists file.file_path) then some file.file_path else none

  unfoldable pub differs : String → String → Bool
  differs path expected_hash = elim (disk.compute_file_hash path) [
    | none ↦ true
    | some actual_hash ↦ not (actual_hash == expected_hash)
  ]

  unfoldable pub modified : InstalledFile → Option String
  modified file = if not (disk.exists file.file_path) then none else elim file.file_hash [
    | none ↦ none
    | some expected_hash ↦
        if differs file.file_path expected_hash then some file.file_path else none
  ]

  unfoldable pub untracked : List InstalledFile → List String → List String
  untracked tracked_files all_disk_files =
      filter (λ p. not (any (λ f. f.file_path == p) tracked_files)) all_disk_files

  unfoldable pub check_integrity_parallel : List InstalledFile → Option IntegrityHealth
  check_integrity_parallel tracked_files = elim disk.scan_mod_directories [
    | none ↦ none
    | some all_disk_files ↦ some (record {
      tracked_files = length tracked_files;
      missing_files = some_values (map missing tracked_files);
      modified_files = some_values (map modified tracked_files);
      untracked_dirs =
          filter (λ d. not (d.path == "BepInEx/plugins/spt"))
            (group_untracked_by_mod_dir (untracked tracked_files all_disk_files));
    })
  ]
