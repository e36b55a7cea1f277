-- ===== src/Config/Paths.antt =====
-- src/config.rs: old forms of paths in the configuration of mod sync.
use Prim.Native.Char.{code}
use Prim.Native.String.{[], ◌∷◌, ◌++◌ as concat}
use quma_custom.Prelude.{
  String, Bool, true, false, ◌||◌, Option, none, some, List, [], ◌∷◌, ◌==◌, nat_eq, string_eq,
  if◌then◌else◌, is_some,
}

-- `str::strip_prefix`
unfoldable pub strip_prefix : String → String → Option String
strip_prefix s [] = some s
strip_prefix [] (d ∷ t) = none
strip_prefix (c ∷ s) (d ∷ t) =
    let rest = strip_prefix s t in if code c == code d then rest else none

-- The body of the two loops: whether the path changed, and the path.
unfoldable pub migrate_path : String → Bool × String
migrate_path path = elim (strip_prefix path "../") [
  | some stripped ↦ (true, stripped)
  | none ↦
      if is_some (strip_prefix path "user/") || (path == "user")
      then (true, concat "SPT/" path)
      else (false, path)
]

unfoldable pub migrate_paths : List String → Bool × List String
migrate_paths [] = (false, [])
migrate_paths (path ∷ paths) =
    let (changed, path') = migrate_path path in
    let (rest_changed, paths') = migrate_paths paths in (changed || rest_changed, path' ∷ paths')
