-- ===== src/Toggle/Paths.antt =====
-- src/ops.rs: the directories that a mod's files are in.
use Prim.Native.Nat.{Ordering}
use Prim.Native.Char.{Char, code}
use Prim.Native.String.{[], ◌∷◌, compare, ◌++◌ as concat}
use text.Mathlib.Text.{starts_with}
use quma_custom.Prelude.{
  String, not, ◌&&◌, Option, none, some, List, [], ◌∷◌, ltb, leb, ◌==◌, nat_eq, string_eq,
  if◌then◌else◌, length, take, any, filter,
}

abbrev pub extend : Char → List String → List String
extend c [] = []
extend c (part ∷ parts) = (c ∷ part) ∷ parts

-- `path.split('/')`; 47 is the slash.
unfoldable pub split : String → List String
split [] = "" ∷ []
split (c ∷ s) = let rest = split s in if code c == 47 then "" ∷ rest else extend c rest

-- `format!("{}/{}/…")`
unfoldable pub join_rest : List String → String
join_rest [] = ""
join_rest (part ∷ parts) = concat "/" (concat part (join_rest parts))

unfoldable pub join : List String → String
join [] = ""
join (part ∷ parts) = concat part (join_rest parts)

-- The directory that a file of a mod stands in, if it is one that a mod can own.
unfoldable pub top_level_dir : String → Option String
top_level_dir path =
    let parts = split path in
    if starts_with path "SPT/user/mods/" && leb 4 (length parts)
    then some (join (take 4 parts))
    else if starts_with path "BepInEx/plugins/" && leb 3 (length parts)
    then (if ltb 3 (length parts) then some (join (take 3 parts)) else none)
    else none

-- `BTreeSet::insert`
unfoldable pub set_insert : String → List String → List String
set_insert x [] = x ∷ []
set_insert x (y ∷ ys) =
    let rest = set_insert x ys in
    elim (compare x y) [ Ordering.lt ↦ x ∷ y ∷ ys | Ordering.eq ↦ y ∷ ys | Ordering.gt ↦ y ∷ rest ]

abbrev pub insert_dir : Option String → List String → List String
insert_dir none dirs = dirs
insert_dir (some dir) dirs = set_insert dir dirs

unfoldable pub collect_dirs : List String → List String → List String
collect_dirs [] dirs = dirs
collect_dirs (path ∷ paths) dirs = collect_dirs paths (insert_dir (top_level_dir path) dirs)

unfoldable pub find_top_level_mod_dirs : List String → List String
find_top_level_mod_dirs file_paths = collect_dirs file_paths []

unfoldable pub find_loose_files : List String → List String → List String
find_loose_files file_paths top_dirs =
    filter (λ p. not (any (λ d. starts_with p d) top_dirs)) file_paths
