-- ===== src/Toggle/TopLevel.antt =====
-- src/ops.rs: which directories and loose files are found.
use mathlib.Core.List.Memᴰ as M
use Prim.Native.String.{compare}
use text.Mathlib.Text.{starts_with}
use text.Mathlib.TextEquality.{path_by_compare}
use quma_custom.Prelude.{
  String, ◌≡◌, refl, sym, ap, ◌∙◌, ◌↔◌, ◌⊎◌, inl, inr, true, false, not, Option, none, some, List,
  [], ◌∷◌, Memᴰ, nat_eq, string_eq, Option-cases, any, mem-any, mem_of_mem-filter,
}
use quma_custom.Prelude.Texts.{Ordering-cases}
use quma_custom.Toggle.Paths.{
  top_level_dir, set_insert, insert_dir, collect_dirs, find_top_level_mod_dirs, find_loose_files,
}
use quma_custom.Toggle.Classify.{IsDirOf, top_level_dir_iff}
use quma_custom.Toggle.Prefix.{top_level_dir-starts_with}

mem-set_insert :
    {y : String} (x : String) (xs : List String) → Memᴰ y (x ∷ xs) → Memᴰ y (set_insert x xs)
unfolding set_insert
mem-set_insert x [] m = m
mem-set_insert {y} x (z ∷ zs) m = elim (Ordering-cases (compare x z)) [
  | inl less ↦ rw (less, set_insert) m
  | inr (inl same) ↦
      rw (same, set_insert)
        (elim (M.cases_cons m) [ inl e ↦ Memᴰ.head (e ∙ path_by_compare x z same) | inr k ↦ k ])
  | inr (inr more) ↦
      rw (more, set_insert)
        (elim (M.cases_cons m) [
          | inl e ↦ Memᴰ.tail (mem-set_insert x zs (Memᴰ.head e))
          | inr k ↦ elim (M.cases_cons k) [
            | inl e ↦ Memᴰ.head e
            | inr k' ↦ Memᴰ.tail (mem-set_insert x zs (Memᴰ.tail k'))
          ]
        ])
]

mem_of_mem-set_insert :
    {y : String} (x : String) (xs : List String) → Memᴰ y (set_insert x xs) → Memᴰ y (x ∷ xs)
unfolding set_insert
mem_of_mem-set_insert x [] m = m
mem_of_mem-set_insert {y} x (z ∷ zs) m = elim (Ordering-cases (compare x z)) [
  | inl less ↦ rw (less, set_insert) at m
  | inr (inl same) ↦ Memᴰ.tail (rw (same, set_insert) at m)
  | inr (inr more) ↦ elim (M.cases_cons (rw (more, set_insert) at m)) [
    | inl e ↦ Memᴰ.tail (Memᴰ.head e)
    | inr k ↦ elim (M.cases_cons (mem_of_mem-set_insert x zs k)) [
      | inl e ↦ Memᴰ.head e
      | inr k' ↦ Memᴰ.tail (Memᴰ.tail k')
    ]
  ]
]

mem-insert_dir :
    {y : String} (o : Option String) (xs : List String) → Memᴰ y xs → Memᴰ y (insert_dir o xs)
mem-insert_dir none xs m = m
mem-insert_dir (some x) xs m = mem-set_insert x xs (Memᴰ.tail m)

mem-collect_dirs :
    {y : String} (paths xs : List String) → Memᴰ y xs → Memᴰ y (collect_dirs paths xs)
unfolding collect_dirs
mem-collect_dirs [] xs m = m
mem-collect_dirs (p ∷ ps) xs m =
    mem-collect_dirs ps (insert_dir (top_level_dir p) xs) (mem-insert_dir (top_level_dir p) xs m)

collected :
    {path dir : String} (paths xs : List String)
    → Memᴰ path paths
    → top_level_dir path ≡ some dir
    → Memᴰ dir (collect_dirs paths xs)
unfolding collect_dirs
collected [] xs m found = elim m [ ]
collected (p ∷ ps) xs m found = elim (M.cases_cons m) [
  | inl e ↦
      mem-collect_dirs ps (insert_dir (top_level_dir p) xs)
        (rw (ap top_level_dir (sym e) ∙ found) (mem-set_insert _ xs (Memᴰ.head refl)))
  | inr k ↦ collected ps (insert_dir (top_level_dir p) xs) k found
]

source_of :
    {dir : String} (paths xs : List String)
    → Memᴰ dir (collect_dirs paths xs)
    → Memᴰ dir xs ⊎ ((path : String) × Memᴰ path paths × (top_level_dir path ≡ some dir))
unfolding collect_dirs
source_of [] xs m = inl m
source_of (p ∷ ps) xs m = elim (source_of ps (insert_dir (top_level_dir p) xs) m) [
  | inr (path, k, found) ↦ inr (path, Memᴰ.tail k, found)
  | inl k ↦ elim (Option-cases (top_level_dir p)) [
    | inl no_dir ↦ inl (rw no_dir at k)
    | inr (x, found) ↦ elim (M.cases_cons (mem_of_mem-set_insert x xs (rw found at k))) [
      | inl e ↦ inr (p, Memᴰ.head refl, found ∙ ap some (sym e))
      | inr k' ↦ inl k'
    ]
  ]
]

-- The directories that are found are those of the paths in `SPT/user/mods/` and below a directory in
-- `BepInEx/plugins/`, a file that stands in the latter itself having none; and a path that has a
-- directory is not a loose file.
pub find_top_level_mod_dirs_iff :
    (paths : List String) (dir : String)
    → (Memᴰ dir (find_top_level_mod_dirs paths)
        ↔ ((path : String) × Memᴰ path paths × IsDirOf path dir))
      × ((path : String)
          → ¬ (
              Memᴰ path (find_loose_files paths (find_top_level_mod_dirs paths))
              × IsDirOf path dir))
unfolding find_top_level_mod_dirs find_loose_files
find_top_level_mod_dirs_iff paths dir = (
  (
    λ m. elim (source_of paths [] m) [
      | inl k ↦ elim k [ ]
      | inr (path, k, found) ↦ (path, k, (top_level_dir_iff path dir).0 found)
    ],
    λ (path, k, is_dir). collected paths [] k ((top_level_dir_iff path dir).1 is_dir),
  ),
  λ path (loose, is_dir).
      let found = (top_level_dir_iff path dir).1 is_dir in
      let (k, apart) =
        mem_of_mem-filter (λ p. not (any (λ d. starts_with p d) (collect_dirs paths []))) paths
          loose in
      let hit =
        mem-any (λ d. starts_with path d) (collected paths [] k found)
          (top_level_dir-starts_with path found) in
      let clash : false ≡ true = rw hit at apart in absurd (cc),
)
