-- ===== src/Config/Groups.antt =====
-- src/config.rs: the configuration of mod sync, and what loading it brings up to date.
use Prim.Native.Nat.{Ordering}
use Prim.Native.String.{compare, ◌++◌ as concat}
use quma_custom.Prelude.{
  ℕ, String, Bool, true, false, not, ◌&&◌, ◌||◌, Option, none, some, List, [], ◌∷◌, map, ◌==◌,
  nat_eq, string_eq, if◌then◌else◌, is_some, length, any, filter, is_empty,
}
use quma_custom.Config.Paths.{migrate_paths}

pub record ModSyncOverride : Type 0 where
  pub enforced : Option Bool
  pub silent : Option Bool
  pub restart_required : Option Bool
  pub enabled : Option Bool

pub record ModSyncGroup : Type 0 where
  pub display_name : String
  pub members : List ℕ
  pub enabled : Option Bool
  pub enforced : Option Bool
  pub silent : Option Bool
  pub restart_required : Option Bool
  pub exclude_headless : Bool

-- A `BTreeMap` is the list of its entries in the order of their keys.
pub record ModSyncConfig : Type 0 where
  pub enabled : Bool
  pub enforced : Bool
  pub silent : Bool
  pub restart_required : Bool
  pub extra_sync_paths : List String
  pub exclusions : List String
  pub overrides : List (String × ModSyncOverride)
  pub groups : List (String × ModSyncGroup)

abbrev pub Groups : Type 0
Groups = List (String × ModSyncGroup)

unfoldable pub get : String → Groups → Option ModSyncGroup
get slug [] = none
get slug (g ∷ gs) = let rest = get slug gs in if g.0 == slug then some g.1 else rest

unfoldable pub insert : String → ModSyncGroup → Groups → Groups
insert slug group [] = (slug, group) ∷ []
insert slug group (g ∷ gs) =
    let rest = insert slug group gs in
    elim (compare slug g.0) [
      | Ordering.lt ↦ (slug, group) ∷ g ∷ gs
      | Ordering.eq ↦ (slug, group) ∷ gs
      | Ordering.gt ↦ g ∷ rest
    ]

-- What is done to the group behind a `get_mut`
unfoldable pub modify : String → (ModSyncGroup → ModSyncGroup) → Groups → Groups
modify slug f groups = map (λ g. if g.0 == slug then (g.0, f g.1) else g) groups

unfoldable pub remove : String → Groups → Groups
remove slug groups = filter (λ g. not (g.0 == slug)) groups

unfoldable pub migrate_deprecated_paths : ModSyncConfig → Bool × ModSyncConfig
migrate_deprecated_paths ms =
    let (sync_changed, extra_sync_paths) = migrate_paths ms.extra_sync_paths in
    let (changed, exclusions) = migrate_paths ms.exclusions in
    (
      sync_changed || changed,
      record ms { extra_sync_paths = extra_sync_paths; exclusions = exclusions },
    )

-- The map of members to groups; the last group that has a mod counts.
unfoldable pub mod_to_group : Groups → ℕ → Option String
mod_to_group [] id = none
mod_to_group (g ∷ gs) id = elim (mod_to_group gs id) [
  | some slug ↦ some slug
  | none ↦ if any (λ m. m == id) g.1.members then some g.0 else none
]

abbrev pub over : Option Bool → Option Bool → Option Bool
over none old = old
over (some b) old = some b

abbrev pub apply_override : ModSyncOverride → ModSyncGroup → ModSyncGroup
apply_override ovr group = record group {
  enabled = over ovr.enabled group.enabled;
  enforced = over ovr.enforced group.enforced;
  silent = over ovr.silent group.silent;
  restart_required = over ovr.restart_required group.restart_required;
}

abbrev pub no_headless : ModSyncGroup
no_headless = record {
  display_name = "No Headless";
  members = [];
  enabled = none;
  enforced = none;
  silent = none;
  restart_required = none;
  exclude_headless = true;
}

abbrev pub is_predefined : ModSyncGroup → Bool
is_predefined nh = nh.display_name == "No Headless" && nh.exclude_headless

unfoldable pub seed : Groups → Bool × Groups
seed groups = elim (get "no-headless" groups) [
  | some nh ↦ (
    not (is_predefined nh),
    modify "no-headless" (λ g. record g { display_name = "No Headless"; exclude_headless = true })
        groups,
  )
  | none ↦ (true, insert "no-headless" no_headless groups)
]

unfoldable pub ensure_predefined_groups : ModSyncConfig → Bool × ModSyncConfig
ensure_predefined_groups ms =
    let (changed, groups) = seed ms.groups in (changed, record ms { groups = groups })

-- `parse` reads a number and `show` prints one.
module _ (parse : String → Option ℕ) (show : ℕ → String) where
  abbrev pub override_slug : ℕ → String
  override_slug id = concat "override-" (show id)

  abbrev pub split_group : ℕ → ModSyncOverride → ModSyncGroup → Groups → Groups
  split_group id ovr group groups =
      insert (override_slug id)
        (apply_override ovr
          (record group { display_name = concat "Mod #" (show id); members = id ∷ [] }))
        groups

  abbrev pub own_group : ℕ → ModSyncOverride → ModSyncGroup
  own_group id ovr = record {
    display_name = concat "Mod #" (show id);
    members = id ∷ [];
    enabled = ovr.enabled;
    enforced = ovr.enforced;
    silent = ovr.silent;
    restart_required = ovr.restart_required;
    exclude_headless = false;
  }

  -- The group of the mod before the migration, if any, and what is there now.
  unfoldable pub migrate_override : Groups → ℕ → ModSyncOverride → Groups → Groups
  migrate_override before id ovr groups = elim (mod_to_group before id) [
    | none ↦ insert (override_slug id) (own_group id ovr) groups
    | some slug ↦ elim (get slug groups) [
      | none ↦ groups
      | some group ↦
          if length group.members == 1
          then modify slug (apply_override ovr) groups
          else split_group id ovr group (
              modify slug (λ g. record g { members = filter (λ m. not (m == id)) g.members })
                groups)
    ]
  ]

  unfoldable pub migrate_each : Groups → List (String × ModSyncOverride) → Groups → Groups
  migrate_each before [] groups = groups
  migrate_each before (o ∷ os) groups =
      migrate_each before os
        (elim (parse o.0) [ none ↦ groups | some id ↦ migrate_override before id o.1 groups ])

  unfoldable pub migrate_overrides_to_groups : ModSyncConfig → Bool × ModSyncConfig
  migrate_overrides_to_groups ms = if is_empty ms.overrides then (false, ms) else (
    true,
    record ms { overrides = []; groups = migrate_each ms.groups ms.overrides ms.groups },
  )

  -- What `load` does to the table, and whether it saves the file.
  unfoldable pub migrate : ModSyncConfig → Bool × ModSyncConfig
  migrate ms =
      let (paths_changed, ms1) = migrate_deprecated_paths ms in
      let (overrides_changed, ms2) = migrate_overrides_to_groups ms1 in
      let had_default = is_some (get "default" ms2.groups) in
      let (seeded, ms3) =
        ensure_predefined_groups (record ms2 { groups = remove "default" ms2.groups }) in
      (paths_changed || overrides_changed || had_default || seeded, ms3)
