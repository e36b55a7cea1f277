-- ===== src/Config/Overrides.antt =====
-- src/config.rs: what becomes of a mod's override, and of the settings of the other mods.
use quma_custom.Prelude.{
  ℕ, String, ◌≡◌, ◌≢◌, Bool, true, not, Option, none, some, Memᴰ, ◌==◌, nat_eq, string_eq, filter,
}
use quma_custom.Config.Groups.{
  ModSyncGroup, ModSyncOverride, Groups, get, mod_to_group, over, override_slug, migrate_override,
}
use quma_custom.Config.Lookups.{has_member}

-- Each entry is the one that its key finds, as in a `BTreeMap`.
abbrev pub IsMap : Groups → Type 0
IsMap gs = (g : String × ModSyncGroup) → Memᴰ g gs → get g.0 gs ≡ some g.1

-- The settings that a mod has from its group, if it has one.
abbrev pub own_settings : Groups → ℕ → Option ModSyncGroup
own_settings groups id = elim (mod_to_group groups id) [ none ↦ none | some slug ↦ get slug groups ]

abbrev pub settings : ModSyncGroup → Option Bool × Option Bool × Option Bool × Option Bool
settings g = (g.enabled, g.enforced, g.silent, g.restart_required)

-- The settings of the override, and of the group where the override says nothing.
abbrev pub overridden :
    ModSyncOverride → Option ModSyncGroup → Option Bool × Option Bool × Option Bool × Option Bool
overridden ovr none = (ovr.enabled, ovr.enforced, ovr.silent, ovr.restart_required)
overridden ovr (some g) = (
  over ovr.enabled g.enabled,
  over ovr.enforced g.enforced,
  over ovr.silent g.silent,
  over ovr.restart_required g.restart_required,
)

-- The group is the only one that has the mod.
abbrev pub IsOnly : Groups → ℕ → String → Type 0
IsOnly gs id slug =
    (slug' : String) (g' : ModSyncGroup)
    → get slug' gs ≡ some g'
    → has_member id g' ≡ true
    → slug' ≡ slug

module _ (parse : String → Option ℕ) (show : ℕ → String) (before groups : Groups) (id : ℕ)
    (ovr : ModSyncOverride) where
  abbrev after : Groups
  after = migrate_override parse show before id ovr groups

  abbrev slug_of_own : String
  slug_of_own = override_slug parse show id

  -- The mod is in one group, and that has the settings of the override,
  abbrev pub IsApplied : Groups → Type 0
  IsApplied gs =
      (slug : String) × (g : ModSyncGroup) × (get slug gs ≡ some g)
      × (has_member id g ≡ true)
      × IsOnly gs id slug
      × (settings g ≡ overridden ovr (own_settings groups id))

  -- and each other member of a group keeps its group and its settings.
  abbrev pub IsKept : Groups → Type 0
  IsKept gs =
      (slug : String) (g : ModSyncGroup) (m : ℕ)
      → get slug groups ≡ some g
      → slug_of_own ≢ slug
      → has_member m g ≡ true
      → m ≢ id
      → (g' : ModSyncGroup) × (get slug gs ≡ some g')
        × (has_member m g' ≡ true)
        × (settings g' ≡ settings g)

  module _ (home : String) (group : ModSyncGroup) (in_group : mod_to_group groups id ≡ some home)
      (found_group : get home groups ≡ some group) (has_id : has_member id group ≡ true)
      (only : IsOnly groups id home) where
    abbrev leave : ModSyncGroup → ModSyncGroup
    leave g = record g { members = filter (λ m. not (m == id)) g.members }
