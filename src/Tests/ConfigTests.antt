-- ===== src/Tests/ConfigTests.antt =====
-- src/config.rs: slugs and a configuration in an old form.
use quma_custom.Prelude.{
  sym, ◌∙◌, ℕ, String, ◌≡◌, refl, sym, ap, ◌∙◌, subst, ◌≢◌, true, false, Option, none, some, [],
  ◌∷◌, Memᴰ, arith, ◌==◌, nat_eq, string_eq, if◌then◌else◌, some_injective, length,
}
use quma_custom.Config.Slugs.{chars, slugify, validate_group_slug}
use quma_custom.Config.SlugLaws.{validate_group_slug-slugify}
use quma_custom.Config.Paths.{strip_prefix, migrate_path}
use quma_custom.Config.PathLaws.{IsStable}
use quma_custom.Config.Groups.{
  get, ModSyncConfig, ModSyncGroup, ModSyncOverride, migrate, migrate_override, get,
}
use quma_custom.Config.Migrated.{migrate-migrate}

quality_mods : slugify (chars " Quality of Life!! ") ≡ chars "quality-of-life"
unfolding slugify chars quma_custom.Config.Slugs.collapse quma_custom.Config.Slugs.fold_char
    quma_custom.Config.Slugs.trim_end
quality_mods = refl

is_text : slugify (chars " Quality of Life!! ") ≢ []
unfolding chars
is_text e = let clash = sym quality_mods ∙ e in absurd (cc)

not_default : slugify (chars " Quality of Life!! ") ≢ chars "default"
unfolding chars
not_default e = let clash = sym quality_mods ∙ e in absurd (cc)

abbrev fifteen : ℕ
fifteen = 15

lengths_differ : fifteen ≢ 11
lengths_differ e = omega arith

not_headless : slugify (chars " Quality of Life!! ") ≢ chars "no-headless"
unfolding chars
not_headless e = lengths_differ (ap length (sym quality_mods ∙ e))

validate_group_slug-slugify_example :
    validate_group_slug (slugify (chars " Quality of Life!! ")) ≡ none
validate_group_slug-slugify_example =
    validate_group_slug-slugify (chars " Quality of Life!! ") is_text not_default not_headless

abbrev forced : ModSyncOverride
forced = record { enforced = some true; silent = none; restart_required = none; enabled = none }

abbrev pair : ModSyncGroup
pair = record {
  display_name = "Pair";
  members = 5 ∷ 6 ∷ [];
  enabled = none;
  enforced = none;
  silent = some true;
  restart_required = none;
  exclude_headless = false;
}

abbrev old_form : ModSyncConfig
old_form = record {
  enabled = true;
  enforced = false;
  silent = false;
  restart_required = true;
  extra_sync_paths = "../BepInEx/config" ∷ "user/cache" ∷ [];
  exclusions = [];
  overrides = ("5", forced) ∷ [];
  groups = ("default", pair) ∷ ("pair", pair) ∷ [];
}

abbrev read : String → Option ℕ
read s = if s == "5" then some 5 else none

abbrev print : ℕ → String
print n = "5"

-- The mod is taken out of its group into one of its own.
mod_is_split :
    get "override-5" (migrate read print old_form).1.groups
    ≡ some (record pair { display_name = "Mod #5"; members = 5 ∷ []; enforced = some true })
unfolding migrate get quma_custom.Config.Groups.ensure_predefined_groups
    quma_custom.Config.Groups.seed quma_custom.Config.Groups.remove
    quma_custom.Config.Groups.migrate_overrides_to_groups
    quma_custom.Config.Groups.migrate_deprecated_paths quma_custom.Config.Groups.migrate_each
    quma_custom.Config.Groups.migrate_override quma_custom.Config.Groups.mod_to_group
    quma_custom.Config.Groups.insert quma_custom.Config.Groups.modify
mod_is_split = refl

old_paths-IsStable :
    (path : String) → Memᴰ path ("../BepInEx/config" ∷ "user/cache" ∷ []) → IsStable path
unfolding strip_prefix migrate_path
old_paths-IsStable path (Memᴰ.head e) =
    subst IsStable (sym e) (λ q f. subst (λ z. migrate_path z ≡ (false, z)) (some_injective f) refl)
old_paths-IsStable path (Memᴰ.tail (Memᴰ.head e)) = subst IsStable (sym e) (λ q f. absurd (cc))
old_paths-IsStable path (Memᴰ.tail (Memᴰ.tail m)) = elim m [ ]

migrate-migrate_example :
    migrate read print (migrate read print old_form).1 ≡ (false, (migrate read print old_form).1)
migrate-migrate_example =
    migrate-migrate read print old_form old_paths-IsStable (λ path m. elim m [ ])
