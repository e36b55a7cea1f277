-- ===== src/Config/Migrated.antt =====
-- src/config.rs: a configuration that was brought up to date stays as it is.
use Prim.Native.String.{[]}
use quma_custom.Prelude.{
  ℕ, String, ◌≡◌, refl, sym, ap, ◌∙◌, subst, inl, inr, Bool, true, false, ◌||◌, Option, none, some,
  [], Memᴰ, nat_eq, string_eq, Option-cases, is_some, is_empty, List-cases,
}
use quma_custom.Config.Paths.{migrate_paths}
use quma_custom.Config.Groups.{
  ModSyncConfig, ModSyncGroup, Groups, get, insert, modify, remove, migrate_deprecated_paths,
  migrate_overrides_to_groups, seed, ensure_predefined_groups, is_predefined, no_headless, migrate,
  migrate_each,
}
use quma_custom.Config.PathLaws.{IsStable, migrate_paths-migrate_paths}
use quma_custom.Config.GroupLaws.{
  get-none, get-remove, remove_absent, get-insert, get-modify, modify_fixed, modify-modify,
  mem_of_mem-insert, get-modify_other, get-insert_other,
}

abbrev fix : ModSyncGroup → ModSyncGroup
fix g = record g { display_name = "No Headless"; exclude_headless = true }

-- The group for the headless client is there, and the reserved group is not.
abbrev IsSeeded : Groups → Type 0
IsSeeded gs =
    (get "default" gs ≡ none)
    × ((h : ModSyncGroup) × (get "no-headless" gs ≡ some h) × (is_predefined h ≡ true))
    × (modify "no-headless" fix gs ≡ gs)

modify-IsSeeded :
    (gs : Groups) (h : ModSyncGroup)
    → get "default" gs ≡ none
    → get "no-headless" gs ≡ some h
    → IsSeeded (modify "no-headless" fix gs)
modify-IsSeeded gs h absent found = (
  get-modify_other "no-headless" "default" fix gs absent,
  (fix h, get-modify "no-headless" fix gs h found, refl),
  modify-modify "no-headless" fix gs (λ g. refl),
)

insert-IsSeeded :
    (gs : Groups)
    → get "default" gs ≡ none
    → get "no-headless" gs ≡ none
    → IsSeeded (insert "no-headless" no_headless gs)
insert-IsSeeded gs absent missing = (
  get-insert_other "no-headless" "default" no_headless gs refl absent,
  (no_headless, get-insert "no-headless" no_headless gs, refl),
  modify_fixed "no-headless" fix (insert "no-headless" no_headless gs) (λ g m own.
      elim (mem_of_mem-insert "no-headless" no_headless gs m) [
        | inl e ↦ subst (λ z. fix z.1 ≡ z.1) (sym e) refl
        | inr k ↦ let clash = sym own ∙ get-none "no-headless" gs missing g k in absurd (cc)
      ]),
)

seed-IsSeeded : (gs : Groups) → get "default" gs ≡ none → IsSeeded (seed gs).1
unfolding seed
seed-IsSeeded gs absent = elim (Option-cases (get "no-headless" gs)) [
  | inl missing ↦ rw (missing, seed) (insert-IsSeeded gs absent missing)
  | inr (h, found) ↦ rw (found, seed) (modify-IsSeeded gs h absent found)
]

seed-seeded : (gs : Groups) → IsSeeded gs → seed gs ≡ (false, gs)
unfolding seed
seed-seeded gs (absent, (h, found, fine), fixed) = rw (found, seed, fine) (λ i. (false, fixed i))

module _ (parse : String → Option ℕ) (show : ℕ → String) where
  after_overrides :
      (ms : ModSyncConfig)
      → (gs : Groups) × ((migrate_overrides_to_groups parse show ms).1
          ≡ record ms { overrides = []; groups = gs })
  unfolding migrate_overrides_to_groups
  after_overrides ms = elim (List-cases ms.overrides) [
    | inl none_left ↦ (
      ms.groups,
      ap (λ z. z.1) (none_to_move none_left) ∙ (λ i. record ms { overrides = none_left i }),
    )
    | inr (o, os, e) ↦ (_, ap (λ z. z.1) (some_to_move (ap is_empty e)))
  ]
    where
      none_to_move : ms.overrides ≡ [] → migrate_overrides_to_groups parse show ms ≡ (false, ms)
      none_to_move e = rw (ap is_empty e, migrate_overrides_to_groups)

      some_to_move :
          is_empty ms.overrides ≡ false
          → migrate_overrides_to_groups parse show ms ≡ (
            true,
            record ms {
              overrides = [];
              groups = migrate_each parse show ms.groups ms.overrides ms.groups;
            },
          )
      some_to_move e = rw (e, migrate_overrides_to_groups)

  -- A configuration in the current form is not changed.
  migrate_settled :
      (ms : ModSyncConfig)
      → migrate_paths ms.extra_sync_paths ≡ (false, ms.extra_sync_paths)
      → migrate_paths ms.exclusions ≡ (false, ms.exclusions)
      → ms.overrides ≡ []
      → IsSeeded ms.groups
      → migrate parse show ms ≡ (false, ms)
  unfolding migrate migrate_deprecated_paths migrate_overrides_to_groups ensure_predefined_groups
  migrate_settled ms sync excl over seeded =
      ap after_paths paths_stay ∙ ap (after_moves false) overrides_stay ∙ groups_stay
    where
      seeding : ModSyncConfig → Bool × ModSyncConfig
      seeding m = ensure_predefined_groups (record m { groups = remove "default" m.groups })

      after_moves : Bool → Bool × ModSyncConfig → Bool × ModSyncConfig
      after_moves changed r =
          (changed || r.0 || is_some (get "default" r.1.groups) || (seeding r.1).0, (seeding r.1).1)

      after_paths : Bool × ModSyncConfig → Bool × ModSyncConfig
      after_paths r = after_moves r.0 (migrate_overrides_to_groups parse show r.1)

      paths_stay : migrate_deprecated_paths ms ≡ (false, ms)
      paths_stay = λ i. (
        (sync i).0 || (excl i).0,
        record ms { extra_sync_paths = (sync i).1; exclusions = (excl i).1 },
      )

      overrides_stay : migrate_overrides_to_groups parse show ms ≡ (false, ms)
      overrides_stay = rw (ap is_empty over, migrate_overrides_to_groups)

      groups_stay : after_moves false (false, ms) ≡ (false, ms)
      groups_stay =
          (λ i. (
            is_some (seeded.0 i) || (seed (remove_absent "default" ms.groups seeded.0 i)).0,
            record ms { groups = (seed (remove_absent "default" ms.groups seeded.0 i)).1 },
          ))
          ∙ (λ i. (
            (seed-seeded ms.groups seeded i).0,
            record ms { groups = (seed-seeded ms.groups seeded i).1 },
          ))

-- Loading brings a configuration up to date at once: where no path in the old form `../` leaves one in
-- an old form behind, migrating the result again changes nothing, so the file is not saved again.
pub migrate-migrate :
    (parse : String → Option ℕ) (show : ℕ → String) (ms : ModSyncConfig)
    → ((path : String) → Memᴰ path ms.extra_sync_paths → IsStable path)
    → ((path : String) → Memᴰ path ms.exclusions → IsStable path)
    → migrate parse show (migrate parse show ms).1 ≡ (false, (migrate parse show ms).1)
unfolding migrate migrate_deprecated_paths ensure_predefined_groups
migrate-migrate parse show ms sync excl =
    let first = record ms {
      extra_sync_paths = (migrate_paths ms.extra_sync_paths).1;
      exclusions = (migrate_paths ms.exclusions).1;
    } in
    let (gs, moved) = after_overrides parse show first in
    let settled = record first { overrides = []; groups = (seed (remove "default" gs)).1 } in
    let same : (migrate parse show ms).1 ≡ settled =
      ap {A = ModSyncConfig} {B = ModSyncConfig}
        (λ m. record m { groups = (seed (remove "default" m.groups)).1 }) moved in
    subst (λ z. migrate parse show z ≡ (false, z)) (sym same)
      (migrate_settled parse show settled (migrate_paths-migrate_paths ms.extra_sync_paths sync)
        (migrate_paths-migrate_paths ms.exclusions excl) refl
        (seed-IsSeeded (remove "default" gs) (get-remove "default" gs)))
