-- ===== src/Tests/DepsTests.antt =====
-- The dependents of a mod, in a table with a cycle, and the properties at it.
use quma_custom.Prelude.{
  ℕ, ◌≡◌, refl, ◌≢◌, ◌↔◌, false, none, some, List, [], ◌∷◌, map, Memᴰ, nat_eq, string_eq,
}
use quma_custom.Recovery.State.{InstalledMod}
use quma_custom.Deps.Collect
use quma_custom.Deps.Collect.{Db, ModDependency, collect_all_reverse_deps}
use quma_custom.Deps.Invariant.{IsDependent}
use quma_custom.Deps.Correct.{collect_all_reverse_deps_complete}

abbrev a_mod : ℕ → InstalledMod
a_mod id = record {
  id = id;
  forge_mod_id = none;
  forge_version_id = none;
  name = "m";
  slug = none;
  version = "1.0.0";
  installed_at = "2026-01-01";
  updated_at = none;
  disabled = false;
  source = "forge";
  source_url = none;
}

abbrev edge : ℕ → ℕ → ModDependency
edge a b = record { id = 1; mod_id = a; depends_on_mod_id = b; version_constraint = none }

-- 3 needs 2, 2 needs 1, and 1 needs 3; 4 needs nothing.
abbrev ring : Db
ring = record {
  mods = a_mod 1 ∷ a_mod 2 ∷ a_mod 3 ∷ a_mod 4 ∷ [];
  dependencies = edge 3 2 ∷ edge 2 1 ∷ edge 1 3 ∷ [];
}

ring-dependents : collect_all_reverse_deps 1 ring ≡ some (a_mod 2 ∷ a_mod 3 ∷ [])
unfolding collect_all_reverse_deps Collect.drain Collect.expand Collect.offer_all Collect.offer
    Collect.get_mod Collect.get_reverse_dependencies quma_custom.Sql.find_where
ring-dependents = refl

collect_all_reverse_deps_complete_example :
    (rs : List InstalledMod) × (collect_all_reverse_deps 1 ring ≡ some rs)
    × ((v : ℕ) → Memᴰ v (map InstalledMod.id rs) ↔ ((v ≢ 1) × IsDependent ring 1 v))
collect_all_reverse_deps_complete_example = collect_all_reverse_deps_complete 1 ring
