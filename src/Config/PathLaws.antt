-- ===== src/Config/PathLaws.antt =====
-- src/config.rs: a path that was migrated stays as it is.
use Prim.Native.Char.{Char}
use Prim.Native.String.append
use Prim.Native.String.{[], ◌∷◌, ◌++◌ as concat}
use quma_custom.Prelude.{
  String, ◌≡◌, refl, sym, ap, subst, inl, inr, Bool, true, false, ◌||◌, none, some, List, [], ◌∷◌,
  Memᴰ, ◌==◌, nat_eq, string_eq, Bool-cases, Option-cases, is_some, beq_ne,
}
use quma_custom.Config.Paths.{strip_prefix, migrate_path, migrate_paths}

abbrev letter : Char
letter = "S"

-- What is left of a path after `../` is not an old form itself.
abbrev pub IsStable : String → Type 0
IsStable path = (q : String) → strip_prefix path "../" ≡ some q → migrate_path q ≡ (false, q)

spt_path : (p : String) → migrate_path (concat "SPT/" p) ≡ (false, concat "SPT/" p)
unfolding migrate_path strip_prefix
spt_path p =
    subst (λ z. migrate_path z ≡ (false, z)) (sym (append.cons letter "PT/" p))
      (rw (
        beq_ne (letter ∷ concat "PT/" p) "user"
          (λ e. let clash : none ≡ some "" = ap (λ z. strip_prefix z "user") e in absurd (cc))))

-- Migrating a path again changes nothing.
migrate_path-migrate_path :
    (p : String) → IsStable p → migrate_path (migrate_path p).1 ≡ (false, (migrate_path p).1)
unfolding migrate_path
migrate_path-migrate_path p stable = elim (Option-cases (strip_prefix p "../")) [
  | inr (q, found) ↦ again (by_strip found) (stable q found)
  | inl plain ↦ elim (Bool-cases (is_some (strip_prefix p "user/") || (p == "user"))) [
    | inl old ↦ again (by_prefix plain old) (spt_path p)
    | inr new ↦ again (kept plain new) (kept plain new)
  ]
]
  where
    again :
        {b : Bool} {q : String}
        → migrate_path p ≡ (b, q)
        → migrate_path q ≡ (false, q)
        → migrate_path (migrate_path p).1 ≡ (false, (migrate_path p).1)
    again e h = subst (λ z. migrate_path z.1 ≡ (false, z.1)) (sym e) h

    by_strip : {q : String} → strip_prefix p "../" ≡ some q → migrate_path p ≡ (true, q)
    by_strip found = rw (found, migrate_path)

    by_prefix :
        strip_prefix p "../" ≡ none
        → (is_some (strip_prefix p "user/") || (p == "user")) ≡ true
        → migrate_path p ≡ (true, concat "SPT/" p)
    by_prefix plain old = rw (plain, old, migrate_path)

    kept :
        strip_prefix p "../" ≡ none
        → (is_some (strip_prefix p "user/") || (p == "user")) ≡ false
        → migrate_path p ≡ (false, p)
    kept plain new = rw (plain, new, migrate_path)

pub migrate_paths-migrate_paths :
    (ps : List String)
    → ((p : String) → Memᴰ p ps → IsStable p)
    → migrate_paths (migrate_paths ps).1 ≡ (false, (migrate_paths ps).1)
unfolding migrate_paths
migrate_paths-migrate_paths [] stable = refl
migrate_paths-migrate_paths (p ∷ ps) stable = rw (
  migrate_path-migrate_path p (stable p (Memᴰ.head refl)),
  migrate_paths-migrate_paths ps (λ q m. stable q (Memᴰ.tail m)),
)
