-- ===== src/Config/Lookups.antt =====
-- src/config.rs: which entry of the map of groups a lookup finds.
use Prim.Native.String.{compare}
use text.Mathlib.TextEquality.{path_by_compare}
use quma_custom.Prelude.{
  eq_iff, ℕ, String, ◌≡◌, refl, sym, ap, ◌∙◌, inl, inr, Bool, true, false, some, [], ◌∷◌, Memᴰ,
  ◌==◌, nat_eq, string_eq, if◌then◌else◌, Bool-cases, some_injective, Option-cases, any,
}
use quma_custom.Prelude.Texts.{Ordering-cases}
use quma_custom.Config.Groups.{ModSyncGroup, Groups, get, insert, modify, mod_to_group}

abbrev pub has_member : ℕ → ModSyncGroup → Bool
has_member id g = any (λ m. m == id) g.members

module _ (slug other : String) (apart : (slug == other) ≡ false) where
  pub get-insert_apart :
      (v : ModSyncGroup) (gs : Groups) → get other (insert slug v gs) ≡ get other gs
  unfolding get insert
  get-insert_apart v [] = rw apart
  get-insert_apart v (x ∷ xs) = elim (Ordering-cases (compare slug x.0)) [
    | inl less ↦ rw (less, insert, get, apart)
    | inr (inl same) ↦
        let own : (x.0 == other) ≡ false =
          ap (λ z. z == other) (sym (path_by_compare slug x.0 same)) ∙ apart in
        rw (same, insert, get, apart, own)
    | inr (inr more) ↦
        rw (more, insert, get)
          (ap (λ z. if x.0 == other then some x.1 else z) (get-insert_apart v xs))
  ]

  pub get-modify_apart :
      (f : ModSyncGroup → ModSyncGroup) (gs : Groups) → get other (modify slug f gs) ≡ get other gs
  unfolding get modify
  get-modify_apart f [] = refl
  get-modify_apart f (x ∷ xs) = elim (Bool-cases (x.0 == slug)) [
    | inl hit ↦
        let key = (eq_iff x.0 slug).0 hit in
        let own : (x.0 == other) ≡ false = ap (λ z. z == other) key ∙ apart in
        rw (hit, own) (get-modify_apart f xs)
    | inr miss ↦ rw miss (ap (λ z. if x.0 == other then some x.1 else z) (get-modify_apart f xs))
  ]

pub mod_to_group-some :
    (gs : Groups) (id : ℕ) (slug : String)
    → mod_to_group gs id ≡ some slug
    → (g : ModSyncGroup) × Memᴰ (slug, g) gs × (has_member id g ≡ true)
unfolding mod_to_group
mod_to_group-some [] id slug h = absurd (cc)
mod_to_group-some (x ∷ xs) id slug h = elim (Option-cases (mod_to_group xs id)) [
  | inr (s, later) ↦
      let same : some s ≡ some slug = rw (later, mod_to_group) at h in
      let (g, m, has) = mod_to_group-some xs id slug (later ∙ same) in (g, Memᴰ.tail m, has)
  | inl none_later ↦ elim (Bool-cases (has_member id x.1)) [
    | inl here ↦
        let same : some x.0 ≡ some slug = rw (none_later, here, mod_to_group) at h in
        (x.1, Memᴰ.head (ap (λ z. (z, x.1)) (sym (some_injective same))), here)
    | inr absent ↦ let clash = rw (none_later, absent, mod_to_group) at h in absurd (cc)
  ]
]
