-- ===== src/Config/GroupLaws.antt =====
-- src/config.rs: the map of groups.
use mathlib.Core.List.Memᴰ as M
use Prim.Native.Nat.{Ordering}
use Prim.Native.String.{[], ◌∷◌, compare}
use text.Mathlib.TextPositions.{compare_refl}
use quma_custom.Prelude.{
  some_injective, String, ◌≡◌, refl, sym, ap, ◌∙◌, ◌⊎◌, inl, inr, true, false, none, some, [], ◌∷◌,
  map, Memᴰ, ◌==◌, nat_eq, string_eq, if◌then◌else◌, Bool-cases, beq_self, beq_ne,
}
use quma_custom.Prelude.Texts.{Ordering-cases}
use quma_custom.Config.Groups.{ModSyncGroup, Groups, get, insert, modify, remove}

module _ (slug : String) where
  pub get-none :
      (gs : Groups)
      → get slug gs ≡ none
      → (g : String × ModSyncGroup) → Memᴰ g gs
      → (g.0 == slug) ≡ false
  unfolding get
  get-none [] h g m = elim m [ ]
  get-none (x ∷ xs) h g m = elim (Bool-cases (x.0 == slug)) [
    | inl hit ↦ let clash = rw (hit, get) at h in absurd (cc)
    | inr miss ↦ elim (M.cases_cons m) [
      | inl e ↦ ap (λ z. z.0 == slug) e ∙ miss
      | inr k ↦ get-none xs (rw (miss, get) at h) g k
    ]
  ]

  pub get-remove : (gs : Groups) → get slug (remove slug gs) ≡ none
  unfolding get remove
  get-remove [] = refl
  get-remove (x ∷ xs) = elim (Bool-cases (x.0 == slug)) [
    | inl hit ↦ rw hit (get-remove xs)
    | inr miss ↦ rw (miss, miss) (get-remove xs)
  ]

  pub remove_absent : (gs : Groups) → get slug gs ≡ none → remove slug gs ≡ gs
  unfolding get remove
  remove_absent [] h = refl
  remove_absent (x ∷ xs) h = elim (Bool-cases (x.0 == slug)) [
    | inl hit ↦ let clash = rw (hit, get) at h in absurd (cc)
    | inr miss ↦ rw miss (ap (λ z. x ∷ z) (remove_absent xs (rw (miss, get) at h)))
  ]

  pub get-insert : (v : ModSyncGroup) (gs : Groups) → get slug (insert slug v gs) ≡ some v
  unfolding get insert
  get-insert v [] = rw (beq_self slug)
  get-insert v (x ∷ xs) = elim (Ordering-cases (compare slug x.0)) [
    | inl less ↦ rw (less, insert, get, beq_self slug)
    | inr (inl same) ↦ rw (same, insert, get, beq_self slug)
    | inr (inr more) ↦
        rw
          (
            more,
            insert,
            get,
            beq_ne x.0 slug (λ e.
                let clash : Ordering.eq ≡ Ordering.gt =
                  sym (compare_refl slug) ∙ ap (compare slug) (sym e) ∙ more in
                absurd (cc)),
          )
          (get-insert v xs)
  ]

  pub get-modify :
      (f : ModSyncGroup → ModSyncGroup) (gs : Groups) (v : ModSyncGroup)
      → get slug gs ≡ some v
      → get slug (modify slug f gs) ≡ some (f v)
  unfolding get modify
  get-modify f [] v h = absurd (cc)
  get-modify f (x ∷ xs) v h = elim (Bool-cases (x.0 == slug)) [
    | inl hit ↦
        rw (hit, hit)
          (let same : some x.1 ≡ some v = rw (hit, get) at h in
            ap (λ z. some (f z)) (some_injective same))
    | inr miss ↦ rw (miss, miss) (get-modify f xs v (rw (miss, get) at h))
  ]

  pub modify_fixed :
      (f : ModSyncGroup → ModSyncGroup) (gs : Groups)
      → ((g : String × ModSyncGroup) → Memᴰ g gs → (g.0 == slug) ≡ true → f g.1 ≡ g.1)
      → modify slug f gs ≡ gs
  unfolding modify
  modify_fixed f [] h = refl
  modify_fixed f (x ∷ xs) h =
      let rest = modify_fixed f xs (λ g m. h g (Memᴰ.tail m)) in
      elim (Bool-cases (x.0 == slug)) [
        | inl hit ↦ rw hit (λ i. (x.0, h x (Memᴰ.head refl) hit i) ∷ rest i)
        | inr miss ↦ rw miss (ap (λ z. x ∷ z) rest)
      ]

  pub modify-modify :
      (f : ModSyncGroup → ModSyncGroup) (gs : Groups)
      → ((g : ModSyncGroup) → f (f g) ≡ f g)
      → modify slug f (modify slug f gs) ≡ modify slug f gs
  unfolding modify
  modify-modify f [] h = refl
  modify-modify f (x ∷ xs) h =
      let rest = modify-modify f xs h in
      elim (Bool-cases (x.0 == slug)) [
        | inl hit ↦ rw (hit, hit) (λ i. (x.0, h x.1 i) ∷ rest i)
        | inr miss ↦ rw (miss, miss) (ap (λ z. x ∷ z) rest)
      ]

  pub mem_of_mem-insert :
      {g : String × ModSyncGroup} (v : ModSyncGroup) (gs : Groups)
      → Memᴰ g (insert slug v gs)
      → (g ≡ (slug, v)) ⊎ Memᴰ g gs
  unfolding insert
  mem_of_mem-insert v [] m = elim (M.cases_cons m) [ inl e ↦ inl e | inr k ↦ elim k [ ] ]
  mem_of_mem-insert {g} v (x ∷ xs) m = elim (Ordering-cases (compare slug x.0)) [
    | inl less ↦ M.cases_cons (rw (less, insert) at m)
    | inr (inl same) ↦ elim (M.cases_cons (rw (same, insert) at m)) [
      | inl e ↦ inl e
      | inr k ↦ inr (Memᴰ.tail k)
    ]
    | inr (inr more) ↦ elim (M.cases_cons (rw (more, insert) at m)) [
      | inl e ↦ inr (Memᴰ.head e)
      | inr k ↦ elim (mem_of_mem-insert v xs k) [ inl e ↦ inl e | inr k' ↦ inr (Memᴰ.tail k') ]
    ]
  ]

pub get_absent :
    (slug : String) (gs : Groups)
    → ((g : String × ModSyncGroup) → Memᴰ g gs → (g.0 == slug) ≡ false)
    → get slug gs ≡ none
unfolding get
get_absent slug [] h = refl
get_absent slug (x ∷ xs) h =
    rw (h x (Memᴰ.head refl)) (get_absent slug xs (λ g m. h g (Memᴰ.tail m)))

pub get-modify_other :
    (slug other : String) (f : ModSyncGroup → ModSyncGroup) (gs : Groups)
    → get other gs ≡ none
    → get other (modify slug f gs) ≡ none
unfolding modify
get-modify_other slug other f gs h = get_absent other (map changed gs) (λ g m.
    let (x, k, e) = M.of_map changed gs m in
    ap (λ z. z.0 == other) (sym e) ∙ ap (λ z. z == other) (same_key x) ∙ get-none other gs h x k)
  where
    changed : String × ModSyncGroup → String × ModSyncGroup
    changed g = if g.0 == slug then (g.0, f g.1) else g

    same_key : (x : String × ModSyncGroup) → (changed x).0 ≡ x.0
    same_key x = elim (Bool-cases (x.0 == slug)) [ inl hit ↦ rw hit | inr miss ↦ rw miss ]

pub get-insert_other :
    (slug other : String) (v : ModSyncGroup) (gs : Groups)
    → (slug == other) ≡ false
    → get other gs ≡ none
    → get other (insert slug v gs) ≡ none
get-insert_other slug other v gs apart h = get_absent other (insert slug v gs) (λ g m.
    elim (mem_of_mem-insert slug v gs m) [
      | inl e ↦ ap (λ z. z.0 == other) e ∙ apart
      | inr k ↦ get-none other gs h g k
    ])
