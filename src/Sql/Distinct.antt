-- ===== src/Sql/Distinct.antt =====
-- No key of a table stands in two of its rows.
use mathlib.Core.List.Memᴰ as M
use quma_custom.Prelude.{
  ℕ, ◌≡◌, ◌≢◌, refl, sym, ap, ◌∙◌, Bool, List, [], ◌∷◌, ◌++◌, map, filter, Memᴰ, arith,
  if◌then◌else◌, Bool-cases, inl, inr, mem_of_mem-filter,
}
use quma_custom.Sql.{update_where}
use quma_custom.Sql.Keys.{IsKeyed}

abbrev pub Distinct {ℓ} : {A : Type ℓ} → (A → ℕ) → List A → Type ℓ
Distinct key [] = Unit
Distinct {A = A} key (x ∷ xs) = ((y : A) → Memᴰ y xs → key y ≢ key x) × Distinct key xs

module _ {ℓ} {A : Type ℓ} (key : A → ℕ) where
  map-Distinct :
      (f : A → A) (xs : List A)
      → ((x : A) → key (f x) ≡ key x)
      → Distinct key xs
      → Distinct key (map f xs)
  map-Distinct f [] keeps d = tt
  map-Distinct f (x ∷ xs) keeps d = (
    λ y m e.
        let (a, ma, ea) = M.of_map f xs m in d.0 a ma (sym (keeps a) ∙ ap key ea ∙ e ∙ keeps x),
    map-Distinct f xs keeps d.1,
  )

  pub update_where-Distinct :
      (p : A → Bool) (f : A → A) (xs : List A)
      → ((x : A) → key (f x) ≡ key x)
      → Distinct key xs
      → Distinct key (update_where p f xs)
  unfolding update_where
  update_where-Distinct p f xs keeps d = map-Distinct changed xs changed-key d
    where
      changed : A → A
      changed row = if p row then f row else row

      changed-key : (a : A) → key (changed a) ≡ key a
      changed-key a = elim (Bool-cases (p a)) [ inl hit ↦ rw hit (keeps a) | inr miss ↦ rw miss ]

  append-Distinct :
      (xs : List A) (row : A)
      → ((x : A) → Memᴰ x xs → key x ≢ key row)
      → Distinct key xs
      → Distinct key (xs ++ row ∷ [])
  append-Distinct [] row apart d = (λ y m. elim m [ ], tt)
  append-Distinct (x ∷ xs) row apart d = (
    λ y m e. elim (M.append_cases xs m) [
      | inl old ↦ d.0 y old e
      | inr new ↦ apart x (Memᴰ.head refl) (sym e ∙ ap key (M.eq_of_singleton new))
    ],
    append-Distinct xs row (λ y m. apart y (Memᴰ.tail m)) d.1,
  )

  pub insert-Distinct :
      {next : ℕ} (xs : List A) (row : A)
      → key row ≡ next
      → IsKeyed key next xs
      → Distinct key xs
      → Distinct key (xs ++ row ∷ [])
  insert-Distinct {next} xs row fresh k d =
      append-Distinct xs row (λ x m e. omega (arith, k.below x m)) d

  pub filter-Distinct : (p : A → Bool) (xs : List A) → Distinct key xs → Distinct key (filter p xs)
  filter-Distinct p [] d = tt
  filter-Distinct p (x ∷ xs) d = elim (Bool-cases (p x)) [
    | inl hit ↦ rw hit (λ y m. d.0 y (mem_of_mem-filter p xs m).0, filter-Distinct p xs d.1)
    | inr miss ↦ rw miss (filter-Distinct p xs d.1)
  ]

  -- Two rows with the same key are one.
  pub Distinct-unique :
      (xs : List A) {x y : A} → Distinct key xs → Memᴰ x xs → Memᴰ y xs → key x ≡ key y → x ≡ y
  Distinct-unique [] d mx my e = elim mx [ ]
  Distinct-unique (z ∷ zs) {x} {y} d (Memᴰ.head ex) (Memᴰ.head ey) e = ex ∙ sym ey
  Distinct-unique (z ∷ zs) {x} {y} d (Memᴰ.head ex) (Memᴰ.tail my) e =
      absurd (d.0 y my (sym e ∙ ap key ex))
  Distinct-unique (z ∷ zs) {x} {y} d (Memᴰ.tail mx) (Memᴰ.head ey) e =
      absurd (d.0 x mx (e ∙ ap key ey))
  Distinct-unique (z ∷ zs) d (Memᴰ.tail mx) (Memᴰ.tail my) e = Distinct-unique zs d.1 mx my e
