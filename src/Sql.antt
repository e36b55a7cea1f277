-- ===== src/Sql.antt =====
-- How the SQL statements in src/db/*.rs read and write a table: a table is the list of its rows, in
-- the order of insertion. A statement that violates a constraint has no effect and is an error.
pub mod Keys
pub mod Distinct
pub mod Count
pub mod OrderBy
use quma_custom.Prelude.{
  ◌⊎◌, ℕ, suc, ◌<◌, ◌≡◌, refl, ap, Bool, true, false, not, Option, none, some, List, [], ◌∷◌, ◌++◌,
  map, Memᴰ, arith, inl, inr, length, filter, any, find, if◌then◌else◌, Bool-cases, mem-filter,
  mem_of_mem-filter, sym, ◌∙◌, subst,
}
use mathlib.Core.List.Memᴰ as M

pub data DbError : Type 0 where
  query_returned_no_rows constraint_violation : DbError

-- `rusqlite::Result`
pub data Result {ℓ} (A : Type ℓ) : Type ℓ where
  ok : A → Result A
  err : DbError → Result A

pub Result-cases {ℓ} :
    {A : Type ℓ} (r : Result A) → ((e : DbError) × (r ≡ err e)) ⊎ ((a : A) × (r ≡ ok a))
Result-cases (ok a) = inr (a, refl)
Result-cases (err e) = inl (e, refl)

infixl 5 ◌>>=◌
abbrev pub ◌>>=◌ {ℓ κ} : {A : Type ℓ} {B : Type κ} → Result A → (A → Result B) → Result B
ok a >>= f = f a
err e >>= f = err e

-- The tables after a transaction: an error rolls it back.
abbrev pub after {ℓ κ} : {A : Type ℓ} {S : Type κ} → S → Result (A × S) → S
after s (ok r) = r.1
after s (err e) = s

abbrev pub after_write {ℓ} : {S : Type ℓ} → S → Result S → S
after_write s (ok s') = s'
after_write s (err e) = s

module _ {ℓ} {A : Type ℓ} where
  -- SELECT COUNT(*) FROM t WHERE p
  unfoldable pub count_where : (A → Bool) → List A → ℕ
  count_where p rows = length (filter p rows)

  -- UPDATE t SET f WHERE p
  unfoldable pub update_where : (A → Bool) → (A → A) → List A → List A
  update_where p f rows = map (λ row. if p row then f row else row) rows

  -- DELETE FROM t WHERE p
  unfoldable pub delete_where : (A → Bool) → List A → List A
  delete_where p rows = filter (λ row. not (p row)) rows

  -- The row of a `query_row(…).optional()` on a key
  unfoldable pub find_where : (A → Bool) → List A → Option A
  find_where p rows = find p rows

-- The rows of `xs` joined with those that `f` gives for each.
unfoldable pub flat_map {ℓ κ} : {A : Type ℓ} {B : Type κ} → (A → List B) → List A → List B
flat_map f [] = []
flat_map f (x ∷ xs) = f x ++ flat_map f xs

module _ {ℓ κ} {A : Type ℓ} {B : Type κ} (f : A → List B) where
  pub mem-flat_map :
      {x : A} {y : B} {xs : List A} → Memᴰ x xs → Memᴰ y (f x) → Memᴰ y (flat_map f xs)
  unfolding flat_map
  mem-flat_map {x} {y} (Memᴰ.head {x = z} e) m = M.append_left _ (subst (λ w. Memᴰ y (f w)) e m)
  mem-flat_map (Memᴰ.tail {x = z} k) m = M.append_right (f z) (mem-flat_map k m)

  pub mem_of_mem-flat_map :
      {y : B} (xs : List A) → Memᴰ y (flat_map f xs) → (x : A) × Memᴰ x xs × Memᴰ y (f x)
  unfolding flat_map
  mem_of_mem-flat_map [] m = elim m [ ]
  mem_of_mem-flat_map {y} (z ∷ zs) m = elim (M.append_cases (f z) m) [
    | inl here ↦ (z, Memᴰ.head refl, here)
    | inr later ↦ let (x, k, r) = mem_of_mem-flat_map zs later in (x, Memᴰ.tail k, r)
  ]

module _ {ℓ} {A : Type ℓ} (p : A → Bool) where
  length_pos_of_mem : {x : A} {xs : List A} → Memᴰ x xs → 0 < length xs
  length_pos_of_mem (Memᴰ.head e) = omega arith
  length_pos_of_mem (Memᴰ.tail m) = omega arith

  pub count_where_pos : {x : A} {xs : List A} → Memᴰ x xs → p x ≡ true → 0 < count_where p xs
  unfolding count_where
  count_where_pos m h = length_pos_of_mem (mem-filter p m h)

  pub row_of_count_where : (xs : List A) → 0 < count_where p xs → (x : A) × Memᴰ x xs × (p x ≡ true)
  unfolding count_where
  row_of_count_where [] h = absurd (omega arith)
  row_of_count_where (y ∷ ys) h = elim (Bool-cases (p y)) [
    | inl hit ↦ (y, Memᴰ.head refl, hit)
    | inr miss ↦ let (x, m, e) = row_of_count_where ys (rw miss at h) in (x, Memᴰ.tail m, e)
  ]

  mem-map_eq : (f : A → A) {x y : A} {xs : List A} → f x ≡ y → Memᴰ x xs → Memᴰ y (map f xs)
  mem-map_eq f {xs = xs} e m = subst (λ w. Memᴰ w (map f xs)) e (M.map f m)

  pub mem-update_where_hit :
      (f : A → A) {x : A} {xs : List A} → Memᴰ x xs → p x ≡ true → Memᴰ (f x) (update_where p f xs)
  unfolding update_where
  mem-update_where_hit f m h = mem-map_eq (λ row. if p row then f row else row) (rw h) m

  pub mem-update_where_miss :
      (f : A → A) {x : A} {xs : List A} → Memᴰ x xs → p x ≡ false → Memᴰ x (update_where p f xs)
  unfolding update_where
  mem-update_where_miss f m h = mem-map_eq (λ row. if p row then f row else row) (rw h) m

  pub mem-delete_where :
      {x : A} {xs : List A} → Memᴰ x xs → p x ≡ false → Memᴰ x (delete_where p xs)
  unfolding delete_where
  mem-delete_where m h = mem-filter (λ row. not (p row)) m (rw h)

  pub mem_of_mem-delete_where :
      {x : A} (xs : List A) → Memᴰ x (delete_where p xs) → Memᴰ x xs × (p x ≡ false)
  unfolding delete_where
  mem_of_mem-delete_where xs m =
      let (k, e) = mem_of_mem-filter (λ row. not (p row)) xs m in (k, ground arith)

  pub find_where-some : (xs : List A) (x : A) → find_where p xs ≡ some x → Memᴰ x xs × (p x ≡ true)
  unfolding find_where
  find_where-some [] x h = absurd (cc)
  find_where-some (y ∷ ys) x h = elim (Bool-cases (p y)) [
    | inl hit ↦ let e : y ≡ x = ground arith in (Memᴰ.head (sym e), ap p (sym e) ∙ hit)
    | inr miss ↦ let (m, e) = find_where-some ys x (rw miss at h) in (Memᴰ.tail m, e)
  ]

-- A row is found again after an update that leaves the search alone, in its new form.
pub find_where-update_where {ℓ} :
    {A : Type ℓ} (q p : A → Bool) (f : A → A) (rows : List A) (r : A)
    → ((x : A) → q (f x) ≡ q x)
    → find_where q rows ≡ some r
    → find_where q (update_where p f rows) ≡ some (if p r then f r else r)
unfolding find_where update_where
find_where-update_where q p f [] r keeps e = absurd (cc)
find_where-update_where q p f (x ∷ xs) r keeps e = elim (Bool-cases (q x)) [
  | inl hit ↦
      let same : x ≡ r = ground arith in
      let changed_hit : q (if p x then f x else x) ≡ true = elim (Bool-cases (p x)) [
        | inl y ↦ rw y (keeps x ∙ hit)
        | inr n ↦ rw n hit
      ] in
      rw changed_hit (ap (λ z. some (if p z then f z else z)) same)
  | inr miss ↦
      let changed_miss : q (if p x then f x else x) ≡ false = elim (Bool-cases (p x)) [
        | inl y ↦ rw y (keeps x ∙ miss)
        | inr n ↦ rw n miss
      ] in
      rw changed_miss (find_where-update_where q p f xs r keeps (rw miss at e))
]

-- An update that misses every row of a search, whatever it does to the others.
pub find_where-update_where_other {ℓ} :
    {A : Type ℓ} (q p : A → Bool) (f : A → A) (rows : List A)
    → ((x : A) → q (f x) ≡ q x)
    → ((x : A) → q x ≡ true → p x ≡ false)
    → find_where q (update_where p f rows) ≡ find_where q rows
unfolding find_where update_where
find_where-update_where_other q p f [] keeps apart = refl
find_where-update_where_other q p f (x ∷ xs) keeps apart =
    let rest = find_where-update_where_other q p f xs keeps apart in
    elim (Bool-cases (p x)) [
      | inl changed ↦ elim (Bool-cases (q x)) [
        | inl hit ↦ let no_change = apart x hit in absurd (cc)
        | inr miss ↦ let still : q (f x) ≡ false = keeps x ∙ miss in rw (changed, still, miss) rest
      ]
      | inr same ↦ elim (Bool-cases (q x)) [
        | inl hit ↦ rw (same, hit)
        | inr miss ↦ rw (same, miss) rest
      ]
    ]

pub find_where-append {ℓ} :
    {A : Type ℓ} (q : A → Bool) (rows : List A) (r : A)
    → find_where q (rows ++ r ∷ [])
      ≡ elim (find_where q rows) [ some x ↦ some x | none ↦ (if q r then some r else none) ]
unfolding find_where
find_where-append q [] r = refl
find_where-append q (x ∷ xs) r = elim (Bool-cases (q x)) [
  | inl hit ↦ rw hit
  | inr miss ↦ rw miss (find_where-append q xs r)
]
