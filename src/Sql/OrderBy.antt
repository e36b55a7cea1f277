-- ===== src/Sql/OrderBy.antt =====
-- ORDER BY over a total order of rows, and what deleting and inserting rows changes in it.
use mathlib.Core.List.Memᴰ as M
use quma_custom.Prelude.{
  ℕ, suc, ◌≡◌, refl, sym, ap, ◌∙◌, subst, ◌≢◌, inl, inr, Bool, true, false, Option, none, some,
  List, [], ◌∷◌, Memᴰ, nat_eq, string_eq, if◌then◌else◌, Bool-cases, length, filter,
  mem_of_mem-filter,
}
use quma_custom.Sql.Distinct.{Distinct}

-- The comparison is total and transitive.
pub record IsOrder {ℓ} {A : Type ℓ} (le : A → A → Bool) : Type ℓ where
  pub total : (x y : A) → le x y ≡ false → le y x ≡ true
  pub trans : (x y z : A) → le x y ≡ true → le y z ≡ true → le x z ≡ true

-- LIMIT 1
abbrev pub first {ℓ} : {A : Type ℓ} → List A → Option A
first [] = none
first (x ∷ xs) = some x

module _ {ℓ} {A : Type ℓ} (le : A → A → Bool) where
  abbrev pub insert : A → List A → List A
  insert x [] = x ∷ []
  insert x (y ∷ ys) = let rest = insert x ys in if le x y then x ∷ y ∷ ys else y ∷ rest

  -- ORDER BY
  abbrev pub order_by : List A → List A
  order_by [] = []
  order_by (x ∷ xs) = insert x (order_by xs)

  abbrev pub IsSorted : List A → Type ℓ
  IsSorted [] = Unit
  IsSorted (x ∷ xs) = ((y : A) → Memᴰ y xs → le x y ≡ true) × IsSorted xs

  mem_of_mem-insert : {y : A} (x : A) (xs : List A) → Memᴰ y (insert x xs) → Memᴰ y (x ∷ xs)
  mem_of_mem-insert x [] m = m
  mem_of_mem-insert x (z ∷ zs) m = elim (Bool-cases (le x z)) [
    | inl here ↦ rw here at m
    | inr later ↦ elim (M.cases_cons (rw later at m)) [
      | inl e ↦ Memᴰ.tail (Memᴰ.head e)
      | inr k ↦ elim (M.cases_cons (mem_of_mem-insert x zs k)) [
        | inl e ↦ Memᴰ.head e
        | inr k' ↦ Memᴰ.tail (Memᴰ.tail k')
      ]
    ]
  ]

  pub mem_of_mem-order_by : {y : A} (xs : List A) → Memᴰ y (order_by xs) → Memᴰ y xs
  mem_of_mem-order_by [] m = m
  mem_of_mem-order_by (x ∷ xs) m = elim (M.cases_cons (mem_of_mem-insert x (order_by xs) m)) [
    | inl e ↦ Memᴰ.head e
    | inr k ↦ Memᴰ.tail (mem_of_mem-order_by xs k)
  ]

  mem-insert : {y : A} (x : A) (xs : List A) → Memᴰ y (x ∷ xs) → Memᴰ y (insert x xs)
  mem-insert x [] m = m
  mem-insert {y} x (z ∷ zs) m = elim (Bool-cases (le x z)) [
    | inl here ↦ rw here m
    | inr later ↦ rw later (elim (M.cases_cons m) [
      | inl e ↦ Memᴰ.tail (mem-insert x zs (Memᴰ.head e))
      | inr k ↦ elim (M.cases_cons k) [
        | inl e ↦ Memᴰ.head e
        | inr k' ↦ Memᴰ.tail (mem-insert x zs (Memᴰ.tail k'))
      ]
    ])
  ]

  pub mem-order_by : {y : A} {xs : List A} → Memᴰ y xs → Memᴰ y (order_by xs)
  mem-order_by (Memᴰ.head {x = x} {xs = xs} e) = mem-insert x (order_by xs) (Memᴰ.head e)
  mem-order_by (Memᴰ.tail {x = x} {xs = xs} m) =
      mem-insert x (order_by xs) (Memᴰ.tail (mem-order_by m))

  pub length-insert : (x : A) (xs : List A) → length (insert x xs) ≡ suc (length xs)
  length-insert x [] = refl
  length-insert x (y ∷ ys) = elim (Bool-cases (le x y)) [
    | inl here ↦ rw here
    | inr later ↦ rw later (ap suc (length-insert x ys))
  ]

  pub length-order_by : (xs : List A) → length (order_by xs) ≡ length xs
  length-order_by [] = refl
  length-order_by (x ∷ xs) = length-insert x (order_by xs) ∙ ap suc (length-order_by xs)

  module _ (o : IsOrder le) where
    least_of_sorted :
        (x y : A) (ys : List A)
        → IsSorted (y ∷ ys)
        → le x y ≡ true
        → (z : A) → Memᴰ z (y ∷ ys)
        → le x z ≡ true
    least_of_sorted x y ys s here z m = elim (M.cases_cons m) [
      | inl e ↦ subst (λ w. le x w ≡ true) (sym e) here
      | inr k ↦ o.trans x y z here (s.0 z k)
    ]

    insert-IsSorted : (x : A) (xs : List A) → IsSorted xs → IsSorted (insert x xs)
    insert-IsSorted x [] s = ((λ y m. elim m [ ]), tt)
    insert-IsSorted x (y ∷ ys) s = elim (Bool-cases (le x y)) [
      | inl here ↦ rw here (least_of_sorted x y ys s here, s)
      | inr later ↦ rw later (
        λ z m. elim (M.cases_cons (mem_of_mem-insert x ys m)) [
          | inl e ↦ subst (λ w. le y w ≡ true) (sym e) (o.total x y later)
          | inr k ↦ s.0 z k
        ],
        insert-IsSorted x ys s.1,
      )
    ]

    pub order_by-IsSorted : (xs : List A) → IsSorted (order_by xs)
    order_by-IsSorted [] = tt
    order_by-IsSorted (x ∷ xs) = insert-IsSorted x (order_by xs) (order_by-IsSorted xs)

    -- A row that is before all others is put first.
    insert_first :
        (x : A) (xs : List A) → ((y : A) → Memᴰ y xs → le x y ≡ true) → insert x xs ≡ x ∷ xs
    insert_first x [] least = refl
    insert_first x (y ∷ ys) least = rw (least y (Memᴰ.head refl))

    filter-insert_out :
        (p : A → Bool) (x : A) (xs : List A) → p x ≡ false → filter p (insert x xs) ≡ filter p xs
    filter-insert_out p x [] out = rw out
    filter-insert_out p x (y ∷ ys) out = elim (Bool-cases (le x y)) [
      | inl here ↦ rw (here, out)
      | inr later ↦
          let rest = filter-insert_out p x ys out in
          rw later (ap (λ zs. if p y then y ∷ zs else zs) rest)
    ]

    filter-insert_in :
        (p : A → Bool) (x : A) (xs : List A)
        → IsSorted xs
        → p x ≡ true
        → filter p (insert x xs) ≡ insert x (filter p xs)
    filter-insert_in p x [] s in' = rw in'
    filter-insert_in p x (y ∷ ys) s in' = elim (Bool-cases (le x y)) [
      | inl here ↦
          rw (here, in')
            (sym (
              insert_first x (filter p (y ∷ ys))
                (λ z m. least_of_sorted x y ys s here z (mem_of_mem-filter p (y ∷ ys) m).0)))
      | inr later ↦
          let rest = filter-insert_in p x ys s.1 in' in
          elim (Bool-cases (p y)) [
            | inl keep ↦ rw (later, keep, later) (ap (λ zs. y ∷ zs) rest)
            | inr skip ↦ rw (later, skip) rest
          ]
    ]

    -- The rows that stay keep their order.
    pub order_by-filter :
        (p : A → Bool) (xs : List A) → order_by (filter p xs) ≡ filter p (order_by xs)
    order_by-filter p [] = refl
    order_by-filter p (x ∷ xs) = elim (Bool-cases (p x)) [
      | inl h ↦ rw h (
          ap (insert x) (order_by-filter p xs)
          ∙ sym (filter-insert_in p x (order_by xs) (order_by-IsSorted xs) h))
      | inr h ↦ rw h (order_by-filter p xs ∙ sym (filter-insert_out p x (order_by xs) h))
    ]

  pub order_by-Distinct : (key : A → ℕ) (xs : List A) → Distinct key xs → Distinct key (order_by xs)
  order_by-Distinct key [] d = tt
  order_by-Distinct key (x ∷ xs) d =
      insert-Distinct (order_by xs) (λ y m. d.0 y (mem_of_mem-order_by xs m))
        (order_by-Distinct key xs d.1)
    where
      insert-Distinct :
          (ys : List A)
          → ((y : A) → Memᴰ y ys → key y ≢ key x)
          → Distinct key ys
          → Distinct key (insert x ys)
      insert-Distinct [] apart d' = (λ y m. elim m [ ], tt)
      insert-Distinct (y ∷ ys) apart d' = elim (Bool-cases (le x y)) [
        | inl here ↦ rw here (apart, d')
        | inr later ↦ rw later (
          λ z m e. elim (M.cases_cons (mem_of_mem-insert x ys m)) [
            | inl same ↦ apart y (Memᴰ.head refl) (sym e ∙ ap key same)
            | inr k ↦ d'.0 z k e
          ],
          insert-Distinct ys (λ z m. apart z (Memᴰ.tail m)) d'.1,
        )
      ]
