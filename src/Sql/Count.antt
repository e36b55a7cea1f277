-- ===== src/Sql/Count.antt =====
-- How many rows of a table a selection counts.
use quma_custom.Prelude.{
  ◌<◌, ◌+◌, ◌≤◌, ◌≡◌, refl, sym, ap, ◌∙◌, inl, inr, Bool, true, false, some, List, [], ◌∷◌, ◌++◌,
  Memᴰ, arith, nat_eq, string_eq, if◌then◌else◌, Bool-cases, any, filter,
}
use quma_custom.Sql.{count_where, update_where, delete_where, find_where, count_where_pos}

module _ {ℓ} {A : Type ℓ} where
  -- Rows of a smaller selection are fewer.
  pub count-filter_le :
      (p q : A → Bool) (xs : List A) → count_where p (filter q xs) ≤ count_where p xs
  unfolding count_where
  count-filter_le p q [] = ground arith
  count-filter_le p q (x ∷ xs) =
      let below = count-filter_le p q xs in
      elim (Bool-cases (q x)) [
        | inl y ↦
            rw y
              (elim (Bool-cases (p x)) [ inl h ↦ rw h (omega (arith, below)) | inr h ↦ rw h below ])
        | inr n ↦
            rw n
              (elim (Bool-cases (p x)) [ inl h ↦ rw h (omega (arith, below)) | inr h ↦ rw h below ])
      ]

  -- An update that makes no row satisfy `p` that did not.
  pub count-update_where_le :
      (p q : A → Bool) (f : A → A) (xs : List A)
      → ((x : A) → q x ≡ true → p (f x) ≡ true → p x ≡ true)
      → count_where p (update_where q f xs) ≤ count_where p xs
  unfolding count_where update_where
  count-update_where_le p q f [] no_new = ground arith
  count-update_where_le p q f (x ∷ xs) no_new =
      let below = count-update_where_le p q f xs no_new in
      elim (Bool-cases (q x)) [
        | inl y ↦ rw y (elim (Bool-cases (p (f x))) [
          | inl h ↦ let old = no_new x y h in rw (h, old) (omega (arith, below))
          | inr h ↦
              rw h (elim (Bool-cases (p x)) [
                | inl k ↦ rw k (omega (arith, below))
                | inr k ↦ rw k below
              ])
        ])
        | inr n ↦
            rw n
              (elim (Bool-cases (p x)) [ inl k ↦ rw k (omega (arith, below)) | inr k ↦ rw k below ])
      ]

  pub count-none : (p : A → Bool) (xs : List A) → any p xs ≡ false → count_where p xs ≡ 0
  unfolding count_where
  count-none p [] h = refl
  count-none p (x ∷ xs) h = elim (Bool-cases (p x)) [
    | inl y ↦ absurd (ground arith)
    | inr n ↦ rw n (count-none p xs (rw n at h))
  ]

  -- Adding a row adds at most one to a count.
  pub count-append :
      (p : A → Bool) (xs : List A) (y : A)
      → count_where p (xs ++ y ∷ []) ≡ count_where p xs + (if p y then 1 else 0)
  unfolding count_where
  count-append p [] y = elim (Bool-cases (p y)) [
    | inl h ↦ rw h (ground arith)
    | inr h ↦ rw h (ground arith)
  ]
  count-append p (x ∷ xs) y =
      let rest = count-append p xs y in
      elim (Bool-cases (p x)) [ inl h ↦ rw h (omega (arith, rest)) | inr h ↦ rw h rest ]

  -- The only row of a selection is the one that is found.
  pub find_where-only :
      (p : A → Bool) (xs : List A) {y : A}
      → count_where p xs ≤ 1
      → Memᴰ y xs
      → p y ≡ true
      → find_where p xs ≡ some y
  unfolding find_where count_where
  find_where-only p [] one m h = elim m [ ]
  find_where-only p (x ∷ xs) {y} one (Memᴰ.head e) h =
      let hit : p x ≡ true = ap p (sym e) ∙ h in rw hit (ap some (sym e))
  find_where-only p (x ∷ xs) one (Memᴰ.tail m) h = elim (Bool-cases (p x)) [
    | inl y ↦ let more = count_where_pos p m h in absurd (omega (arith, rw y at one))
    | inr n ↦ rw n (find_where-only p xs (rw n at one) m h)
  ]

  -- A row that is found, and not deleted, is found again.
  pub find_where-delete_where :
      (q p : A → Bool) (xs : List A) (r : A)
      → p r ≡ false
      → find_where q xs ≡ some r
      → find_where q (delete_where p xs) ≡ some r
  unfolding find_where delete_where
  find_where-delete_where q p [] r kept found = absurd (cc)
  find_where-delete_where q p (x ∷ xs) r kept found = elim (Bool-cases (q x)) [
    | inl hit ↦
        let same : x ≡ r = ground arith in
        let stays : p x ≡ false = ap p same ∙ kept in rw (stays, hit) (ap some same)
    | inr miss ↦
        let rest = find_where-delete_where q p xs r kept (rw miss at found) in
        elim (Bool-cases (p x)) [ inl gone ↦ rw gone rest | inr stays ↦ rw (stays, miss) rest ]
  ]

  -- A weaker test counts more rows,
  pub count_mono :
      (p q : A → Bool) (xs : List A)
      → ((x : A) → p x ≡ true → q x ≡ true)
      → count_where p xs ≤ count_where q xs
  unfolding count_where
  count_mono p q [] weaker = ground arith
  count_mono p q (x ∷ xs) weaker =
      let below = count_mono p q xs weaker in
      elim (Bool-cases (p x)) [
        | inl y ↦ rw (y, weaker x y) (omega (arith, below))
        | inr n ↦
            rw n
              (elim (Bool-cases (q x)) [ inl h ↦ rw h (omega (arith, below)) | inr h ↦ rw h below ])
      ]

  -- and strictly more if it holds of a row that the other fails.
  pub count_mono_strict :
      (p q : A → Bool) (xs : List A) {m : A}
      → ((x : A) → p x ≡ true → q x ≡ true)
      → Memᴰ m xs
      → p m ≡ false
      → q m ≡ true
      → count_where p xs < count_where q xs
  unfolding count_where
  count_mono_strict p q [] weaker k fails holds = elim k [ ]
  count_mono_strict p q (x ∷ xs) weaker (Memᴰ.head e) fails holds =
      let below = count_mono p q xs weaker in
      let fails' : p x ≡ false = ap p (sym e) ∙ fails in
      let holds' : q x ≡ true = ap q (sym e) ∙ holds in rw (fails', holds') (omega (arith, below))
  count_mono_strict p q (x ∷ xs) weaker (Memᴰ.tail k) fails holds =
      let below = count_mono_strict p q xs weaker k fails holds in
      elim (Bool-cases (p x)) [
        | inl y ↦ rw (y, weaker x y) (omega (arith, below))
        | inr n ↦
            rw n
              (elim (Bool-cases (q x)) [ inl h ↦ rw h (omega (arith, below)) | inr h ↦ rw h below ])
      ]
