-- ===== src/Sql/Keys.antt =====
-- INTEGER PRIMARY KEY AUTOINCREMENT: the keys of a table are distinct, and below the counter.
use mathlib.Core.List.Memᴰ as M
use quma_custom.Prelude.{
  ℕ, ◌+◌, ◌<◌, ◌≡◌, sym, ap, ◌∙◌, subst, Bool, List, [], ◌∷◌, ◌++◌, Memᴰ, arith, if◌then◌else◌,
  Bool-cases, inl, inr,
}
use quma_custom.Sql.{update_where, delete_where, mem_of_mem-delete_where}

-- Rows with the same key are the same row.
pub record IsKeyed {ℓ} {A : Type ℓ} (key : A → ℕ) (next : ℕ) (rows : List A) : Type ℓ where
  pub unique : (x y : A) → Memᴰ x rows → Memᴰ y rows → key x ≡ key y → x ≡ y
  pub below : (x : A) → Memᴰ x rows → key x < next

module _ {ℓ} {A : Type ℓ} (key : A → ℕ) where
  -- An update that leaves the key alone.
  pub update_where-IsKeyed :
      (p : A → Bool) (f : A → A) {next : ℕ} {rows : List A}
      → ((x : A) → key (f x) ≡ key x)
      → IsKeyed key next rows
      → IsKeyed key next (update_where p f rows)
  unfolding update_where
  update_where-IsKeyed p f {next} {rows} keeps h = record {
    unique = λ x y mx my e.
        let (a, ma, ea) = M.of_map changed rows mx in
        let (b, mb, eb) = M.of_map changed rows my in
        let same : a ≡ b =
          h.unique a b ma mb
            (sym (changed-key a) ∙ ap key ea ∙ e ∙ ap key (sym eb) ∙ changed-key b) in
        sym ea ∙ ap changed same ∙ eb;
    below = λ x m.
        let (a, ma, ea) = M.of_map changed rows m in
        subst (λ k. k < next) (sym (changed-key a) ∙ ap key ea) (h.below a ma);
  }
    where
      changed : A → A
      changed row = if p row then f row else row

      changed-key : (a : A) → key (changed a) ≡ key a
      changed-key a = elim (Bool-cases (p a)) [ inl hit ↦ rw hit (keeps a) | inr miss ↦ rw miss ]

  pub delete_where-IsKeyed :
      (p : A → Bool) {next : ℕ} {rows : List A}
      → IsKeyed key next rows
      → IsKeyed key next (delete_where p rows)
  delete_where-IsKeyed p {next} {rows} h = record {
    unique = λ x y mx my e.
        h.unique x y (mem_of_mem-delete_where p rows mx).0 (mem_of_mem-delete_where p rows my).0 e;
    below = λ x m. h.below x (mem_of_mem-delete_where p rows m).0;
  }

  -- An INSERT takes the counter's value as the key.
  pub insert-IsKeyed :
      {next : ℕ} {rows : List A} (row : A)
      → key row ≡ next
      → IsKeyed key next rows
      → IsKeyed key (next + 1) (rows ++ row ∷ [])
  insert-IsKeyed {next} {rows} row fresh h = record {
    unique = λ x y mx my e. elim (M.append_cases rows mx) [
      | inl old ↦ elim (M.append_cases rows my) [
        | inl old' ↦ h.unique x y old old' e
        | inr new' ↦
            let same = ap key (M.eq_of_singleton new') in absurd (omega (arith, h.below x old))
      ]
      | inr new ↦ elim (M.append_cases rows my) [
        | inl old' ↦
            let same = ap key (M.eq_of_singleton new) in absurd (omega (arith, h.below y old'))
        | inr new' ↦ M.eq_of_singleton new ∙ sym (M.eq_of_singleton new')
      ]
    ];
    below = λ x m. elim (M.append_cases rows m) [
      | inl old ↦ omega (arith, h.below x old)
      | inr new ↦ let same = ap key (M.eq_of_singleton new) in omega arith
    ];
  }
