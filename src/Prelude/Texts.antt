-- ===== src/Prelude/Texts.antt =====
-- The order in which SQLite's BINARY collation and Rust compare texts, unit by unit.
use Prim.Native.Nat.{ℕ, Ordering, compare as compare_nat}
use Prim.Native.Char.{code}
use Prim.Native.String.compare
use Prim.Native.String.{String, [], ◌∷◌, compare, then}
use mathlib.Core.Path.{◌≡◌, refl, sym, ap, ◌∙◌, subst}
use mathlib.Core.Bool.{Bool, true, false}
use mathlib.Core.Logic.{◌⊎◌, inl, inr}
use native.Mathlib.Omega.{arith}
use quma_custom.Prelude.Tests.{leb}
use text.Mathlib.TextEquality.{codes_equal, path_by_compare}

pub Ordering-cases : (o : Ordering) → (o ≡ Ordering.lt) ⊎ ((o ≡ Ordering.eq) ⊎ (o ≡ Ordering.gt))
Ordering-cases Ordering.lt = inl refl
Ordering-cases Ordering.eq = inr (inl refl)
Ordering-cases Ordering.gt = inr (inr refl)

nat_flip : (m n : ℕ) → compare_nat m n ≡ Ordering.gt → compare_nat n m ≡ Ordering.lt
nat_flip m n h = ground arith

nat_trans :
    (l m n : ℕ)
    → compare_nat l m ≡ Ordering.lt
    → compare_nat m n ≡ Ordering.lt
    → compare_nat l n ≡ Ordering.lt
nat_trans l m n h k = ground arith

nat_same : (m n : ℕ) → m ≡ n → compare_nat m n ≡ Ordering.eq
nat_same m n h = ground arith

-- Where `then o r` is `lt`, `o` is, or `o` is `eq` and `r` is.
then_lt :
    (o r : Ordering)
    → then o r ≡ Ordering.lt
    → (o ≡ Ordering.lt) ⊎ ((o ≡ Ordering.eq) × (r ≡ Ordering.lt))
then_lt Ordering.lt r h = inl refl
then_lt Ordering.eq r h = inr (refl, h)
then_lt Ordering.gt r h = absurd (cc)

then_gt :
    (o r : Ordering)
    → then o r ≡ Ordering.gt
    → (o ≡ Ordering.gt) ⊎ ((o ≡ Ordering.eq) × (r ≡ Ordering.gt))
then_gt Ordering.lt r h = absurd (cc)
then_gt Ordering.eq r h = inr (refl, h)
then_gt Ordering.gt r h = inl refl

-- A text after another is one that the other is before,
pub compare_flip : (s t : String) → compare s t ≡ Ordering.gt → compare t s ≡ Ordering.lt
compare_flip [] [] h = let clash = sym compare.nil-nil ∙ h in absurd (cc)
compare_flip [] (d ∷ t) h = let clash = sym (compare.nil-cons d t) ∙ h in absurd (cc)
compare_flip (c ∷ s) [] h = compare.nil-cons c s
compare_flip (c ∷ s) (d ∷ t) h =
    let units = compare_nat (code c) (code d) in
    compare.cons-cons d c t s
    ∙ elim (then_gt units (compare s t) (sym (compare.cons-cons c d s t) ∙ h)) [
      | inl more ↦ ap (λ o. then o (compare t s)) (nat_flip (code c) (code d) more)
      | inr (same, rest) ↦
          ap (λ o. then o (compare t s))
            (nat_same (code d) (code c) (sym (ap code (codes_equal c d same))))
          ∙ compare_flip s t rest
    ]

-- and to be before is transitive.
pub compare_trans :
    (s t u : String)
    → compare s t ≡ Ordering.lt
    → compare t u ≡ Ordering.lt
    → compare s u ≡ Ordering.lt
compare_trans [] [] u h k = let clash = sym compare.nil-nil ∙ h in absurd (cc)
compare_trans (c ∷ s) [] u h k = let clash = sym (compare.cons-nil c s) ∙ h in absurd (cc)
compare_trans s (d ∷ t) [] h k = let clash = sym (compare.cons-nil d t) ∙ k in absurd (cc)
compare_trans [] (d ∷ t) (e ∷ u) h k = compare.nil-cons e u
compare_trans (c ∷ s) (d ∷ t) (e ∷ u) h k =
    compare.cons-cons c e s u
    ∙ elim (then_lt (compare_nat (code c) (code d)) (compare s t)
        (sym (compare.cons-cons c d s t) ∙ h)) [
          | inl less ↦ ap (λ o. then o (compare s u)) (first less)
          | inr (same, rest) ↦ later same (λ rest'. compare_trans s t u rest rest')
        ]
  where
    after :
        (compare_nat (code d) (code e) ≡ Ordering.lt)
        ⊎ ((compare_nat (code d) (code e) ≡ Ordering.eq) × (compare t u ≡ Ordering.lt))
    after =
        then_lt (compare_nat (code d) (code e)) (compare t u) (sym (compare.cons-cons d e t u) ∙ k)

    first :
        compare_nat (code c) (code d) ≡ Ordering.lt → compare_nat (code c) (code e) ≡ Ordering.lt
    first less = elim after [
      | inl less' ↦ nat_trans (code c) (code d) (code e) less less'
      | inr (same, rest) ↦
          subst (λ z. compare_nat (code c) (code z) ≡ Ordering.lt) (codes_equal d e same) less
    ]

    later :
        compare_nat (code c) (code d) ≡ Ordering.eq
        → (compare t u ≡ Ordering.lt → compare s u ≡ Ordering.lt)
        → then (compare_nat (code c) (code e)) (compare s u) ≡ Ordering.lt
    later same rest = elim after [
      | inl less ↦
          ap (λ o. then o (compare s u))
            (subst (λ z. compare_nat (code z) (code e) ≡ Ordering.lt) (sym (codes_equal c d same))
              less)
      | inr (same', rest') ↦
          ap (λ o. then o (compare s u))
            (nat_same (code c) (code e)
              (ap code (codes_equal c d same) ∙ ap code (codes_equal d e same')))
          ∙ rest rest'
    ]

-- Whether a pair of a text and a number is before another or the same, by how the texts compare.
abbrev decide_pair : Ordering → ℕ → ℕ → Bool
decide_pair Ordering.lt m n = true
decide_pair Ordering.eq m n = leb m n
decide_pair Ordering.gt m n = false

abbrev pub pair_le : String → ℕ → String → ℕ → Bool
pair_le s m t n = decide_pair (compare s t) m n

pub pair_le_total :
    (s : String) (m : ℕ) (t : String) (n : ℕ) → pair_le s m t n ≡ false → pair_le t n s m ≡ true
pair_le_total s m t n h = elim (Ordering-cases (compare s t)) [
  | inl less ↦ let clash : true ≡ false = rw less at h in absurd (cc)
  | inr (inl same) ↦
      let p = path_by_compare s t same in
      let same' : compare t s ≡ Ordering.eq = (λ i. compare (sym p i) (p i)) ∙ same in
      let later : leb m n ≡ false = rw same at h in rw same' (ground arith)
  | inr (inr more) ↦ rw (compare_flip s t more)
]

pub pair_le_trans :
    (s : String) (l : ℕ) (t : String) (m : ℕ) (u : String) (n : ℕ)
    → pair_le s l t m ≡ true
    → pair_le t m u n ≡ true
    → pair_le s l u n ≡ true
pair_le_trans s l t m u n h k = elim (Ordering-cases (compare s t)) [
  | inl less ↦ elim (Ordering-cases (compare t u)) [
    | inl less' ↦ rw (compare_trans s t u less less')
    | inr (inl same') ↦
        let e = subst (λ z. compare s z ≡ Ordering.lt) (path_by_compare t u same') less in rw e
    | inr (inr more) ↦ let clash : false ≡ true = rw more at k in absurd (cc)
  ]
  | inr (inl same) ↦ elim (Ordering-cases (compare t u)) [
    | inl less' ↦
        let e = subst (λ z. compare z u ≡ Ordering.lt) (sym (path_by_compare s t same)) less' in
        rw e
    | inr (inl same') ↦
        let e = subst (λ z. compare z u ≡ Ordering.eq) (sym (path_by_compare s t same)) same' in
        let first : leb l m ≡ true = rw same at h in
        let second : leb m n ≡ true = rw same' at k in rw e (ground arith)
    | inr (inr more) ↦ let clash : false ≡ true = rw more at k in absurd (cc)
  ]
  | inr (inr more) ↦ let clash : false ≡ true = rw more at h in absurd (cc)
]

abbrev pub text_le : String → String → Bool
text_le s t = pair_le s 0 t 0
