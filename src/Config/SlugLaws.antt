-- ===== src/Config/SlugLaws.antt =====
-- src/config.rs: what `slugify` gives is a slug that `validate_group_slug` accepts.
use quma_custom.Prelude.{
  ℕ, zero, suc, ◌≤◌, ◌≡◌, refl, ◌≢◌, inl, inr, Bool, true, false, not, ◌&&◌, none, List, [], ◌∷◌,
  map, arith, ltb, le→ltb, ◌==◌, nat_eq, string_eq, Bool-cases, nat_beq_iff, length, take, any,
  is_empty,
}
use quma_custom.Config.Slugs.{
  chars, hyphen, byte_len, fold_char, collapse, trim_end, slugify, starts_with_hyphen,
  ends_with_hyphen, is_allowed, same_text, validate_group_slug,
}

fold_char-allowed : (c : ℕ) → is_allowed (fold_char c) ≡ true
unfolding fold_char
fold_char-allowed c = ground arith

allowed_small : (c : ℕ) → is_allowed c ≡ true → ltb c 128 ≡ true
allowed_small c h = ground arith

-- All characters of a text are allowed.
abbrev AllAllowed : List ℕ → Type 0
AllAllowed xs = any (λ ch. not (is_allowed ch)) xs ≡ false

AllAllowed-map : (xs : List ℕ) → AllAllowed (map fold_char xs)
AllAllowed-map [] = refl
AllAllowed-map (x ∷ xs) = rw (fold_char-allowed x) (AllAllowed-map xs)

AllAllowed-cons :
    (x : ℕ) (xs : List ℕ) → AllAllowed (x ∷ xs) → (is_allowed x ≡ true) × AllAllowed xs
AllAllowed-cons x xs h = elim (Bool-cases (is_allowed x)) [
  | inl fine ↦ (fine, rw fine at h)
  | inr bad ↦ let clash : true ≡ false = rw bad at h in absurd (cc)
]

AllAllowed-collapse : (prev : Bool) (xs : List ℕ) → AllAllowed xs → AllAllowed (collapse prev xs)
unfolding collapse
AllAllowed-collapse prev [] h = refl
AllAllowed-collapse prev (x ∷ xs) h =
    let (fine, rest) = AllAllowed-cons x xs h in
    elim (Bool-cases (x == hyphen)) [
      | inl dash ↦ elim (Bool-cases prev) [
        | inl p ↦ rw (dash, p) (AllAllowed-collapse true xs rest)
        | inr p ↦ rw (dash, p, fine) (AllAllowed-collapse true xs rest)
      ]
      | inr other ↦ rw (other, fine) (AllAllowed-collapse false xs rest)
    ]

AllAllowed-take : (n : ℕ) (xs : List ℕ) → AllAllowed xs → AllAllowed (take n xs)
AllAllowed-take zero xs h = refl
AllAllowed-take (suc n) [] h = refl
AllAllowed-take (suc n) (x ∷ xs) h =
    let (fine, rest) = AllAllowed-cons x xs h in rw fine (AllAllowed-take n xs rest)

AllAllowed-trim_end : (xs : List ℕ) → AllAllowed xs → AllAllowed (trim_end xs)
unfolding trim_end
AllAllowed-trim_end [] h = refl
AllAllowed-trim_end (x ∷ xs) h =
    let (fine, rest) = AllAllowed-cons x xs h in
    elim (Bool-cases (is_empty (trim_end xs) && (x == hyphen))) [
      | inl cut ↦ rw cut
      | inr stays ↦ rw (stays, fine) (AllAllowed-trim_end xs rest)
    ]

-- Allowed characters take a byte each.
byte_len-allowed : (xs : List ℕ) → AllAllowed xs → byte_len xs ≡ length xs
unfolding byte_len
byte_len-allowed [] h = refl
byte_len-allowed (x ∷ xs) h =
    let (fine, rest) = AllAllowed-cons x xs h in
    rw (allowed_small x fine) (omega (arith, byte_len-allowed xs rest))

length-trim_end_le : (xs : List ℕ) → length (trim_end xs) ≤ length xs
unfolding trim_end
length-trim_end_le [] = omega arith
length-trim_end_le (x ∷ xs) = elim (Bool-cases (is_empty (trim_end xs) && (x == hyphen))) [
  | inl cut ↦ rw cut (omega arith)
  | inr stays ↦ rw stays (omega (arith, length-trim_end_le xs))
]

length-take_le : (n : ℕ) (xs : List ℕ) → length (take n xs) ≤ n
length-take_le zero xs = omega arith
length-take_le (suc n) [] = omega arith
length-take_le (suc n) (x ∷ xs) = omega (arith, length-take_le n xs)

starts_with_hyphen-collapse : (xs : List ℕ) → starts_with_hyphen (collapse true xs) ≡ false
unfolding collapse
starts_with_hyphen-collapse [] = refl
starts_with_hyphen-collapse (x ∷ xs) = elim (Bool-cases (x == hyphen)) [
  | inl dash ↦ rw dash (starts_with_hyphen-collapse xs)
  | inr other ↦ rw other other
]

starts_with_hyphen-take :
    (n : ℕ) (xs : List ℕ) → starts_with_hyphen xs ≡ false → starts_with_hyphen (take n xs) ≡ false
starts_with_hyphen-take zero xs h = refl
starts_with_hyphen-take (suc n) [] h = refl
starts_with_hyphen-take (suc n) (x ∷ xs) h = h

starts_with_hyphen-trim_end :
    (xs : List ℕ) → starts_with_hyphen xs ≡ false → starts_with_hyphen (trim_end xs) ≡ false
unfolding trim_end
starts_with_hyphen-trim_end [] h = refl
starts_with_hyphen-trim_end (x ∷ xs) h =
    elim (Bool-cases (is_empty (trim_end xs) && (x == hyphen))) [
      | inl cut ↦ rw cut
      | inr stays ↦ rw stays h
    ]

ends_with_hyphen-trim_end : (xs : List ℕ) → ends_with_hyphen (trim_end xs) ≡ false
unfolding trim_end ends_with_hyphen
ends_with_hyphen-trim_end [] = refl
ends_with_hyphen-trim_end (x ∷ xs) =
    let rest = ends_with_hyphen-trim_end xs in
    elim (Bool-cases (is_empty (trim_end xs))) [
      | inl last ↦ elim (Bool-cases (x == hyphen)) [
        | inl dash ↦ rw (last, dash)
        | inr other ↦ rw (last, other, last) other
      ]
      | inr more ↦ rw (more, more) rest
    ]

same_text-eq : (xs ys : List ℕ) → same_text xs ys ≡ true → xs ≡ ys
unfolding same_text
same_text-eq [] [] h = refl
same_text-eq [] (y ∷ ys) h = absurd (cc)
same_text-eq (x ∷ xs) [] h = absurd (cc)
same_text-eq (x ∷ xs) (y ∷ ys) h = elim (Bool-cases (x == y)) [
  | inl e ↦
      let first = (nat_beq_iff x y).0 e in
      let rest = same_text-eq xs ys (rw e at h) in λ i. first i ∷ rest i
  | inr differ ↦ let clash : false ≡ true = rw differ at h in absurd (cc)
]

same_text-ne : (xs ys : List ℕ) → xs ≢ ys → same_text xs ys ≡ false
same_text-ne xs ys h = elim (Bool-cases (same_text xs ys)) [
  | inl e ↦ absurd (h (same_text-eq xs ys e))
  | inr differ ↦ differ
]

is_empty-ne : (xs : List ℕ) → xs ≢ [] → is_empty xs ≡ false
is_empty-ne [] h = absurd (h refl)
is_empty-ne (x ∷ xs) h = refl

-- The slug that is made of any name is accepted, but where it is empty or reserved.
pub validate_group_slug-slugify :
    (name : List ℕ)
    → slugify name ≢ []
    → slugify name ≢ chars "default"
    → slugify name ≢ chars "no-headless"
    → validate_group_slug (slugify name) ≡ none
unfolding validate_group_slug slugify
validate_group_slug-slugify name some_text not_default not_headless =
    let collapsed = collapse true (map fold_char name) in
    let allowed = AllAllowed-trim_end (take 64 collapsed) (
      AllAllowed-take 64 collapsed
        (AllAllowed-collapse true (map fold_char name) (AllAllowed-map name))) in
    let short : ltb 64 (byte_len (trim_end (take 64 collapsed))) ≡ false =
      le→ltb 64 (byte_len (trim_end (take 64 collapsed))) (
        omega (
          arith,
          byte_len-allowed (trim_end (take 64 collapsed)) allowed,
          length-trim_end_le (take 64 collapsed),
          length-take_le 64 collapsed,
        )) in
    let start =
      starts_with_hyphen-trim_end (take 64 collapsed)
        (starts_with_hyphen-take 64 collapsed (starts_with_hyphen-collapse (map fold_char name))) in
    rw (
      is_empty-ne _ some_text,
      same_text-ne _ _ not_default,
      same_text-ne _ _ not_headless,
      short,
      start,
      ends_with_hyphen-trim_end (take 64 collapsed),
      allowed,
    )
