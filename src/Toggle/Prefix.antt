-- ===== src/Toggle/Prefix.antt =====
-- src/ops.rs: a file's path starts with the directory that is found for it.
use Prim.Native.String.append
use Prim.Native.Char.{Char, code}
use Prim.Native.String.{[], ◌∷◌, ◌++◌ as concat}
use text.Mathlib.Text.{starts_with}
use text.Mathlib.TextPositions.{starts_with-append}
use text.Mathlib.TextEquality.{Char-path}
use quma_custom.Prelude.{
  ℕ, zero, suc, String, ◌≡◌, refl, sym, ap, ◌∙◌, subst, inl, inr, true, ◌&&◌, some, List, [], ◌∷◌,
  ltb, leb, ◌==◌, nat_eq, string_eq, Bool-cases, nat_beq_iff, length, take,
}
use quma_custom.Toggle.Paths.{split, join, join_rest, top_level_dir}

pub concat-concat : (s t u : String) → concat (concat s t) u ≡ concat s (concat t u)
concat-concat [] t u = ap (λ z. concat z u) (append.nil t) ∙ sym (append.nil (concat t u))
concat-concat (c ∷ s) t u =
    ap (λ z. concat z u) (append.cons c s t)
    ∙ append.cons c (concat s t) u
    ∙ ap (λ z. c ∷ z) (concat-concat s t u)
    ∙ sym (append.cons c s (concat t u))

pub split-cons : (s : String) → (part : String) × (parts : List String) × (split s ≡ part ∷ parts)
unfolding split
split-cons [] = ("", [], refl)
split-cons (c ∷ s) = elim (Bool-cases (code c == 47)) [
  | inl here ↦ ("", split s, rw here)
  | inr other ↦ let (part, parts, e) = split-cons s in (c ∷ part, parts, rw (other, e))
]

keep_front :
    (c : Char) (part x rest : String)
    → c ∷ concat (concat part x) rest ≡ concat (concat (c ∷ part) x) rest
keep_front c part x rest =
    sym (ap (λ z. concat z rest) (append.cons c part x) ∙ append.cons c (concat part x) rest)

abbrev pub slash : Char
slash = "/"

pub slash_first : (c : Char) (s : String) → code c ≡ 47 → c ∷ s ≡ concat "/" s
slash_first c s e =
    ap (λ z. z ∷ s) (Char-path c slash e)
    ∙ sym (ap (λ z. slash ∷ z) (append.nil s))
    ∙ sym (append.cons slash "" s)

take_nothing : (n : ℕ) → "" ≡ concat (join (take (suc n) ("" ∷ []))) ""
unfolding join join_rest
take_nothing zero = refl
take_nothing (suc n) = refl

-- The first parts of a text, joined, are a beginning of it.
join-take-split :
    (n : ℕ) (s : String) → (rest : String) × (s ≡ concat (join (take (suc n) (split s))) rest)
unfolding split join join_rest
join-take-split n [] = ("", take_nothing n)
join-take-split zero (c ∷ s) = elim (Bool-cases (code c == 47)) [
  | inl here ↦ (c ∷ s, rw here (sym (append.nil (c ∷ s))))
  | inr other ↦
      let (part, parts, e) = split-cons s in
      let (rest, f) = join-take-split zero s in
      (rest, rw (other, e) (ap (λ z. c ∷ z) (rw e at f) ∙ keep_front c part "" rest))
]
join-take-split (suc n) (c ∷ s) = elim (Bool-cases (code c == 47)) [
  | inl here ↦
      let (part, parts, e) = split-cons s in
      let (rest, f) = join-take-split n s in
      (
        rest,
        rw (here, e)
            (slash_first c s ((nat_beq_iff (code c) 47).0 here)
              ∙ ap (concat "/") (rw e at f)
              ∙ sym (concat-concat "/" _ rest)
              ∙ sym (ap (λ z. concat z rest) (append.nil _))),
      )
  | inr other ↦
      let (part, parts, e) = split-cons s in
      let (rest, f) = join-take-split (suc n) s in
      (rest, rw (other, e) (ap (λ z. c ∷ z) (rw e at f) ∙ keep_front c part _ rest))
]

-- A file's path starts with the directory that is found for it.
pub top_level_dir-starts_with :
    (path : String) {dir : String} → top_level_dir path ≡ some dir → starts_with path dir ≡ true
unfolding top_level_dir
top_level_dir-starts_with path found =
    elim (Bool-cases (starts_with path "SPT/user/mods/" && leb 4 (length (split path)))) [
      | inl server ↦ by_parts 3 (rw server at found)
      | inr other ↦
          elim (Bool-cases (starts_with path "BepInEx/plugins/" && leb 3 (length (split path)))) [
            | inl client ↦ elim (Bool-cases (ltb 3 (length (split path)))) [
              | inl inside ↦ by_parts 2 (rw (other, client, inside) at found)
              | inr loose ↦ let clash = rw (other, client, loose) at found in absurd (cc)
            ]
            | inr neither ↦ let clash = rw (other, neither) at found in absurd (cc)
          ]
    ]
  where
    by_parts :
        (n : ℕ) {dir : String}
        → some (join (take (suc n) (split path))) ≡ some dir
        → starts_with path dir ≡ true
    by_parts n {dir} e =
        let (rest, f) = join-take-split n path in
        let same : join (take (suc n) (split path)) ≡ dir = cc in
        subst (λ z. starts_with z dir ≡ true) (sym (f ∙ ap (λ z. concat z rest) same))
          (starts_with-append dir rest)
