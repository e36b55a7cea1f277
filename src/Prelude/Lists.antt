-- ===== src/Prelude/Lists.antt =====
-- Lists measured by native numbers, tested by Boolean predicates.
use Prim.Native.Nat.{ℕ, zero, suc, ◌+◌, min}
use mathlib.Core.Path.{◌≡◌, refl, ap, sym, ◌∙◌}
use mathlib.Core.Logic.{◌⊎◌, inl, inr}
use mathlib.Core.Bool.{Bool, true, false, ◌&&◌, ◌||◌}
use mathlib.Core.List.{List, [], ◌∷◌, ◌++◌, Memᴰ}
use mathlib.Core.Option.{Option, none, some}
use native.Mathlib.Omega.{arith}
use quma_custom.Prelude.Tests.{if◌then◌else◌, Bool-cases}

module _ {ℓ} {A : Type ℓ} where
  abbrev pub length : List A → ℕ
  length [] = 0
  length (x ∷ xs) = suc (length xs)

  abbrev pub take : ℕ → List A → List A
  take zero xs = []
  take (suc n) [] = []
  take (suc n) (x ∷ xs) = x ∷ take n xs

  abbrev pub drop : ℕ → List A → List A
  drop zero xs = xs
  drop (suc n) [] = []
  drop (suc n) (x ∷ xs) = drop n xs

  -- Rust's `iter().any`, `iter().all`, `iter().filter` and `iter().find` with a closure into `bool`.
  abbrev pub any : (A → Bool) → List A → Bool
  any p [] = false
  any p (x ∷ xs) = p x || any p xs

  abbrev pub all : (A → Bool) → List A → Bool
  all p [] = true
  all p (x ∷ xs) = p x && all p xs

  abbrev pub filter : (A → Bool) → List A → List A
  filter p [] = []
  filter p (x ∷ xs) = let rest = filter p xs in if p x then x ∷ rest else rest

  abbrev pub find : (A → Bool) → List A → Option A
  find p [] = none
  find p (x ∷ xs) = let rest = find p xs in if p x then some x else rest

  abbrev pub is_empty : List A → Bool
  is_empty [] = true
  is_empty (x ∷ xs) = false

  abbrev pub foldl {κ} : {B : Type κ} → (B → A → B) → B → List A → B
  foldl f b [] = b
  foldl f b (x ∷ xs) = foldl f (f b x) xs

  pub List-cases : (xs : List A) → (xs ≡ []) ⊎ ((y : A) × (ys : List A) × (xs ≡ y ∷ ys))
  List-cases [] = inl refl
  List-cases (x ∷ xs) = inr (x, xs, refl)

  pub length-append : (xs ys : List A) → length (xs ++ ys) ≡ length xs + length ys
  length-append [] ys = omega arith
  length-append (x ∷ xs) ys = omega (arith, length-append xs ys)

  pub length-take : (n : ℕ) (xs : List A) → length (take n xs) ≡ min n (length xs)
  length-take zero xs = omega arith
  length-take (suc n) [] = omega arith
  length-take (suc n) (x ∷ xs) = omega (arith, length-take n xs)

module _ {ℓ} {A : Type ℓ} (p : A → Bool) where
  pub mem-any : {x : A} {xs : List A} → Memᴰ x xs → p x ≡ true → any p xs ≡ true
  mem-any (Memᴰ.head {x = y} {xs = ys} e) h = let k : p y ≡ true = ap p (sym e) ∙ h in ground arith
  mem-any (Memᴰ.tail {x = y} {xs = ys} m) h = let k = mem-any m h in ground arith

  pub any-mem : (xs : List A) → any p xs ≡ true → (x : A) × Memᴰ x xs × (p x ≡ true)
  any-mem [] h = absurd (cc)
  any-mem (y ∷ ys) h = elim (Bool-cases (p y)) [
    | inl hit ↦ (y, Memᴰ.head refl, hit)
    | inr miss ↦ let (x, m, e) = any-mem ys (ground arith) in (x, Memᴰ.tail m, e)
  ]

  pub mem-filter : {x : A} {xs : List A} → Memᴰ x xs → p x ≡ true → Memᴰ x (filter p xs)
  mem-filter (Memᴰ.head {x = y} e) h = let k : p y ≡ true = ap p (sym e) ∙ h in rw k (Memᴰ.head e)
  mem-filter {x} (Memᴰ.tail {x = y} m) h = elim (Bool-cases (p y)) [
    | inl hit ↦ rw hit (Memᴰ.tail (mem-filter m h))
    | inr miss ↦ rw miss (mem-filter m h)
  ]

  mem_cons_of_filter :
      {x y : A} {ys zs : List A}
      → (Memᴰ x zs → Memᴰ x ys × (p x ≡ true))
      → p y ≡ true
      → Memᴰ x (y ∷ zs)
      → Memᴰ x (y ∷ ys) × (p x ≡ true)
  mem_cons_of_filter below hit (Memᴰ.head e) = (Memᴰ.head e, ap p e ∙ hit)
  mem_cons_of_filter below hit (Memᴰ.tail k) = let r = below k in (Memᴰ.tail r.0, r.1)

  pub mem_of_mem-filter : {x : A} (xs : List A) → Memᴰ x (filter p xs) → Memᴰ x xs × (p x ≡ true)
  mem_of_mem-filter [] m = elim m [ ]
  mem_of_mem-filter {x} (y ∷ ys) m = elim (Bool-cases (p y)) [
    | inl hit ↦ mem_cons_of_filter (λ k. mem_of_mem-filter ys k) hit (rw hit at m)
    | inr miss ↦ let r = mem_of_mem-filter ys (rw miss at m) in (Memᴰ.tail r.0, r.1)
  ]
