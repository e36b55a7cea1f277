-- ===== src/Toggle/Classify.antt =====
-- src/ops.rs: which directory a file of a mod stands in, told by the text of its path.
use Prim.Native.String.append
use Prim.Native.Char.{code}
use Prim.Native.String.{[], ◌∷◌, ◌++◌ as concat}
use text.Mathlib.Text.{starts_with}
use text.Mathlib.TextPositions.{starts_with-append}
use text.Mathlib.TextEquality.{starts_with_iff}
use quma_custom.Prelude.{
  eq_iff, String, ◌≡◌, refl, sym, ap, ◌∙◌, subst, ◌↔◌, ◌⊎◌, inl, inr, Bool, true, false, ◌||◌, none,
  some, List, [], ◌∷◌, arith, ltb, leb, ◌==◌, nat_eq, string_eq, Bool-cases, some_injective,
  nat_beq_iff, length,
}
use quma_custom.Toggle.Paths.{split, extend, join, join_rest, top_level_dir}
use quma_custom.Toggle.Prefix.{concat-concat, slash_first, slash, split-cons}

abbrev pub has_slash : String → Bool
has_slash [] = false
has_slash (c ∷ s) = let rest = has_slash s in code c == 47 || rest

-- Nothing, or a slash and more.
abbrev pub IsTail : String → Type 0
IsTail tail = (tail ≡ "") ⊎ ((rest : String) × (tail ≡ concat "/" rest))

-- A directory below the mods of the server has a name without a slash, and the path is that directory or
-- below it; one below the plugins of the game too, but the path is below it.
abbrev pub IsDirOf : String → String → Type 0
IsDirOf path dir =
    ((name : String) × (tail : String) × (has_slash name ≡ false)
      × IsTail tail
      × (path ≡ concat "SPT/user/mods/" (concat name tail))
      × (dir ≡ concat "SPT/user/mods/" name))
    ⊎ ((name : String) × (rest : String) × (has_slash name ≡ false)
        × (path ≡ concat "BepInEx/plugins/" (concat name (concat "/" rest)))
        × (dir ≡ concat "BepInEx/plugins/" name))

append_nil : (s : String) → concat s "" ≡ s
append_nil [] = append.nil ""
append_nil (c ∷ s) = append.cons c s "" ∙ ap (λ z. c ∷ z) (append_nil s)

split-slash : (s : String) → split (concat "/" s) ≡ "" ∷ split s
unfolding split
split-slash s = ap split (sym (slash_first slash s refl))

split-part :
    (part s : String) → has_slash part ≡ false → split (concat part (concat "/" s)) ≡ part ∷ split s
unfolding split
split-part [] s clear = ap split (append.nil (concat "/" s)) ∙ split-slash s
split-part (c ∷ part) s clear =
    let plain : (code c == 47) ≡ false = ground arith in
    ap split (append.cons c part (concat "/" s))
    ∙ rw plain (ap (extend c) (split-part part s (ground arith)))

split-only : (part : String) → has_slash part ≡ false → split part ≡ part ∷ []
unfolding split
split-only [] clear = refl
split-only (c ∷ part) clear =
    let plain : (code c == 47) ≡ false = ground arith in
    rw plain (ap (extend c) (split-only part (ground arith)))

first_part :
    (s : String)
    → (name : String) × (tail : String) × (has_slash name ≡ false)
      × IsTail tail
      × (s ≡ concat name tail)
first_part [] = ("", "", refl, inl refl, sym (append.nil ""))
first_part (c ∷ s) = elim (Bool-cases (code c == 47)) [
  | inl here ↦ (
    "",
    c ∷ s,
    refl,
    inr (s, slash_first c s ((nat_beq_iff (code c) 47).0 here)),
    sym (append.nil (c ∷ s)),
  )
  | inr other ↦
      let (name, tail, clear, is_tail, e) = first_part s in
      (
        c ∷ name,
        tail,
        rw (other, clear),
        is_tail,
        ap (λ z. c ∷ z) e ∙ sym (append.cons c name tail),
      )
]

split-tail :
    (name tail : String)
    → has_slash name ≡ false
    → IsTail tail
    → (more : List String) × (split (concat name tail) ≡ name ∷ more)
split-tail name tail clear (inl e) =
    ([], ap split (ap (concat name) e ∙ append_nil name) ∙ split-only name clear)
split-tail name tail clear (inr (rest, e)) =
    (split rest, ap split (ap (concat name) e) ∙ split-part name rest clear)

peel : (a b s : String) → concat (concat a (concat "/" b)) s ≡ concat a (concat "/" (concat b s))
peel a b s = concat-concat a (concat "/" b) s ∙ ap (concat a) (concat-concat "/" b s)

server_parts :
    (s : String)
    → concat "SPT/user/mods/" s
      ≡ concat "SPT" (concat "/" (concat "user" (concat "/" (concat "mods" (concat "/" s)))))
server_parts s =
    peel "SPT" "user/mods/" s
    ∙ ap (λ z. concat "SPT" (concat "/" z))
        (peel "user" "mods/" s
          ∙ ap (λ z. concat "user" (concat "/" z)) (concat-concat "mods" "/" s))

client_parts :
    (s : String)
    → concat "BepInEx/plugins/" s ≡ concat "BepInEx" (concat "/" (concat "plugins" (concat "/" s)))
client_parts s =
    peel "BepInEx" "plugins/" s
    ∙ ap (λ z. concat "BepInEx" (concat "/" z)) (concat-concat "plugins" "/" s)

split-server : (s : String) → split (concat "SPT/user/mods/" s) ≡ "SPT" ∷ "user" ∷ "mods" ∷ split s
split-server s =
    ap split (server_parts s)
    ∙ split-part "SPT" _ refl
    ∙ ap (λ z. "SPT" ∷ z)
        (split-part "user" _ refl ∙ ap (λ z. "user" ∷ z) (split-part "mods" s refl))

split-client : (s : String) → split (concat "BepInEx/plugins/" s) ≡ "BepInEx" ∷ "plugins" ∷ split s
split-client s =
    ap split (client_parts s)
    ∙ split-part "BepInEx" _ refl
    ∙ ap (λ z. "BepInEx" ∷ z) (split-part "plugins" s refl)

join-server :
    (name : String) → join ("SPT" ∷ "user" ∷ "mods" ∷ name ∷ []) ≡ concat "SPT/user/mods/" name
unfolding join join_rest
join-server name =
    ap (λ z. concat "SPT" (concat "/" (concat "user" (concat "/" (concat "mods" (concat "/" z))))))
      (append_nil name)
    ∙ sym (server_parts name)

join-client :
    (name : String) → join ("BepInEx" ∷ "plugins" ∷ name ∷ []) ≡ concat "BepInEx/plugins/" name
unfolding join join_rest
join-client name =
    ap (λ z. concat "BepInEx" (concat "/" (concat "plugins" (concat "/" z)))) (append_nil name)
    ∙ sym (client_parts name)

abbrev head : List String → String
head [] = ""
head (x ∷ xs) = x

client_is_not_server :
    (s : String) → starts_with (concat "BepInEx/plugins/" s) "SPT/user/mods/" ≡ false
client_is_not_server s =
    elim (Bool-cases (starts_with (concat "BepInEx/plugins/" s) "SPT/user/mods/")) [
      | inr apart ↦ apart
      | inl clash ↦
          let (t, e) = (starts_with_iff (concat "BepInEx/plugins/" s) "SPT/user/mods/").0 clash in
          let heads : "SPT" ≡ "BepInEx" =
            ap head (sym (split-server t) ∙ ap split e ∙ split-client s) in
          let wrong : false ≡ true = (eq_iff "SPT" "BepInEx").1 heads in absurd (cc)
    ]

four_or_more : (a b c d : String) (xs : List String) → leb 4 (length (a ∷ b ∷ c ∷ d ∷ xs)) ≡ true
four_or_more a b c d xs = ground arith

three_or_more : (a b c : String) (xs : List String) → leb 3 (length (a ∷ b ∷ c ∷ xs)) ≡ true
three_or_more a b c xs = ground arith

dir-server :
    (name tail : String)
    → has_slash name ≡ false
    → IsTail tail
    → top_level_dir (concat "SPT/user/mods/" (concat name tail))
      ≡ some (concat "SPT/user/mods/" name)
unfolding top_level_dir
dir-server name tail clear is_tail =
    let (more, e) = split-tail name tail clear is_tail in
    let parts = split-server (concat name tail) ∙ ap (λ z. "SPT" ∷ "user" ∷ "mods" ∷ z) e in
    rw
      (
        starts_with-append "SPT/user/mods/" (concat name tail),
        parts,
        four_or_more "SPT" "user" "mods" name more,
      )
      (ap some (join-server name))

dir-client :
    (name rest : String)
    → has_slash name ≡ false
    → top_level_dir (concat "BepInEx/plugins/" (concat name (concat "/" rest)))
      ≡ some (concat "BepInEx/plugins/" name)
unfolding top_level_dir
dir-client name rest clear =
    let s = concat name (concat "/" rest) in
    let parts = split-client s ∙ ap (λ z. "BepInEx" ∷ "plugins" ∷ z) (split-part name rest clear) in
    let (first, more, e) = split-cons rest in
    let long : ltb 3 (length ("BepInEx" ∷ "plugins" ∷ name ∷ split rest)) ≡ true =
      rw e (ground arith) in
    rw
      (
        client_is_not_server s,
        starts_with-append "BepInEx/plugins/" s,
        parts,
        three_or_more "BepInEx" "plugins" name (split rest),
        long,
      )
      (ap some (join-client name))

dir-loose :
    (name : String) → has_slash name ≡ false → top_level_dir (concat "BepInEx/plugins/" name) ≡ none
unfolding top_level_dir
dir-loose name clear =
    let parts = split-client name ∙ ap (λ z. "BepInEx" ∷ "plugins" ∷ z) (split-only name clear) in
    rw (client_is_not_server name, starts_with-append "BepInEx/plugins/" name, parts) refl

server-IsDirOf :
    (s : String) {dir : String}
    → top_level_dir (concat "SPT/user/mods/" s) ≡ some dir
    → IsDirOf (concat "SPT/user/mods/" s) dir
server-IsDirOf s found =
    let (name, tail, clear, is_tail, e) = first_part s in
    let at = ap (concat "SPT/user/mods/") e in
    let same =
      some_injective
        (sym (dir-server name tail clear is_tail) ∙ ap top_level_dir (sym at) ∙ found) in
    inl (name, tail, clear, is_tail, at, sym same)

client-IsDirOf :
    (s : String) {dir : String}
    → top_level_dir (concat "BepInEx/plugins/" s) ≡ some dir
    → IsDirOf (concat "BepInEx/plugins/" s) dir
client-IsDirOf s {dir} found =
    let (name, tail, clear, is_tail, e) = first_part s in
    let at = ap (concat "BepInEx/plugins/") e in
    elim is_tail [
      | inl nothing ↦
          let loose =
            at
            ∙ ap (λ z. concat "BepInEx/plugins/" (concat name z)) nothing
            ∙ ap (concat "BepInEx/plugins/") (append_nil name) in
          let clash : none ≡ some dir =
            sym (dir-loose name clear) ∙ ap top_level_dir (sym loose) ∙ found in
          absurd (cc)
      | inr (rest, more) ↦
          let below = at ∙ ap (λ z. concat "BepInEx/plugins/" (concat name z)) more in
          let same =
            some_injective
              (sym (dir-client name rest clear) ∙ ap top_level_dir (sym below) ∙ found) in
          inr (name, rest, clear, below, sym same)
    ]

-- The directory that is found for a path is the one that its text tells.
pub top_level_dir_iff : (path dir : String) → (top_level_dir path ≡ some dir) ↔ IsDirOf path dir
unfolding top_level_dir
top_level_dir_iff path dir = (found_is, is_found)
  where
    neither :
        starts_with path "SPT/user/mods/" ≡ false
        → starts_with path "BepInEx/plugins/" ≡ false
        → top_level_dir path ≡ none
    neither server client = rw (top_level_dir, server, client) refl

    found_is : top_level_dir path ≡ some dir → IsDirOf path dir
    found_is found = elim (Bool-cases (starts_with path "SPT/user/mods/")) [
      | inl server ↦
          let (s, e) = (starts_with_iff path "SPT/user/mods/").0 server in
          subst (λ z. IsDirOf z dir) e (server-IsDirOf s (ap top_level_dir e ∙ found))
      | inr no_server ↦ elim (Bool-cases (starts_with path "BepInEx/plugins/")) [
        | inl client ↦
            let (s, e) = (starts_with_iff path "BepInEx/plugins/").0 client in
            subst (λ z. IsDirOf z dir) e (client-IsDirOf s (ap top_level_dir e ∙ found))
        | inr no_client ↦
            let clash : none ≡ some dir = sym (neither no_server no_client) ∙ found in absurd (cc)
      ]
    ]

    is_found : IsDirOf path dir → top_level_dir path ≡ some dir
    is_found (inl (name, tail, clear, is_tail, e, f)) =
        ap top_level_dir e ∙ dir-server name tail clear is_tail ∙ ap some (sym f)
    is_found (inr (name, rest, clear, e, f)) =
        ap top_level_dir e ∙ dir-client name rest clear ∙ ap some (sym f)
