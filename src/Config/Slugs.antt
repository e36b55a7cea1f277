-- ===== src/Config/Slugs.antt =====
-- src/config.rs: the slugs of groups. A text that is taken apart is the list of its characters' codes.
use Prim.Native.Char.{code}
use Prim.Native.String.{[], ◌∷◌}
use quma_custom.Prelude.{
  ℕ, ◌+◌, String, Bool, true, false, not, ◌&&◌, ◌||◌, Option, none, some, List, [], ◌∷◌, map, ltb,
  leb, ◌==◌, nat_eq, string_eq, if◌then◌else◌, take, any, is_empty,
}

unfoldable pub chars : String → List ℕ
chars [] = []
chars (c ∷ s) = code c ∷ chars s

abbrev pub between : ℕ → ℕ → ℕ → Bool
between low high c = leb low c && leb c high

abbrev pub is_ascii_digit : ℕ → Bool
is_ascii_digit c = between 48 57 c

abbrev pub is_ascii_lowercase : ℕ → Bool
is_ascii_lowercase c = between 97 122 c

abbrev pub is_ascii_uppercase : ℕ → Bool
is_ascii_uppercase c = between 65 90 c

abbrev pub is_ascii_alphanumeric : ℕ → Bool
is_ascii_alphanumeric c = is_ascii_digit c || is_ascii_lowercase c || is_ascii_uppercase c

abbrev pub to_ascii_lowercase : ℕ → ℕ
to_ascii_lowercase c = if is_ascii_uppercase c then c + 32 else c

abbrev pub hyphen : ℕ
hyphen = 45

-- How many bytes a character takes in UTF-8
abbrev pub len_utf8 : ℕ → ℕ
len_utf8 c = if ltb c 128 then 1 else if ltb c 2048 then 2 else if ltb c 65536 then 3 else 4

unfoldable pub byte_len : List ℕ → ℕ
byte_len [] = 0
byte_len (c ∷ s) = len_utf8 c + byte_len s

-- The closure of `map`
unfoldable pub fold_char : ℕ → ℕ
fold_char c = if is_ascii_alphanumeric c then to_ascii_lowercase c else hyphen

-- The loop that collapses hyphens, by `prev_hyphen`
unfoldable pub collapse : Bool → List ℕ → List ℕ
collapse prev [] = []
collapse prev (ch ∷ s) =
    let skipped = collapse true s in
    let kept = collapse false s in
    if ch == hyphen then (if prev then skipped else ch ∷ skipped) else ch ∷ kept

-- `trim_end_matches('-')`
unfoldable pub trim_end : List ℕ → List ℕ
trim_end [] = []
trim_end (ch ∷ s) =
    let rest = trim_end s in if is_empty rest && (ch == hyphen) then [] else ch ∷ rest

-- What is left after the loop is ASCII, so `truncate` counts characters.
unfoldable pub slugify : List ℕ → List ℕ
slugify name = trim_end (take 64 (collapse true (map fold_char name)))

pub data SlugError : Type 0 where
  empty reserved too_long outer_hyphen invalid_character : SlugError

abbrev pub starts_with_hyphen : List ℕ → Bool
starts_with_hyphen [] = false
starts_with_hyphen (ch ∷ s) = ch == hyphen

unfoldable pub ends_with_hyphen : List ℕ → Bool
ends_with_hyphen [] = false
ends_with_hyphen (ch ∷ s) =
    let rest = ends_with_hyphen s in if is_empty s then ch == hyphen else rest

abbrev pub is_allowed : ℕ → Bool
is_allowed ch = is_ascii_lowercase ch || is_ascii_digit ch || (ch == hyphen)

unfoldable pub same_text : List ℕ → List ℕ → Bool
same_text [] [] = true
same_text [] (y ∷ ys) = false
same_text (x ∷ xs) [] = false
same_text (x ∷ xs) (y ∷ ys) = let rest = same_text xs ys in (x == y) && rest

unfoldable pub validate_group_slug : List ℕ → Option SlugError
validate_group_slug slug =
    if is_empty slug
    then some empty
    else if same_text slug (chars "default")
    then some reserved
    else if same_text slug (chars "no-headless")
    then some reserved
    else if ltb 64 (byte_len slug)
    then some too_long
    else if starts_with_hyphen slug || ends_with_hyphen slug
    then some outer_hyphen
    else if any (λ ch. not (is_allowed ch)) slug
    then some invalid_character
    else none
