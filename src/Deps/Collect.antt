-- ===== src/Deps/Collect.antt =====
-- src/ops.rs: `collect_all_reverse_deps`, a breadth-first search over the table of src/db/mods.rs.
use quma_custom.Prelude.{
  ℕ, zero, suc, ◌+◌, String, Bool, Option, none, some, List, [], ◌∷◌, ◌++◌, ◌==◌, nat_eq, string_eq,
  if◌then◌else◌, length, any, filter,
}
use quma_custom.Sql.{find_where}
use quma_custom.Recovery.State.{InstalledMod}

pub record ModDependency : Type 0 where
  pub id : ℕ
  pub mod_id : ℕ
  pub depends_on_mod_id : ℕ
  pub version_constraint : Option String

pub record Db : Type 0 where
  pub mods : List InstalledMod
  pub dependencies : List ModDependency

unfoldable pub get_mod : ℕ → Db → Option InstalledMod
get_mod id db = find_where (λ m. m.id == id) db.mods

unfoldable pub get_reverse_dependencies : ℕ → Db → List ModDependency
get_reverse_dependencies mod_id db = filter (λ d. d.depends_on_mod_id == mod_id) db.dependencies

pub record Search : Type 0 where
  pub result : List InstalledMod
  pub visited : List ℕ
  pub queue : List ℕ

abbrev pub is_visited : ℕ → Search → Bool
is_visited id s = any (λ v. v == id) s.visited

-- The mod is there: it is listed, and waits to be expanded.
abbrev pub push : Option InstalledMod → Search → Search
push none s = s
push (some dependent) s = record s {
  result = s.result ++ dependent ∷ [];
  queue = s.queue ++ dependent.id ∷ [];
}

-- The body of the loop over the reverse dependencies.
unfoldable pub offer : Db → ModDependency → Search → Search
offer db dep s =
    if is_visited dep.mod_id s
    then s
    else push (get_mod dep.mod_id db) (record s { visited = dep.mod_id ∷ s.visited })

unfoldable pub offer_all : Db → List ModDependency → Search → Search
offer_all db [] s = s
offer_all db (dep ∷ deps) s = offer_all db deps (offer db dep s)

-- One round of the `while` loop, after `current` left the head of the queue.
unfoldable pub expand : Db → ℕ → List ℕ → Search → Search
expand db current rest s =
    offer_all db (get_reverse_dependencies current db) (record s { queue = rest })

-- The `while` loop; `none` where the fuel runs out before the queue is empty.
unfoldable pub drain : Db → ℕ → Search → Option (List InstalledMod)
drain db zero s = elim s.queue [ [] ↦ some s.result | _ ∷ _ ↦ none ]
drain db (suc fuel) s = elim s.queue [
  | [] ↦ some s.result
  | current ∷ rest ↦ drain db fuel (expand db current rest s)
]

abbrev pub begin : ℕ → Search
begin mod_db_id = record { result = []; visited = mod_db_id ∷ []; queue = mod_db_id ∷ [] }

-- Each round takes one mod off the queue, and only mods of the table are put there, each once.
unfoldable pub collect_all_reverse_deps : ℕ → Db → Option (List InstalledMod)
collect_all_reverse_deps mod_db_id db = drain db (length db.mods + 1) (begin mod_db_id)
