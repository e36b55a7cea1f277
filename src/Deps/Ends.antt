-- ===== src/Deps/Ends.antt =====
-- src/ops.rs: the search over the dependents comes to an end.
use quma_custom.Prelude.{
  ℕ, zero, suc, ◌+◌, ◌≤◌, ◌<◌, ◌≡◌, ap, subst, inl, inr, false, not, some, List, [], ◌∷◌, Memᴰ,
  arith, ◌==◌, nat_eq, string_eq, Bool-cases, Option-cases, beq_self, nat_beq_iff, length, any,
  length-append, List-cases,
}
use quma_custom.Sql.{find_where, find_where-some, count_where}
use quma_custom.Sql.Count.{count_mono, count_mono_strict}
use quma_custom.Recovery.State.{InstalledMod}
use quma_custom.Deps.Collect.{
  Db, ModDependency, Search, get_mod, get_reverse_dependencies, is_visited, push, offer, offer_all,
  expand, drain, begin, collect_all_reverse_deps,
}

-- The mods of the table that were not seen.
abbrev unseen : List ℕ → List InstalledMod → ℕ
unseen visited mods = count_where (λ m. not (any (λ v. v == m.id) visited)) mods

unseen-all : (visited : List ℕ) (mods : List InstalledMod) → unseen visited mods ≤ length mods
unfolding count_where
unseen-all visited [] = ground arith
unseen-all visited (m ∷ ms) =
    let below = unseen-all visited ms in
    elim (Bool-cases (any (λ v. v == m.id) visited)) [
      | inl h ↦ rw h (omega (arith, below))
      | inr h ↦ rw h (omega (arith, below))
    ]

-- A round takes one off the queue, and what is put there was not seen before.
abbrev work : Db → Search → ℕ
work db s = unseen s.visited db.mods + length s.queue

unseen-more :
    (id : ℕ) (visited : List ℕ) (mods : List InstalledMod)
    → unseen (id ∷ visited) mods ≤ unseen visited mods
unseen-more id visited mods = count_mono _ _ mods (λ m new. ground arith)

unseen-less :
    (visited : List ℕ) (mods : List InstalledMod) {m : InstalledMod}
    → Memᴰ m mods
    → any (λ v. v == m.id) visited ≡ false
    → unseen (m.id ∷ visited) mods < unseen visited mods
unseen-less visited mods {m} k new =
    count_mono_strict _ _ mods (λ x h. ground arith) k (rw (beq_self m.id)) (rw new)

work-push :
    (db : Db) (id : ℕ) (s : Search)
    → is_visited id s ≡ false
    → work db (push (get_mod id db) (record s { visited = id ∷ s.visited })) ≤ work db s
unfolding get_mod
work-push db id s new = elim (Option-cases (find_where (λ m. m.id == id) db.mods)) [
  | inl absent ↦ rw absent (omega (arith, unseen-more id s.visited db.mods))
  | inr (m, found) ↦
      let (k, same) = find_where-some (λ m. m.id == id) db.mods m found in
      let own = (nat_beq_iff m.id id).0 same in
      let new' : any (λ v. v == m.id) s.visited ≡ false = rw own new in
      let less =
        subst (λ z. unseen (z ∷ s.visited) db.mods < unseen s.visited db.mods) own
          (unseen-less s.visited db.mods k new') in
      rw found (omega (arith, less, length-append s.queue (m.id ∷ [])))
]

work-offer : (db : Db) (dep : ModDependency) (s : Search) → work db (offer db dep s) ≤ work db s
unfolding offer
work-offer db dep s = elim (Bool-cases (is_visited dep.mod_id s)) [
  | inl old ↦ rw old (omega arith)
  | inr new ↦ rw new (work-push db dep.mod_id s new)
]

work-offer_all :
    (db : Db) (deps : List ModDependency) (s : Search) → work db (offer_all db deps s) ≤ work db s
unfolding offer_all
work-offer_all db [] s = omega arith
work-offer_all db (dep ∷ deps) s =
    omega (arith, work-offer_all db deps (offer db dep s), work-offer db dep s)

drain-ends :
    (db : Db) (fuel : ℕ) (s : Search)
    → work db s ≤ fuel
    → (rs : List InstalledMod) × (drain db fuel s ≡ some rs)
unfolding drain expand
drain-ends db zero s h = elim (List-cases s.queue) [
  | inl empty ↦ (s.result, rw (empty, drain))
  | inr (u, rest, e) ↦ absurd (omega (arith, ap length e))
]
drain-ends db (suc fuel) s h = elim (List-cases s.queue) [
  | inl empty ↦ (s.result, rw (empty, drain))
  | inr (u, rest, e) ↦
      let less = work-offer_all db (get_reverse_dependencies u db) (record s { queue = rest }) in
      let (rs, ends) = drain-ends db fuel (expand db u rest s) (omega (arith, less, ap length e)) in
      (rs, rw (e, drain) ends)
]

-- The fuel is enough: the search over the dependents ends, however the table of dependencies looks,
-- cycles included.
pub collect_all_reverse_deps-ends :
    (mod_db_id : ℕ) (db : Db)
    → (rs : List InstalledMod) × (collect_all_reverse_deps mod_db_id db ≡ some rs)
unfolding collect_all_reverse_deps
collect_all_reverse_deps-ends mod_db_id db =
    drain-ends db (length db.mods + 1) (begin mod_db_id)
      (omega (arith, unseen-all (mod_db_id ∷ []) db.mods))
