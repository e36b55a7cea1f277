-- ===== src/Deps/Correct.antt =====
-- src/ops.rs: the search over the dependents finds all of them, and nothing else.
use mathlib.Core.List.Memᴰ as M
use quma_custom.Prelude.{
  ℕ, zero, suc, ◌+◌, ◌≡◌, refl, sym, ◌∙◌, ◌≢◌, ◌↔◌, inl, inr, some, List, [], ◌∷◌, map, Memᴰ, ◌==◌,
  nat_eq, string_eq, beq_self, nat_beq_iff, length, List-cases, mem-filter, mem_of_mem-filter,
}
use quma_custom.Recovery.State.{InstalledMod}
use quma_custom.Deps.Collect.{
  Db, Search, get_reverse_dependencies, expand, drain, begin, collect_all_reverse_deps,
}
use quma_custom.Deps.Ends.{collect_all_reverse_deps-ends}
use quma_custom.Deps.Invariant.{
  IsDependent, self, via, IsListed, Inv, Inv-begin, Inv-offer_all, some_injective,
}

module _ (db : Db) (root : ℕ) where
  -- The mod at the head of the queue is taken off: its edges are those to follow.
  Inv-pop :
      (u : ℕ) (rest : List ℕ) (s : Search)
      → s.queue ≡ u ∷ rest
      → Inv db root [] s
      → Inv db root (get_reverse_dependencies u db) (record s { queue = rest })
  unfolding get_reverse_dependencies
  Inv-pop u rest s e h = record {
    rooted = h.rooted;
    sound = h.sound;
    queued = λ v k. h.queued v (rw e (Memᴰ.tail k));
    seen = h.seen;
    closed = λ d k listed. elim (h.closed d k listed) [
      | inl waits ↦ elim (M.cases_cons (rw e at waits)) [
        | inl now ↦ inr (inr (mem-filter (λ x. x.depends_on_mod_id == u) k (rw now (beq_self u))))
        | inr later ↦ inl later
      ]
      | inr (inl old) ↦ inr (inl old)
      | inr (inr none_left) ↦ elim none_left [ ]
    ];
    edges = λ d k.
        let (stored, from_u) =
          mem_of_mem-filter (λ x. x.depends_on_mod_id == u) db.dependencies k in
        (
          stored,
          rw ((nat_beq_iff d.depends_on_mod_id u).0 from_u) (h.queued u (rw e (Memᴰ.head refl))),
        );
  }

  Inv-drain :
      (fuel : ℕ) (s : Search) (rs : List InstalledMod)
      → Inv db root [] s
      → drain db fuel s ≡ some rs
      → (t : Search) × Inv db root [] t × (t.queue ≡ []) × (t.result ≡ rs)
  unfolding drain expand
  Inv-drain zero s rs h e = elim (List-cases s.queue) [
    | inl empty ↦ (s, h, empty, some_injective (rw (empty, drain) at e))
    | inr (u, rest, q) ↦ let clash = rw (q, drain) at e in absurd (cc)
  ]
  Inv-drain (suc fuel) s rs h e = elim (List-cases s.queue) [
    | inl empty ↦ (s, h, empty, some_injective (rw (empty, drain) at e))
    | inr (u, rest, q) ↦
        Inv-drain fuel (expand db u rest s) rs
          (Inv-offer_all db root (get_reverse_dependencies u db) (record s { queue = rest })
            (Inv-pop u rest s q h))
          (rw (q, drain) at e)
  ]

  -- With an empty queue every dependent is listed.
  complete :
      {v : ℕ} (t : Search)
      → Inv db root [] t
      → t.queue ≡ []
      → IsDependent db root v
      → IsListed db root v t
  complete t h e self = inl refl
  complete {v} t h e (via d m p stored own found) = elim (h.closed d stored (complete t h e p)) [
    | inl waits ↦ elim (rw e at waits) [ ]
    | inr (inr none_left) ↦ elim none_left [ ]
    | inr (inl old) ↦ elim (h.seen v (rw own at old)) [
      | inl listed ↦ listed
      | inr gone ↦ let clash = sym gone ∙ found in absurd (cc)
    ]
  ]

-- The search returns, and what it returns are the mods, other than the one asked for, from which a
-- chain of dependencies between mods of the table leads to that one.
pub collect_all_reverse_deps_complete :
    (mod_db_id : ℕ) (db : Db)
    → (rs : List InstalledMod) × (collect_all_reverse_deps mod_db_id db ≡ some rs)
      × ((v : ℕ) → Memᴰ v (map InstalledMod.id rs) ↔ ((v ≢ mod_db_id) × IsDependent db mod_db_id v))
unfolding collect_all_reverse_deps
collect_all_reverse_deps_complete root db =
    let (rs, ends) = collect_all_reverse_deps-ends root db in
    let (t, h, empty, same) =
      Inv-drain db root (length db.mods + 1) (begin root) rs (Inv-begin db root) ends in
    (
      rs,
      ends,
      λ v. (
        λ k. h.sound v (rw same k),
        λ p. elim (complete db root t h empty p.1) [
          | inl is_root ↦ absurd (p.0 is_root)
          | inr k ↦ rw same at k
        ],
      ),
    )
