-- ===== src/Deps/Invariant.antt =====
-- src/ops.rs: what holds at each turn of the search over the dependents.
use mathlib.Core.List.Memᴰ as M
use quma_custom.Prelude.{
  ℕ, ◌≡◌, refl, sym, ap, ◌∙◌, subst, ◌≢◌, ◌⊎◌, inl, inr, true, false, none, some, List, [], ◌∷◌,
  ◌++◌, map, Memᴰ, arith, ◌==◌, nat_eq, string_eq, Bool-cases, Option-cases, beq_self, nat_beq_iff,
}
use quma_custom.Sql.{find_where-some}
use quma_custom.Recovery.State.{InstalledMod}
use quma_custom.Deps.Collect.{
  Db, ModDependency, Search, get_mod, is_visited, push, offer, offer_all, begin,
}

-- Chains of dependencies that lead to a mod, by mods that are in the table.
pub data IsDependent (db : Db) (root : ℕ) : ℕ → Type 0 where
  self : IsDependent db root root
  via :
      {v : ℕ} (d : ModDependency) (m : InstalledMod)
      → IsDependent db root d.depends_on_mod_id
      → Memᴰ d db.dependencies
      → d.mod_id ≡ v
      → get_mod v db ≡ some m
      → IsDependent db root v

abbrev ids : List InstalledMod → List ℕ
ids xs = map InstalledMod.id xs

mem-ids_more :
    (v : ℕ) (xs : List InstalledMod) (m : InstalledMod)
    → Memᴰ v (ids xs)
    → Memᴰ v (ids (xs ++ m ∷ []))
mem-ids_more v xs m k =
    let (a, ka, ea) = M.of_map InstalledMod.id xs k in
    subst (λ z. Memᴰ z (ids (xs ++ m ∷ []))) ea (M.map InstalledMod.id (M.append_left (m ∷ []) ka))

mem-ids_new : (xs : List InstalledMod) (m : InstalledMod) → Memᴰ m.id (ids (xs ++ m ∷ []))
mem-ids_new xs m = M.map InstalledMod.id (M.append_right xs (Memᴰ.head refl))

mem-ids_cases :
    (v : ℕ) (xs : List InstalledMod) (m : InstalledMod)
    → Memᴰ v (ids (xs ++ m ∷ []))
    → Memᴰ v (ids xs) ⊎ (v ≡ m.id)
mem-ids_cases v xs m k =
    let (a, ka, ea) = M.of_map InstalledMod.id (xs ++ m ∷ []) k in
    elim (M.append_cases xs ka) [
      | inl old ↦ inl (subst (λ z. Memᴰ z (ids xs)) ea (M.map InstalledMod.id old))
      | inr new ↦ inr (sym ea ∙ ap InstalledMod.id (M.eq_of_singleton new))
    ]

visited_cases :
    (v id : ℕ) (s : Search)
    → is_visited v (record s { visited = id ∷ s.visited }) ≡ true
    → (id ≡ v) ⊎ (is_visited v s ≡ true)
visited_cases v id s h = elim (Bool-cases (id == v)) [
  | inl same ↦ inl ((nat_beq_iff id v).0 same)
  | inr other ↦ inr (rw other at h)
]

still_visited :
    (v id : ℕ) (s : Search)
    → is_visited v s ≡ true
    → is_visited v (record s { visited = id ∷ s.visited }) ≡ true
still_visited v id s h = ground arith

pub some_injective : {A : Type 0} {x y : A} → some x ≡ some y → x ≡ y
some_injective e = cc

module _ (db : Db) (root : ℕ) where
  -- The root or one of the mods found.
  abbrev pub IsListed : ℕ → Search → Type 0
  IsListed v s = (v ≡ root) ⊎ Memᴰ v (map InstalledMod.id s.result)

  -- What holds between two turns of the inner loop; `left` are the edges that it still has to follow.
  pub record Inv (left : List ModDependency) (s : Search) : Type 0 where
    pub rooted : is_visited root s ≡ true
    pub sound : (v : ℕ) → Memᴰ v (map InstalledMod.id s.result) → (v ≢ root) × IsDependent db root v
    pub queued : (v : ℕ) → Memᴰ v s.queue → IsDependent db root v
    pub seen : (v : ℕ) → is_visited v s ≡ true → IsListed v s ⊎ (get_mod v db ≡ none)
    pub closed :
        (d : ModDependency)
        → Memᴰ d db.dependencies
        → IsListed d.depends_on_mod_id s
        → Memᴰ d.depends_on_mod_id s.queue ⊎ ((is_visited d.mod_id s ≡ true) ⊎ Memᴰ d left)
    pub edges :
        (d : ModDependency)
        → Memᴰ d left
        → Memᴰ d db.dependencies × IsDependent db root d.depends_on_mod_id

  -- The edge that is followed now is seen from now on; all else stays as it was.
  follow :
      (dep d : ModDependency) (left : List ModDependency) (s : Search) (q : List ℕ)
      → ((v : ℕ) → Memᴰ v s.queue → Memᴰ v q)
      → Memᴰ d.depends_on_mod_id s.queue ⊎ ((is_visited d.mod_id s ≡ true) ⊎ Memᴰ d (dep ∷ left))
      → Memᴰ d.depends_on_mod_id q
        ⊎ ((is_visited d.mod_id (record s { visited = dep.mod_id ∷ s.visited }) ≡ true)
            ⊎ Memᴰ d left)
  follow dep d left s q grows (inl waits) = inl (grows d.depends_on_mod_id waits)
  follow dep d left s q grows (inr (inl old)) = inr (inl (still_visited d.mod_id dep.mod_id s old))
  follow dep d left s q grows (inr (inr (Memᴰ.head e))) =
      inr (inl (rw e (rw (beq_self dep.mod_id))))
  follow dep d left s q grows (inr (inr (Memᴰ.tail k))) = inr (inr k)

  pub Inv-begin : Inv [] (begin root)
  Inv-begin = record {
    rooted = rw (beq_self root);
    sound = λ v k. elim k [ ];
    queued = λ v k. rw (M.eq_of_singleton k) self;
    seen = λ v h. inl (inl (sym ((nat_beq_iff root v).0 (ground arith))));
    closed =
        λ d k listed. elim listed [ inl is_root ↦ inl (Memᴰ.head is_root) | inr k ↦ elim k [ ] ];
    edges = λ d k. elim k [ ];
  }

  id_of_get_mod : (v : ℕ) (m : InstalledMod) → get_mod v db ≡ some m → m.id ≡ v
  unfolding get_mod
  id_of_get_mod v m found =
      (nat_beq_iff m.id v).0 (find_where-some (λ x. x.id == v) db.mods m found).1

  Inv-seen :
      (dep : ModDependency) (left : List ModDependency) (s : Search)
      → is_visited dep.mod_id s ≡ true
      → Inv (dep ∷ left) s
      → Inv left s
  Inv-seen dep left s old h = record {
    rooted = h.rooted;
    sound = h.sound;
    queued = h.queued;
    seen = h.seen;
    closed = λ d k listed. elim (h.closed d k listed) [
      | inl waits ↦ inl waits
      | inr (inl seen) ↦ inr (inl seen)
      | inr (inr (Memᴰ.head e)) ↦ inr (inl (rw e old))
      | inr (inr (Memᴰ.tail later)) ↦ inr (inr later)
    ];
    edges = λ d k. h.edges d (Memᴰ.tail k);
  }

  Inv-absent :
      (dep : ModDependency) (left : List ModDependency) (s : Search)
      → get_mod dep.mod_id db ≡ none
      → Inv (dep ∷ left) s
      → Inv left (record s { visited = dep.mod_id ∷ s.visited })
  Inv-absent dep left s absent h = record {
    rooted = still_visited root dep.mod_id s h.rooted;
    sound = h.sound;
    queued = h.queued;
    seen = λ v k. elim (visited_cases v dep.mod_id s k) [
      | inl same ↦ inr (rw (← same) absent)
      | inr old ↦ h.seen v old
    ];
    closed = λ d k listed. follow dep d left s s.queue (λ v w. w) (h.closed d k listed);
    edges = λ d k. h.edges d (Memᴰ.tail k);
  }

  Inv-found :
      (dep : ModDependency) (left : List ModDependency) (s : Search) (m : InstalledMod)
      → is_visited dep.mod_id s ≡ false
      → get_mod dep.mod_id db ≡ some m
      → Inv (dep ∷ left) s
      → Inv left (push (some m) (record s { visited = dep.mod_id ∷ s.visited }))
  Inv-found dep left s m new found h =
      let own : m.id ≡ dep.mod_id = id_of_get_mod dep.mod_id m found in
      let (stored, reached) = h.edges dep (Memᴰ.head refl) in
      let to_m : IsDependent db root m.id =
        via dep m reached stored (sym own) (subst (λ z. get_mod z db ≡ some m) (sym own) found) in
      record {
        rooted = still_visited root dep.mod_id s h.rooted;
        sound = λ v k. elim (mem-ids_cases v s.result m k) [
          | inl old ↦ h.sound v old
          | inr same ↦ (
            λ is_root.
                let seen_root =
                  subst (λ z. is_visited z s ≡ true) (sym is_root ∙ same ∙ own) h.rooted in
                absurd (cc),
            rw same to_m,
          )
        ];
        queued = λ v k. elim (M.append_cases s.queue k) [
          | inl old ↦ h.queued v old
          | inr new_one ↦ rw (M.eq_of_singleton new_one) to_m
        ];
        seen = λ v k. elim (visited_cases v dep.mod_id s k) [
          | inl same ↦ inl (
              inr (
                subst (λ z. Memᴰ z (ids (s.result ++ m ∷ []))) (own ∙ same)
                  (mem-ids_new s.result m)))
          | inr old ↦ elim (h.seen v old) [
            | inl (inl is_root) ↦ inl (inl is_root)
            | inl (inr k) ↦ inl (inr (mem-ids_more v s.result m k))
            | inr gone ↦ inr gone
          ]
        ];
        closed = λ d k listed. elim listed [
          | inl is_root ↦
              follow dep d left s _ (λ v w. M.append_left _ w) (h.closed d k (inl is_root))
          | inr found_one ↦ elim (mem-ids_cases d.depends_on_mod_id s.result m found_one) [
            | inl old ↦ follow dep d left s _ (λ v w. M.append_left _ w) (h.closed d k (inr old))
            | inr same ↦ inl (rw same (M.append_right s.queue (Memᴰ.head refl)))
          ]
        ];
        edges = λ d k. h.edges d (Memᴰ.tail k);
      }

  pub Inv-offer :
      (dep : ModDependency) (left : List ModDependency) (s : Search)
      → Inv (dep ∷ left) s
      → Inv left (offer db dep s)
  unfolding offer
  Inv-offer dep left s h = elim (Bool-cases (is_visited dep.mod_id s)) [
    | inl old ↦ rw old (Inv-seen dep left s old h)
    | inr new ↦ elim (Option-cases (get_mod dep.mod_id db)) [
      | inl absent ↦ rw (new, absent) (Inv-absent dep left s absent h)
      | inr (m, found) ↦ rw (new, found) (Inv-found dep left s m new found h)
    ]
  ]

  pub Inv-offer_all :
      (left : List ModDependency) (s : Search) → Inv left s → Inv [] (offer_all db left s)
  unfolding offer_all
  Inv-offer_all [] s h = h
  Inv-offer_all (dep ∷ left) s h = Inv-offer_all left (offer db dep s) (Inv-offer dep left s h)
